-- ===== src/Control/Files.antt =====
-- Opening and releasing a file description of the control device, and the two ioctls without
-- argument (kbdus/src/control.c). `none` is the following of a pointer to a freed device wrapper.
use bdus.Base.{ℕ, if◌then◌else◌, Bool, true, false, not, ◌&&◌, Option, none, some}
use bdus.Base.Int.{ℤ, pos}
use bdus.Base.Errno.{eperm, enomem, einval, erestartsys}
use bdus.Device.Life.{Device, DeviceState, same_device_state, device_terminate, device_deactivate}
use bdus.Control.State.{
  OnDetach, DeviceWrapper, Fd, Control, is_set, find_device, set_fd, set_device, destroy_device,
}

abbrev pub fresh_fd : Fd
fresh_fd = record { attached = false; successful = false; device_wrapper = 0 }

-- `k` names the new file description; the flags say whether the caller has CAP_SYS_ADMIN and
-- whether the allocation succeeds.
unfoldable pub open_fd : Control → ℕ → Bool → Bool → ℤ × Control
open_fd c k capable allocated =
    if not capable
    then (eperm, c)
    else if not allocated
    then (enomem, c)
    else (pos 0, set_fd k fresh_fd c)

-- `complete(fd->device_wrapper->on_detach)`
abbrev pub signal_detach : DeviceWrapper → DeviceWrapper
signal_detach w = record w { on_detach = OnDetach.signalled }

-- The device after the switch on its state in `release`.
unfoldable pub released_device : Device → Bool → Device
released_device d successful = elim d.state [
  | DeviceState.unavailable ↦ d
  | DeviceState.active ↦
      if not d.config.recoverable && not successful
      then device_terminate d
      else device_deactivate d false
  | DeviceState.inactive ↦
      if not d.config.recoverable && not successful then device_terminate d else d
  | DeviceState.terminated ↦ d
]

-- Whether a device that no one waits for goes with its file description.
unfoldable pub released_for_good : Device → Bool
released_for_good d = elim d.state [
  | DeviceState.unavailable ↦ true
  | DeviceState.active ↦ not d.config.recoverable
  | DeviceState.inactive ↦ not d.config.recoverable
  | DeviceState.terminated ↦ true
]

unfoldable pub release_wrapper : Control → DeviceWrapper → Bool → Control
unfolding released_device released_for_good
release_wrapper c w successful =
    let d = w.device in
    let detached : DeviceWrapper = record w { fd = none; device = released_device d successful } in
    if is_set w.on_detach && not (same_device_state d.state DeviceState.unavailable)
    then set_device (signal_detach detached) c
    else if released_for_good d
    then destroy_device c detached
    else set_device detached c

unfoldable pub release : Control → ℕ → Option Control
unfolding release_wrapper
release c k =
    let f = c.fds k in
    if not f.attached
    then some (set_fd k fresh_fd c)
    else elim (find_device f.device_wrapper c.devices) [
      | none ↦ none
      | some w ↦ some (set_fd k fresh_fd (release_wrapper c w f.successful))
    ]

unfoldable pub terminated_device : Device → Device
terminated_device d = elim d.state [
  | DeviceState.unavailable ↦ device_terminate d
  | DeviceState.active ↦
      if not d.config.recoverable then device_terminate d else device_deactivate d false
  | DeviceState.inactive ↦ if not d.config.recoverable then device_terminate d else d
  | DeviceState.terminated ↦ d
]

-- KBDUS_IOCTL_TERMINATE; the flag says whether the wait for the mutex is interrupted.
unfoldable pub ioctl_terminate : Control → ℕ → Bool → Option (ℤ × Control)
unfolding terminated_device
ioctl_terminate c k interrupted =
    let f = c.fds k in
    if not f.attached
    then some (einval, c)
    else if interrupted
    then some (erestartsys, c)
    else elim (find_device f.device_wrapper c.devices) [
      | none ↦ none
      | some w ↦ some (pos 0, set_device (record w { device = terminated_device w.device }) c)
    ]

-- KBDUS_IOCTL_MARK_AS_SUCCESSFUL
unfoldable pub ioctl_mark_as_successful : Control → ℕ → ℤ × Control
ioctl_mark_as_successful c k = (pos 0, set_fd k (record (c.fds k) { successful = true }) c)
