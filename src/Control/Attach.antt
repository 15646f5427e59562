-- ===== src/Control/Attach.antt =====
-- KBDUS_IOCTL_ATTACH_TO_DEVICE (kbdus/src/control.c). The call gives up the mutex while it waits for
-- another file description to detach, so it has two parts.
use bdus.Base.{ℕ, if◌then◌else◌, Bool, true, false, not, ◌&&◌, Option, none, some}
use bdus.Base.Int.{ℤ, pos}
use bdus.Base.Errno.{
  eperm, efault, einval, enodev, ebusy, einprogress, erestartsys, Result, ok, err,
}
use bdus.Device.Life.{DeviceState, same_device_state, device_deactivate, device_activate}
use bdus.Control.State.{
  OnDetach, DeviceWrapper, Control, id_of, is_set, find_device, set_fd, set_device, destroy_device,
  get_device_wrapper_by_id,
}

abbrev pub is_attached : Option ℕ → Bool
is_attached none = false
is_attached (some _) = true

-- How a part of the call ends: it returns, or it waits for the device with the id.
pub data Attach : Type 0 where
  returns : ℤ → Attach
  waits : ℕ → Attach

-- From the creation of the transceiver on.
unfoldable pub attach_transceiver : Control → ℕ → DeviceWrapper → Result (Unit {0}) → ℤ × Control
attach_transceiver c k w transceiver = elim transceiver [
  | err e ↦ (e, if not w.device.config.recoverable then destroy_device c w else set_device w c)
  | ok _ ↦ (
    pos 0,
    set_fd k (record (c.fds k) { attached = true; device_wrapper = id_of w })
        (set_device (record w { device = device_activate w.device; fd = some k }) c),
  )
]

-- From the lookup of the device up to the wait, or to the end where nothing is attached.
unfoldable pub attach_begin : Control → ℕ → DeviceWrapper → Result (Unit {0}) → Attach × Control
unfolding attach_transceiver
attach_begin c k w transceiver =
    let d = w.device in
    if same_device_state d.state DeviceState.unavailable
    then (returns ebusy, c)
    else if is_set w.on_detach
    then (returns einprogress, c)
    else elim w.fd [
      | some _ ↦ (
        waits (id_of w),
        set_device
            (record w {
              device =
                  if same_device_state d.state DeviceState.terminated
                  then d
                  else device_deactivate d true;
              on_detach = OnDetach.waiting;
            })
            c,
      )
      | none ↦ let (e, c') = attach_transceiver c k w transceiver in (returns e, c')
    ]

-- After the wait, which was interrupted or not. `none` is the use of a wrapper that was freed.
unfoldable pub attach_resume : Control → ℕ → ℕ → Bool → Result (Unit {0}) → Option (ℤ × Control)
unfolding attach_transceiver
attach_resume c k id interrupted transceiver = elim (find_device id c.devices) [
  | none ↦ none
  | some w ↦
      let awake : DeviceWrapper = record w { on_detach = OnDetach.nobody } in
      if interrupted && is_attached w.fd
      then some (erestartsys, set_device awake c)
      else if same_device_state w.device.state DeviceState.terminated
      then some (enodev, destroy_device c awake)
      else some (attach_transceiver c k awake transceiver)
]

-- What the caller and the kernel bring to the call: the id or a fault, the outcome of the checks of
-- the configuration of the file description, and of the copy to user space.
pub record AttachInput : Type 0 where
  pub capable : Bool
  pub id : Option ℕ
  pub interrupted : Bool
  pub config_ok : Result (Unit {0})
  pub copied_out : Bool
  pub transceiver : Result (Unit {0})

unfoldable pub ioctl_attach_to_device : Control → ℕ → AttachInput → Attach × Control
ioctl_attach_to_device c k input = if not input.capable then (returns eperm, c) else elim input.id [
  | none ↦ (returns efault, c)
  | some id ↦
      if input.interrupted
      then (returns erestartsys, c)
      else if (c.fds k).attached
      then (returns einval, c)
      else elim (get_device_wrapper_by_id c id) [
        | err e ↦ (returns e, c)
        | ok w ↦ elim input.config_ok [
          | err e ↦ (returns e, c)
          | ok _ ↦
              if not input.copied_out
              then (returns efault, c)
              else attach_begin c k w input.transceiver
        ]
      ]
]
