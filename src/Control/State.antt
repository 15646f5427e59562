-- ===== src/Control/State.antt =====
-- The state of kbdus/src/control.c: the devices, and the file descriptions of the control device. A
-- device wrapper is named by the id of its device, which is never given out again: a pointer to a
-- wrapper that was freed is an id that no wrapper has.
use bdus.Base.{
  ℕ, ◌+◌, ◌-◌, ◌^◌, ◌%◌, ◌==◌, ltb, if◌then◌else◌, Bool, true, false, not, List, [], ◌∷◌, Option,
  none, some,
}
use bdus.Base.Errno.{einval, enodev, Result, ok, err}
use bdus.Device.Life.{Device}

-- `on_detach`: no one waits; someone waits; the completion was signalled and the waiter has not run
-- yet. The pointer of the source is not null in the last two.
pub data OnDetach : Type 0 where
  nobody waiting signalled : OnDetach

abbrev pub is_set : OnDetach → Bool
is_set OnDetach.nobody = false
is_set _ = true

-- `fd` is the file description that is attached.
pub record DeviceWrapper : Type 0 where
  pub index : ℕ
  pub device : Device
  pub fd : Option ℕ
  pub on_detach : OnDetach

abbrev pub id_of : DeviceWrapper → ℕ
id_of w = w.device.config.id

-- `device_wrapper` counts only if `attached`.
pub record Fd : Type 0 where
  pub attached : Bool
  pub successful : Bool
  pub device_wrapper : ℕ

-- `sleepers` has the id that each thread waits for that sleeps in `kbdus_control_device_destroyed_`.
pub record Control : Type 0 where
  pub max_devices : ℕ
  pub next_id : ℕ
  pub num_devices : ℕ
  pub devices : List DeviceWrapper
  pub fds : ℕ → Fd
  pub sleepers : List ℕ

-- `wake_up_all_locked`: every thread leaves the queue, and checks its condition again.
abbrev pub wake_up_all : Control → Control
wake_up_all c = record c { sleepers = [] }

unfoldable pub find_device : ℕ → List DeviceWrapper → Option DeviceWrapper
find_device id [] = none
find_device id (w ∷ ws) = if id_of w == id then some w else find_device id ws

unfoldable pub replace_device : DeviceWrapper → List DeviceWrapper → List DeviceWrapper
replace_device v [] = []
replace_device v (w ∷ ws) = if id_of w == id_of v then v ∷ ws else w ∷ replace_device v ws

unfoldable pub remove_device : ℕ → List DeviceWrapper → List DeviceWrapper
remove_device id [] = []
remove_device id (w ∷ ws) = if id_of w == id then ws else w ∷ remove_device id ws

abbrev pub set_fd : ℕ → Fd → Control → Control
set_fd k f c = record c { fds = λ j. if j == k then f else c.fds j }

abbrev pub set_device : DeviceWrapper → Control → Control
set_device w c = record c { devices = replace_device w c.devices }

unfoldable pub get_device_wrapper_by_id : Control → ℕ → Result DeviceWrapper
get_device_wrapper_by_id c id =
    if not (ltb id c.next_id)
    then err einval
    else elim (find_device id c.devices) [ some w ↦ ok w | none ↦ err enodev ]

-- The count is a `u32`. Destroying the device takes its inverter down with it.
unfoldable pub destroy_device : Control → DeviceWrapper → Control
destroy_device c w = wake_up_all (record c {
  num_devices = (c.num_devices + 2 ^ 32 - 1) % 2 ^ 32;
  devices = remove_device (id_of w) c.devices;
})
