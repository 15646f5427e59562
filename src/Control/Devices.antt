-- ===== src/Control/Devices.antt =====
-- The ioctls of kbdus/src/control.c that name a device by its id or by a path.
use bdus.Base.{
  ℕ, ◌/◌, ◌%◌, ◌==◌, leb, if◌then◌else◌, Bool, true, false, not, List, [], ◌∷◌, ◌++◌, Option, none,
  some,
}
use bdus.Base.Int.{◌==ℤ◌}
use bdus.Base.Errno.{eperm, efault, einval, enodev, echild, enotblk, erestartsys, Result, ok, err}
use bdus.Device.Config.{DeviceConfig}
use bdus.Device.Validate.{is_read_only}
use bdus.Device.Life.{device_terminate}
use bdus.Control.State.{
  DeviceWrapper, Control, id_of, set_device, destroy_device, get_device_wrapper_by_id,
}
use bdus.Control.Create.{disk_max_parts}
use bdus.Control.Attach.{is_attached}

-- What comes first in each: CAP_SYS_ADMIN, the id from user space (`none` is a fault), the mutex.
pub record IdInput : Type 0 where
  pub capable : Bool
  pub id : Option ℕ
  pub interrupted : Bool

unfoldable pub with_id {ℓ} : {A : Type ℓ} → IdInput → (ℕ → Result A) → Result A
with_id input f = if not input.capable then err eperm else elim input.id [
  | none ↦ err efault
  | some id ↦ if input.interrupted then err erestartsys else f id
]

-- KBDUS_IOCTL_GET_DEVICE_CONFIG; the flag says whether the copy to user space succeeds.
unfoldable pub ioctl_get_device_config : Control → IdInput → Bool → Result DeviceConfig
unfolding with_id
ioctl_get_device_config c input copied_out = with_id input λ id.
    elim (get_device_wrapper_by_id c id) [
      | err e ↦ err e
      | ok w ↦ if not copied_out then err efault else ok w.device.config
    ]

-- KBDUS_IOCTL_FLUSH_DEVICE up to the flush itself: `ok none` skips it. What follows is the kernel's
-- work on the block device.
unfoldable pub ioctl_flush_device : Control → IdInput → Result (Unit {0}) → Result (Option ℕ)
unfolding with_id
ioctl_flush_device c input bdev = with_id input λ id. elim (get_device_wrapper_by_id c id) [
  | err e ↦ err e
  | ok w ↦
      if is_read_only w.device.config
      then ok none
      else elim bdev [ err e ↦ err e | ok _ ↦ ok (some id) ]
]

-- With the mutex held.
unfoldable pub trigger_locked : Control → ℕ → Result Control
trigger_locked c id = elim (get_device_wrapper_by_id c id) [
  | ok w ↦ ok (
      if is_attached w.fd
      then set_device (record w { device = device_terminate w.device }) c
      else destroy_device c w)
  | err e ↦ if e ==ℤ einval then err einval else ok c
]

-- KBDUS_IOCTL_TRIGGER_DEVICE_DESTRUCTION
unfoldable pub ioctl_trigger_device_destruction : Control → IdInput → Result Control
unfolding with_id trigger_locked
ioctl_trigger_device_destruction c input = with_id input (trigger_locked c)

-- KBDUS_IOCTL_WAIT_UNTIL_DEVICE_IS_DESTROYED after the lock: an error, or whether it need not wait
-- any longer.
unfoldable pub wait_until_destroyed : Control → ℕ → Result Bool
wait_until_destroyed c id =
    if leb c.next_id id
    then err einval
    else ok (elim (get_device_wrapper_by_id c id) [ ok _ ↦ false | err _ ↦ true ])

-- A check of the condition by a thread that holds the lock of the queue: it need not wait, or goes to
-- sleep until it is woken and checks again.
unfoldable pub sleep_until_destroyed : Control → ℕ → Result (Bool × Control)
unfolding wait_until_destroyed
sleep_until_destroyed c id = elim (wait_until_destroyed c id) [
  | err e ↦ err e
  | ok true ↦ ok (true, c)
  | ok false ↦ ok (false, record c { sleepers = c.sleepers ++ id ∷ [] })
]

-- `struct kstat`, as far as it is read: whether the file is a block device, and its number.
pub record Stat : Type 0 where
  pub is_block : Bool
  pub major : ℕ
  pub minor : ℕ

-- `idr_find`
unfoldable pub find_index : ℕ → List DeviceWrapper → Option DeviceWrapper
find_index i [] = none
find_index i (w ∷ ws) = if w.index == i then some w else find_index i ws

-- KBDUS_IOCTL_DEVICE_PATH_TO_ID once the path is at hand and the mutex is held; `stat` is the outcome
-- of the lookup of the path, and the last flag says whether the id is copied to user space.
unfoldable pub path_to_id : Control → ℕ → Result Stat → Bool → Result ℕ
unfolding find_index
path_to_id c device_major stat copied_out = elim stat [
  | err e ↦ err e
  | ok s ↦
      if not s.is_block
      then err enotblk
      else if not (s.major == device_major)
      then err einval
      else elim (find_index (s.minor / disk_max_parts) c.devices) [
        | none ↦ err enodev
        | some w ↦
            if not (s.minor % disk_max_parts == 0)
            then err echild
            else if not copied_out
            then err efault
            else ok (id_of w)
      ]
]
