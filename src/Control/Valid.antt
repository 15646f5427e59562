-- ===== src/Control/Valid.antt =====
-- The invariant of kbdus/src/control.c: the table of devices, and who is attached to which.
use bdus.Base.{ℕ, ◌^◌, ◌<◌, ◌≤◌, ◌≡◌, true, none, some, length}
use bdus.Control.State.{OnDetach, DeviceWrapper, Control, find_device}
use bdus.Control.Lookup.{copies}

-- Ids are unique and below the next one, and the count is right.
pub record Table (c : Control) : Type 0 where
  pub unique : (id : ℕ) → copies id c.devices ≤ 1
  pub fresh : (id : ℕ) → c.next_id ≤ id → copies id c.devices ≡ 0
  pub counted : c.num_devices ≡ length c.devices
  pub within : c.num_devices ≤ c.max_devices
  pub small : c.max_devices < 2 ^ 32

-- A file description is attached to a device exactly if the device is attached to it.
pub record IsValid (c : Control) : Type 0 where
  pub table : Table c
  pub open table use *
  pub owner :
      (k : ℕ)
      → (c.fds k).attached ≡ true
      → (w : DeviceWrapper) × (find_device (c.fds k).device_wrapper c.devices ≡ some w)
        × (w.fd ≡ some k)
  pub owned :
      (id k : ℕ) (w : DeviceWrapper)
      → find_device id c.devices ≡ some w
      → w.fd ≡ some k
      → ((c.fds k).attached ≡ true) × ((c.fds k).device_wrapper ≡ id)
  pub signalled_late :
      (id : ℕ) (w : DeviceWrapper)
      → find_device id c.devices ≡ some w
      → w.on_detach ≡ OnDetach.signalled
      → w.fd ≡ none
