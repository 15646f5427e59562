-- ===== src/Control/Create.antt =====
-- KBDUS_IOCTL_CREATE_DEVICE (kbdus/src/control.c).
use bdus.Base.{
  ℕ, ◌+◌, ◌*◌, ◌%◌, ◌^◌, ◌==◌, if◌then◌else◌, Bool, true, false, not, [], ◌∷◌, ◌++◌, Option, none,
  some,
}
use bdus.Base.Int.{ℤ, pos}
use bdus.Base.Errno.{eperm, efault, einval, enomem, enospc, erestartsys, Result, ok, err}
use bdus.Device.Config.{DeviceConfig}
use bdus.Device.Validate.{validate_and_adjust_config}
use bdus.Device.Life.{Device, DeviceResources, device_create}
use bdus.Inverter.State.{BlockLayer}
use bdus.Control.State.{OnDetach, DeviceWrapper, Control, id_of, set_fd}

-- What the caller and the kernel bring to the call. `index` is what `idr_alloc_cyclic` returns.
pub record CreateInput : Type 0 where
  pub capable : Bool
  pub config : Option DeviceConfig
  pub fd_config_ok : Result (Unit {0})
  pub interrupted : Bool
  pub index : Result ℕ
  pub major : ℕ
  pub copied_out : Bool
  pub wrapper_allocated : Bool
  pub resources : DeviceResources
  pub blk : BlockLayer
  pub transceiver : Result (Unit {0})

abbrev pub disk_max_parts : ℕ
disk_max_parts = 256

abbrev pub numbered : DeviceConfig → ℕ → ℕ → ℕ → DeviceConfig
numbered config id major index = record config {
  id = id;
  major = major;
  minor = index * disk_max_parts;
}

-- The state in the end, with the device in the table and the file description attached to it.
unfoldable pub add_device : Control → ℕ → ℕ → Device → Control
add_device c k index device =
    let w : DeviceWrapper = record {
      index = index;
      device = device;
      fd = some k;
      on_detach = OnDetach.nobody;
    } in
    set_fd k (record (c.fds k) { attached = true; device_wrapper = id_of w })
      (record c {
        next_id = (c.next_id + 1) % 2 ^ 64;
        num_devices = (c.num_devices + 1) % 2 ^ 32;
        devices = c.devices ++ w ∷ [];
      })

-- A creation in progress: the state, the index that is reserved, and the wrapper and the device that
-- are made and not yet in the table.
pub record Creation : Type 0 where
  pub control : Control
  pub index : Option ℕ
  pub wrapper : Bool
  pub device : Option Device

abbrev pub begun : Control → Creation
begun c = record { control = c; index = none; wrapper = false; device = none }

-- The labels of `__kbdus_control_ioctl_create_device_`, each falling through to the next.
unfoldable pub out_remove_idr : Creation → Creation
out_remove_idr m = record m { index = none }

unfoldable pub out_free_device_wrapper : Creation → Creation
unfolding out_remove_idr
out_free_device_wrapper m = out_remove_idr (record m { wrapper = false })

unfoldable pub out_destroy_device : Creation → Creation
unfolding out_free_device_wrapper
out_destroy_device m = out_free_device_wrapper (record m { device = none })

-- `idr_replace` puts the wrapper, with its device, at the reserved index.
abbrev pub hand_over : Creation → ℕ → ℕ → Device → Creation
hand_over m k index device = record m {
  control = add_device m.control k index device;
  index = none;
  wrapper = false;
  device = none;
}

-- With the mutex held.
unfoldable pub create_locked : Control → ℕ → DeviceConfig → CreateInput → ℤ × Creation
unfolding out_remove_idr out_free_device_wrapper out_destroy_device
create_locked c k config input =
    if (c.fds k).attached
    then (einval, begun c)
    else if c.num_devices == c.max_devices
    then (enospc, begun c)
    else elim input.index [
      | err e ↦ (e, begun c)
      | ok index ↦
          let reserved : Creation = record (begun c) { index = some index } in
          let allocated : Creation = record reserved { wrapper = true } in
          if not input.copied_out
          then (efault, out_remove_idr reserved)
          else if not input.wrapper_allocated
          then (enomem, out_remove_idr reserved)
          else elim (device_create (numbered config c.next_id input.major index) input.resources
              input.blk) [
                | err e ↦ (e, out_free_device_wrapper allocated)
                | ok device ↦
                    let made : Creation = record allocated { device = some device } in
                    elim input.transceiver [
                      | err e ↦ (e, out_destroy_device made)
                      | ok _ ↦ (pos 0, hand_over made k index device)
                    ]
              ]
    ]

unfoldable pub ioctl_create : ℕ → Control → ℕ → CreateInput → ℤ × Creation
unfolding create_locked
ioctl_create page_size c k input =
    if not input.capable then (eperm, begun c) else elim input.config [
      | none ↦ (efault, begun c)
      | some raw ↦ elim (validate_and_adjust_config page_size raw) [
        | err e ↦ (e, begun c)
        | ok config ↦ elim input.fd_config_ok [
          | err e ↦ (e, begun c)
          | ok _ ↦
              if input.interrupted then (erestartsys, begun c) else create_locked c k config input
        ]
      ]
    ]

-- The state in the end.
unfoldable pub ioctl_create_device : ℕ → Control → ℕ → CreateInput → ℤ × Control
unfolding ioctl_create
ioctl_create_device page_size c k input =
    let (ret, end) = ioctl_create page_size c k input in (ret, end.control)
