-- ===== src/Device/Life.antt =====
-- The state of a device and its operations in kbdus/src/device.c. What the file sets up in the
-- kernel (disk, queue, thread) enters as whether it succeeds.
use bdus.Base.{ℕ, ◌+◌, if◌then◌else◌, Bool, true, false, not}
use bdus.Base.Errno.{enomem, Result, ok, err}
use bdus.Device.Config.{DeviceConfig}
use bdus.Inverter.State.{Inverter, BlockLayer}
use bdus.Inverter.Lifecycle.{
  create, terminate, deactivate, activate, submit_device_available_notification,
}

-- `enum kbdus_device_state`
pub data DeviceState : Type 0 where
  unavailable active inactive terminated : DeviceState

abbrev pub same_device_state : DeviceState → DeviceState → Bool
same_device_state DeviceState.unavailable DeviceState.unavailable = true
same_device_state DeviceState.active DeviceState.active = true
same_device_state DeviceState.inactive DeviceState.inactive = true
same_device_state DeviceState.terminated DeviceState.terminated = true
same_device_state _ _ = false

-- `warnings` counts the WARN_ONs of this file on the old state that have fired.
pub record Device : Type 0 where
  pub config : DeviceConfig
  pub state : DeviceState
  pub inverter : Inverter
  pub warnings : ℕ

-- What the kernel does for the creation of a device: allocations, the thread, the disk.
pub record DeviceResources : Type 0 where
  pub device_allocated : Bool
  pub inverter_allocated : Bool
  pub reqs_allocated : Bool
  pub add_disk_task : Result (Unit {0})
  pub disk : Result (Unit {0})

abbrev pub >>=-result {ℓ κ} : {A : Type ℓ} {B : Type κ} → Result A → (A → Result B) → Result B
>>=-result (ok a) f = f a
>>=-result (err e) f = err e

-- On failure what was made is taken down again.
unfoldable pub device_create : DeviceConfig → DeviceResources → BlockLayer → Result Device
device_create config res blk =
    if not res.device_allocated
    then err enomem
    else >>=-result (create config res.inverter_allocated res.reqs_allocated blk) λ inverter.
      >>=-result res.add_disk_task λ _. >>=-result res.disk λ _. ok (record {
        config = config;
        state = DeviceState.unavailable;
        inverter = inverter;
        warnings = 0;
      })

unfoldable pub device_terminate : Device → Device
device_terminate d = record d { state = DeviceState.terminated; inverter = terminate d.inverter }

unfoldable pub device_deactivate : Device → Bool → Device
device_deactivate d flush = record d {
  state = DeviceState.inactive;
  inverter = deactivate d.inverter flush;
  warnings = if same_device_state d.state DeviceState.active then d.warnings else d.warnings + 1;
}

unfoldable pub device_activate : Device → Device
device_activate d = record d {
  state = DeviceState.active;
  inverter = submit_device_available_notification (activate d.inverter);
  warnings = if same_device_state d.state DeviceState.inactive then d.warnings else d.warnings + 1;
}

-- The thread that adds the disk, for Linux 5.15 and later; the flag says whether `add_disk` succeeds.
-- `atomic_cmpxchg` writes only over "unavailable".
unfoldable pub add_disk : Device → Bool → Device
add_disk d added = if not added then device_terminate d else record d {
  inverter = submit_device_available_notification d.inverter;
  state = if same_device_state d.state DeviceState.unavailable then DeviceState.active else d.state;
}
