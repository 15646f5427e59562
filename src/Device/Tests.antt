-- ===== src/Device/Tests.antt =====
-- The code of kbdus/src/device.c on small inputs.
use bdus.Base.{ℕ, ◌+◌, ◌*◌, ◌^◌, ◌≤◌, [], some, false, ◌≡◌, refl, true, length, arith}
use bdus.Base.Int.{pos}
use bdus.Device.Queue.{Disk, create_disk, create_disk_fits}
use bdus.Device.Ioctl.{IoctlAnswers, zeros, device_ioctl, ioctl_create_buffer, ioctl_await}
use bdus.Device.Commands.{device_ioctl-Fits, Fits}
use bdus.Transceiver.Layout.{max_request_size}
use bdus.Transceiver.Copies.{ioc_reads, ioc_writes, ioc_size}
use bdus.Base.Errno.{ok}
use bdus.Device.Validate.{adjust_config, validate_and_adjust_config}
use bdus.Device.Adjusted.{
  Outcome, checked, adjust_config-IsAdjusted, validate_and_adjust_config_lem,
}
use bdus.Inverter.State.{Inverter}
use bdus.Inverter.Lifecycle.{create}
use bdus.Inverter.Valid.{IsValid}
use bdus.Device.Life.{Device, DeviceState, add_disk, device_activate, device_deactivate}
use bdus.Device.Agreement.{Agrees, Change, Life, Life-Agrees}
use bdus.Inverter.Samples.{two, two-IsValid}
use bdus.Inverter.Operations.Create.{create_lem}
use bdus.Device.Samples.{plain, page, plain-valid, no_requests}

validate_and_adjust_config_lem_example : Outcome 4096 plain (validate_and_adjust_config 4096 plain)
validate_and_adjust_config_lem_example = validate_and_adjust_config_lem 4096 plain page

create_lem_example :
    (inv : Inverter) × (create plain true true no_requests ≡ ok inv)
    × IsValid inv
    × (length inv.reqs_free ≡ 2)
create_lem_example = create_lem plain no_requests (omega arith) (λ r. refl)

-- A device on an inverter with two free wrappers.
abbrev a_device : Device
a_device = record { config = plain; state = DeviceState.unavailable; inverter = two; warnings = 0 }

a_device-Agrees : Agrees a_device
a_device-Agrees = record { valid = two-IsValid; ended = refl; paused = refl }

becomes_active : (add_disk a_device true).state ≡ DeviceState.active
unfolding add_disk
becomes_active = refl

becomes_inactive : (device_deactivate (add_disk a_device true) false).state ≡ DeviceState.inactive
unfolding device_deactivate
becomes_inactive = refl

Life-Agrees_example :
    Agrees (device_activate (device_deactivate (add_disk a_device true) false))
    × ((device_activate (device_deactivate (add_disk a_device true) false)).warnings ≡ 0)
Life-Agrees_example = Life-Agrees a_device-Agrees (
    Life.next
      (Life.next (Life.next Life.here (Change.adds_disk true))
        (Change.deactivates false becomes_active))
      (Change.activates becomes_inactive))

create_disk_fits_example :
    (disk : Disk) × (inv : Inverter) × (create_disk 4096 (ok tt) (ok tt) (adjust_config 4096 plain)
      ≡ ok disk)
    × (create (adjust_config 4096 plain) true true no_requests ≡ ok inv)
    × (disk.queue_depth ≡ length inv.reqs_free)
    × (1 ≤ disk.queue_depth)
    × (512 * disk.limits.max_hw_sectors ≤ max_request_size (adjust_config 4096 plain))
    × (disk.limits.logical_block_size ≤ disk.limits.physical_block_size)
    × (disk.limits.physical_block_size ≤ 4096)
unfolding adjust_config
create_disk_fits_example =
    create_disk_fits 4096 (adjust_config 4096 plain) no_requests page
      (adjust_config-IsAdjusted 4096 plain page (checked 4096 plain plain-valid)) (λ r. refl) refl

-- _IOW(42, 102, uint64_t)
abbrev a_command : ℕ
a_command = 2 ^ 30 + 8 * 2 ^ 16 + 42 * 2 ^ 8 + 102

abbrev all_well : IoctlAnswers
all_well = record {
  request = ok tt;
  accessible = true;
  allocated = true;
  copied_in = true;
  copied_out = true;
  left = λ a. 0;
}

device_ioctl-Fits_example :
    (a_command ≡ a_command)
    × Fits a_command (some (zeros 8)) (max_request_size (record plain { supports_ioctl = true }))
unfolding device_ioctl ioctl_create_buffer ioctl_await ioc_reads ioc_writes ioc_size
device_ioctl-Fits_example =
    device_ioctl-Fits (record plain { supports_ioctl = true }) all_well (λ command b. (pos 0, []))
      a_command 0 (λ a. 0) a_command (some (zeros 8)) refl refl
