-- ===== src/Device/Samples.antt =====
-- A small configuration (kbdus/src/device.c).
use bdus.Base.{◌≡◌, refl, true, false, [], arith}
use bdus.Base.Int.{pos}
use bdus.Device.Config.{DeviceConfig}
use bdus.Device.Validate.{validate_config, is_power_of_two, array_is_zero_filled, is_read_only}
use bdus.Device.Adjusted.{IsPageSize}
use bdus.Inverter.State.{BlockLayer}

-- A device that can be read and written, with all else left to the driver.
abbrev pub plain : DeviceConfig
plain = record {
  id = 0;
  size = 8192;
  logical_block_size = 512;
  physical_block_size = 0;
  max_read_write_size = 0;
  max_write_same_size = 0;
  max_write_zeros_size = 0;
  max_discard_erase_size = 0;
  max_outstanding_reqs = 2;
  major = 0;
  minor = 0;
  supports_read = true;
  supports_write = true;
  supports_write_same = false;
  supports_write_zeros = false;
  supports_fua_write = false;
  supports_flush = false;
  supports_discard = false;
  supports_secure_erase = false;
  supports_ioctl = false;
  rotational = false;
  merge_requests = true;
  enable_partition_scanning = false;
  recoverable = false;
  reserved_1 = [];
  reserved_2 = [];
}

pub page : IsPageSize 4096
unfolding is_power_of_two
page = record { power = refl; at_least = omega arith; at_most = omega arith }

pub plain-valid : validate_config 4096 plain ≡ true
unfolding validate_config is_power_of_two array_is_zero_filled is_read_only
plain-valid = refl

abbrev pub no_requests : BlockLayer
no_requests = record {
  pdu = λ r. record { handle_seqnum = 0; handle_index = 0; error = pos 0; error_ioctl = pos 0 };
  started = [];
  completed = [];
}
