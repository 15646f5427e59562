-- ===== src/Device/Config.antt =====
-- `struct kbdus_device_config` and `struct kbdus_fd_config` of kbdus/include/kbdus.h. The two
-- reserved arrays are lists of bytes.
use bdus.Base.{ℕ, Bool, List}

pub record DeviceConfig : Type 0 where
  pub id : ℕ
  pub size : ℕ
  pub logical_block_size : ℕ
  pub physical_block_size : ℕ
  pub max_read_write_size : ℕ
  pub max_write_same_size : ℕ
  pub max_write_zeros_size : ℕ
  pub max_discard_erase_size : ℕ
  pub max_outstanding_reqs : ℕ
  pub major : ℕ
  pub minor : ℕ
  pub supports_read : Bool
  pub supports_write : Bool
  pub supports_write_same : Bool
  pub supports_write_zeros : Bool
  pub supports_fua_write : Bool
  pub supports_flush : Bool
  pub supports_discard : Bool
  pub supports_secure_erase : Bool
  pub supports_ioctl : Bool
  pub rotational : Bool
  pub merge_requests : Bool
  pub enable_partition_scanning : Bool
  pub recoverable : Bool
  pub reserved_1 : List ℕ
  pub reserved_2 : List ℕ
