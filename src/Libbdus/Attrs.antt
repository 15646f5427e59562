-- ===== src/Libbdus/Attrs.antt =====
-- The checks that `bdus_run()` and `bdus_rerun()` make of a driver, and the configuration that
-- `bdus_run()` asks for (libbdus/src/bdus.c). The messages of errors are left out.
use Prim.Native.Nat.{max}
use bdus.Base.{
  ℕ, ◌*◌, ◌^◌, ◌%◌, ◌==◌, ltb, if◌then◌else◌, Bool, true, false, not, ◌&&◌, ◌||◌, [], Option, none,
  some,
}
use bdus.Device.Config.{DeviceConfig}
use bdus.Device.Validate.{is_power_of_two, is_positive_multiple_of}
use bdus.Transceiver.Layout.{FdConfig}
use bdus.Libbdus.Driver.{Ops, Attrs}

-- `callback != NULL`
abbrev pub is_set {ℓ} : {A : Type ℓ} → Option A → Bool
is_set none = false
is_set (some f) = true

module _ {S : Type 0} where
  unfoldable pub validate_ops_run : Ops S → Bool
  validate_ops_run ops = if is_set ops.fua_write && not (is_set ops.flush) then false else true

  -- The configuration of the device, with fields 0 that the structure does not name.
  unfoldable pub run_device_config : Ops S → Attrs → DeviceConfig
  run_device_config ops attrs = record {
    id = 0;
    size = attrs.size;
    logical_block_size = attrs.logical_block_size;
    physical_block_size = attrs.physical_block_size;
    max_read_write_size = attrs.max_read_write_size;
    max_write_same_size = attrs.max_write_same_size;
    max_write_zeros_size = attrs.max_write_zeros_size;
    max_discard_erase_size = attrs.max_discard_erase_size;
    max_outstanding_reqs = 2 * attrs.max_concurrent_callbacks % 2 ^ 32;
    major = 0;
    minor = 0;
    supports_read = is_set ops.read;
    supports_write = is_set ops.write;
    supports_write_same = is_set ops.write_same;
    supports_write_zeros = is_set ops.write_zeros;
    supports_fua_write = is_set ops.fua_write;
    supports_flush = is_set ops.flush;
    supports_discard = is_set ops.discard;
    supports_secure_erase = is_set ops.secure_erase;
    supports_ioctl = is_set ops.ioctl;
    rotational = false;
    merge_requests = true;
    enable_partition_scanning = not attrs.disable_partition_scanning;
    recoverable = attrs.recoverable;
    reserved_1 = [];
    reserved_2 = [];
  }

-- The attributes are checked in this order, each for its own error.
unfoldable pub validate_attrs_run : ℕ → Attrs → Bool
validate_attrs_run page_size attrs =
    let block = attrs.logical_block_size in
    let physical = attrs.physical_block_size in
    if page_size == 0
    then false
    else if not (is_power_of_two block) || ltb block 512 || ltb page_size block
    then false
    else if not (physical == 0)
        && (not (is_power_of_two physical) || ltb physical block || ltb page_size physical)
    then false
    else if not (is_positive_multiple_of attrs.size (max physical block))
    then false
    else if not (attrs.max_read_write_size == 0) && ltb attrs.max_read_write_size page_size
    then false
    else if not (attrs.max_write_same_size == 0) && ltb attrs.max_write_same_size block
    then false
    else if not (attrs.max_write_zeros_size == 0) && ltb attrs.max_write_zeros_size block
    then false
    else if not (attrs.max_discard_erase_size == 0) && ltb attrs.max_discard_erase_size block
    then false
    else true

-- A driver runs with at least one thread.
unfoldable pub default_concurrency : Attrs → Attrs
default_concurrency attrs = record attrs {
  max_concurrent_callbacks =
      if attrs.max_concurrent_callbacks == 0 then 1 else attrs.max_concurrent_callbacks;
}

unfoldable pub fd_config : Attrs → FdConfig
fd_config attrs = record {
  num_preallocated_buffers = attrs.max_concurrent_callbacks;
  reserved = [];
}

-- The attributes as kbdus adjusted them: of a new device, and of one that is taken over.
unfoldable pub adjust_attrs_run : DeviceConfig → FdConfig → Attrs → Attrs
adjust_attrs_run device fd attrs = record attrs {
  physical_block_size = device.physical_block_size;
  max_read_write_size = device.max_read_write_size;
  max_write_same_size = device.max_write_same_size;
  max_write_zeros_size = device.max_write_zeros_size;
  max_discard_erase_size = device.max_discard_erase_size;
  max_concurrent_callbacks = fd.num_preallocated_buffers;
}

unfoldable pub adjust_attrs_rerun : DeviceConfig → FdConfig → Attrs → Attrs
adjust_attrs_rerun device fd attrs = record (adjust_attrs_run device fd attrs) {
  logical_block_size = device.logical_block_size;
  size = device.size;
  disable_partition_scanning = not device.enable_partition_scanning;
}
