-- ===== src/Libbdus/Rerun.antt =====
-- The checks that `bdus_rerun()` makes of the driver that takes a device over (libbdus/src/bdus.c),
-- with the error that they leave in `errno` and the error message.
use bdus.Base.{◌==◌, ltb, if◌then◌else◌, Bool, true, false, not, ◌&&◌, Option, some}
use bdus.Device.Config.{DeviceConfig}
use bdus.Libbdus.Driver.{Ops, Attrs}
use bdus.Libbdus.Attrs.{is_set}

-- The message of an error, all with EINVAL.
pub data Complaint : Type 0 where
  fua_write_without_flush : Complaint
  lacks_read lacks_write lacks_write_same lacks_write_zeros lacks_fua_write : Complaint
  lacks_flush unsupported_flush lacks_discard lacks_secure_erase lacks_ioctl : Complaint
  logical_block_size physical_block_size size max_read_write_size : Complaint
  max_write_same_size max_write_zeros_size max_discard_erase_size recoverable : Complaint

-- `bdus_set_error_` under a test that does not return: a later error replaces an earlier one.
abbrev pub complain : Bool → Complaint → Option Complaint → Option Complaint
complain test c last = if test then some c else last

abbrev pub same_bool : Bool → Bool → Bool
same_bool true b = b
same_bool false b = not b

module _ {S : Type 0} where
  -- The errors that the ten tests after the first set, none of which returns.
  unfoldable pub lacking_ops : Ops S → DeviceConfig → Option Complaint → Option Complaint
  lacking_ops ops device last =
      let read = complain (device.supports_read && not (is_set ops.read)) lacks_read last in
      let write = complain (device.supports_write && not (is_set ops.write)) lacks_write read in
      let same =
        complain (device.supports_write_same && not (is_set ops.write_same)) lacks_write_same
          write in
      let zeros =
        complain (device.supports_write_zeros && not (is_set ops.write_zeros)) lacks_write_zeros
          same in
      let fua =
        complain (device.supports_fua_write && not (is_set ops.fua_write)) lacks_fua_write zeros in
      let flush = complain (device.supports_flush && not (is_set ops.flush)) lacks_flush fua in
      let extra =
        complain (not device.supports_flush && is_set ops.flush) unsupported_flush flush in
      let discard =
        complain (device.supports_discard && not (is_set ops.discard)) lacks_discard extra in
      let erase =
        complain (device.supports_secure_erase && not (is_set ops.secure_erase)) lacks_secure_erase
          discard in
      complain (device.supports_ioctl && not (is_set ops.ioctl)) lacks_ioctl erase

  unfoldable pub validate_ops_rerun :
      Ops S → DeviceConfig → Option Complaint → Bool × Option Complaint
  unfolding lacking_ops
  validate_ops_rerun ops device last =
      if is_set ops.fua_write && not (is_set ops.flush)
      then (false, some fua_write_without_flush)
      else (true, lacking_ops ops device last)

-- The last test sets its error and does not return either.
unfoldable pub validate_attrs_rerun :
    Attrs → DeviceConfig → Option Complaint → Bool × Option Complaint
validate_attrs_rerun attrs device last =
    if not (attrs.logical_block_size == 0)
      && not (attrs.logical_block_size == device.logical_block_size)
    then (false, some logical_block_size)
    else if not (attrs.physical_block_size == 0)
        && not (attrs.physical_block_size == device.physical_block_size)
    then (false, some physical_block_size)
    else if not (attrs.size == 0) && not (attrs.size == device.size)
    then (false, some size)
    else if not (attrs.max_read_write_size == 0)
        && ltb attrs.max_read_write_size device.max_read_write_size
    then (false, some max_read_write_size)
    else if not (attrs.max_write_same_size == 0)
        && ltb attrs.max_write_same_size device.max_write_same_size
    then (false, some max_write_same_size)
    else if not (attrs.max_write_zeros_size == 0)
        && ltb attrs.max_write_zeros_size device.max_write_zeros_size
    then (false, some max_write_zeros_size)
    else if not (attrs.max_discard_erase_size == 0)
        && ltb attrs.max_discard_erase_size device.max_discard_erase_size
    then (false, some max_discard_erase_size)
    else (true, complain (not (same_bool attrs.recoverable device.recoverable)) recoverable last)
