-- ===== src/Device/Validate.antt =====
-- `kbdus_device_validate_and_adjust_config` of kbdus/src/device.c, with the macros that it uses:
-- those of kbdus/include-private/kbdus/utilities.h and the kernel's min, max, clamp, min_not_zero
-- and round_down (to a multiple of a power of two). PAGE_SIZE is an argument.
use Prim.Native.Nat.{min, max, bit_and}
use bdus.Base.{
  ℕ, ◌-◌, ◌*◌, ◌%◌, ◌^◌, ◌==◌, ltb, leb, if◌then◌else◌, Bool, true, not, ◌&&◌, ◌||◌, List, [], ◌∷◌,
}
use bdus.Base.Errno.{einval, Result, ok, err}
use bdus.Device.Config.{DeviceConfig}

-- `x - 1` wraps at 0, where the conjunction with 0 is 0 all the same.
unfoldable pub is_power_of_two : ℕ → Bool
is_power_of_two x = (bit_and x (x - 1) == 0) && not (x == 0)

abbrev pub is_positive_multiple_of : ℕ → ℕ → Bool
is_positive_multiple_of x y = (x % y == 0) && not (x == 0)

unfoldable pub array_is_zero_filled : List ℕ → Bool
array_is_zero_filled [] = true
array_is_zero_filled (b ∷ bs) = (b == 0) && array_is_zero_filled bs

abbrev pub round_down : ℕ → ℕ → ℕ
round_down x y = x - x % y

abbrev pub clamp : ℕ → ℕ → ℕ → ℕ
clamp x lo hi = min (max x lo) hi

abbrev pub min_not_zero : ℕ → ℕ → ℕ
min_not_zero x y = if x == 0 then y else if y == 0 then x else min x y

abbrev pub u32_max : ℕ
u32_max = 2 ^ 32 - 1

abbrev pub default_max_read_write_size : ℕ
default_max_read_write_size = 256 * 1024

abbrev pub hard_max_read_write_size : ℕ
hard_max_read_write_size = 1024 * 1024

abbrev pub hard_max_outstanding_reqs : ℕ
hard_max_outstanding_reqs = 256

unfoldable pub is_read_only : DeviceConfig → Bool
is_read_only c =
    not c.supports_write
    && not c.supports_write_same
    && not c.supports_write_zeros
    && not c.supports_fua_write
    && not c.supports_discard
    && not c.supports_secure_erase

-- The values that `adjust_config` writes.
unfoldable pub adjusted_size : Bool → ℕ → ℕ → ℕ
adjusted_size supported size logical_block_size =
    if not supported then 0 else round_down (min_not_zero size u32_max) logical_block_size

unfoldable pub supports_nothing : DeviceConfig → Bool
supports_nothing c =
    not c.supports_read
    && not c.supports_write
    && not c.supports_write_same
    && not c.supports_write_zeros
    && not c.supports_fua_write
    && not c.supports_flush
    && not c.supports_discard
    && not c.supports_secure_erase
    && not c.supports_ioctl

module _ (page_size : ℕ) where
  unfoldable pub validate_config : DeviceConfig → Bool
  validate_config c =
      array_is_zero_filled c.reserved_1
      && array_is_zero_filled c.reserved_2
      && (not c.supports_fua_write || c.supports_flush)
      && (is_power_of_two c.logical_block_size
          && leb 512 c.logical_block_size
          && leb c.logical_block_size page_size)
      && ((c.physical_block_size == 0)
          || (is_power_of_two c.physical_block_size
              && leb c.logical_block_size c.physical_block_size
              && leb c.physical_block_size page_size))
      && is_positive_multiple_of c.size (max c.physical_block_size c.logical_block_size)
      && ((c.max_read_write_size == 0) || leb page_size c.max_read_write_size)
      && ((c.max_write_same_size == 0) || leb c.logical_block_size c.max_write_same_size)
      && ((c.max_write_zeros_size == 0) || leb c.logical_block_size c.max_write_zeros_size)
      && ((c.max_discard_erase_size == 0) || leb c.logical_block_size c.max_discard_erase_size)
      && ltb 0 c.max_outstanding_reqs

  unfoldable pub adjusted_max_read_write_size : DeviceConfig → ℕ
  adjusted_max_read_write_size c =
      if not c.supports_read && not c.supports_write && not c.supports_fua_write
      then 0
      else if c.max_read_write_size == 0
      then clamp default_max_read_write_size page_size
          (round_down hard_max_read_write_size c.logical_block_size)
      else round_down (min c.max_read_write_size hard_max_read_write_size) c.logical_block_size

  -- No later assignment reads a field that an earlier one wrote.
  unfoldable pub adjust_config : DeviceConfig → DeviceConfig
  adjust_config c = record c {
    physical_block_size =
        if c.physical_block_size == 0 then c.logical_block_size else c.physical_block_size;
    max_read_write_size = adjusted_max_read_write_size c;
    max_write_same_size =
        adjusted_size c.supports_write_same c.max_write_same_size c.logical_block_size;
    max_write_zeros_size =
        adjusted_size c.supports_write_zeros c.max_write_zeros_size c.logical_block_size;
    max_discard_erase_size =
        adjusted_size (c.supports_discard || c.supports_secure_erase) c.max_discard_erase_size
          c.logical_block_size;
    max_outstanding_reqs =
        if supports_nothing c then 1 else min c.max_outstanding_reqs hard_max_outstanding_reqs;
  }

  unfoldable pub validate_and_adjust_config : DeviceConfig → Result DeviceConfig
  validate_and_adjust_config c =
      if not (validate_config c) then err einval else ok (adjust_config c)
