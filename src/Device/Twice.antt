-- ===== src/Device/Twice.antt =====
-- A configuration that was adjusted (kbdus/src/device.c) is adjusted and validated once more.
use Prim.Native.Nat.{min, max}
use bdus.Base.{ℕ, ◌≤◌, ◌≡◌, ◌==◌, leb, Bool, true, not, ◌&&◌, ◌||◌, arith, if◌then◌else◌, and_intro}
use bdus.Device.Config.{DeviceConfig}
use bdus.Device.Validate.{
  array_is_zero_filled, is_positive_multiple_of, is_power_of_two, validate_config, adjust_config,
  adjusted_size, adjusted_max_read_write_size, supports_nothing, hard_max_read_write_size, u32_max,
}
use bdus.Device.Adjusted.{
  SizeWithin, IsAdjusted, IsPageSize, Checked, checked, adjust_config-IsAdjusted,
}

adjusted_size_fixed :
    (supported : Bool) (size block : ℕ)
    → 512 ≤ block
    → SizeWithin supported size block u32_max block
    → adjusted_size supported size block ≡ size
unfolding adjusted_size
adjusted_size_fixed supported size block lo h = ground (arith, h)

read_write_fixed :
    (page_size : ℕ) (c : DeviceConfig)
    → 4096 ≤ page_size
    → SizeWithin
        (c.supports_read || c.supports_write || c.supports_fua_write)
        c.max_read_write_size
        page_size
        hard_max_read_write_size
        c.logical_block_size
    → adjusted_max_read_write_size page_size c ≡ c.max_read_write_size
unfolding adjusted_max_read_write_size
read_write_fixed page_size c lo h = ground (arith, h)

fixed :
    (page_size : ℕ) (c : DeviceConfig)
    → 4096 ≤ page_size
    → IsAdjusted page_size c
    → adjust_config page_size c ≡ c
unfolding adjust_config
fixed page_size c lo a = λ i. record c {
  physical_block_size = physical i;
  max_read_write_size = read_write_fixed page_size c lo a.read_write i;
  max_write_same_size =
      adjusted_size_fixed c.supports_write_same c.max_write_same_size c.logical_block_size
        a.logical.0 a.write_same i;
  max_write_zeros_size =
      adjusted_size_fixed c.supports_write_zeros c.max_write_zeros_size c.logical_block_size
        a.logical.0 a.write_zeros i;
  max_discard_erase_size =
      adjusted_size_fixed (c.supports_discard || c.supports_secure_erase) c.max_discard_erase_size
        c.logical_block_size a.logical.0 a.discard_erase i;
  max_outstanding_reqs = outstanding i;
}
  where
    physical :
        (if c.physical_block_size == 0 then c.logical_block_size else c.physical_block_size)
        ≡ c.physical_block_size
    physical = ground (arith, a.logical, a.physical)

    outstanding :
        (if supports_nothing c then 1 else min c.max_outstanding_reqs 256) ≡ c.max_outstanding_reqs
    outstanding = ground (arith, a.idle, a.outstanding)

-- For a valid configuration and a page size of Linux, adjusting twice is adjusting once.
pub adjust_config-adjust_config :
    (page_size : ℕ) (c : DeviceConfig)
    → IsPageSize page_size
    → validate_config page_size c ≡ true
    → adjust_config page_size (adjust_config page_size c) ≡ adjust_config page_size c
adjust_config-adjust_config page_size c p good =
    fixed page_size (adjust_config page_size c) p.at_least
      (adjust_config-IsAdjusted page_size c p (checked page_size c good))

-- The conjuncts of the validation that the adjustment keeps as they are.
record Kept (c : DeviceConfig) : Type 0 where
  reserved_1_zero : array_is_zero_filled c.reserved_1 ≡ true
  reserved_2_zero : array_is_zero_filled c.reserved_2 ≡ true
  fua_flushes : (not c.supports_fua_write || c.supports_flush) ≡ true
  whole_blocks :
      is_positive_multiple_of c.size (max c.physical_block_size c.logical_block_size) ≡ true

kept : (page_size : ℕ) (c : DeviceConfig) → validate_config page_size c ≡ true → Kept c
unfolding validate_config
kept page_size c h = ground arith

revalidated :
    (page_size : ℕ) (c : DeviceConfig)
    → Kept c
    → Checked page_size c
    → validate_config page_size c ≡ true
unfolding validate_config
revalidated page_size c k h =
    and_intro _ _
      (and_intro _ _
        (and_intro _ _
          (and_intro _ _
            (and_intro _ _
              (and_intro _ _
                (and_intro _ _
                  (and_intro _ _
                    (and_intro _ _ (and_intro _ _ k.reserved_1_zero k.reserved_2_zero)
                      k.fua_flushes)
                    logical)
                  h.physical_ok)
                k.whole_blocks)
              h.read_write_ok)
            h.write_same_ok)
          h.write_zeros_ok)
        h.discard_erase_ok)
      (ground (arith, h.outstanding_ok))
  where
    logical :
        (is_power_of_two c.logical_block_size
          && leb 512 c.logical_block_size
          && leb c.logical_block_size page_size)
        ≡ true
    logical = ground (arith, h.logical_power, h.logical_in)

within_ok :
    (supported : Bool) (size least most block : ℕ)
    → SizeWithin supported size least most block
    → ((size == 0) || leb least size) ≡ true
within_ok supported size least most block h = ground arith

module _ (page_size : ℕ) (c : DeviceConfig) where
  Kept-adjust_config : Kept c → Checked page_size c → Kept (adjust_config page_size c)
  unfolding adjust_config
  Kept-adjust_config k h = record {
    reserved_1_zero = k.reserved_1_zero;
    reserved_2_zero = k.reserved_2_zero;
    fua_flushes = k.fua_flushes;
    whole_blocks = ground (arith, k.whole_blocks, h.logical_in, h.physical_ok);
  }

  logical_power-adjust_config :
      Checked page_size c → is_power_of_two (adjust_config page_size c).logical_block_size ≡ true
  unfolding adjust_config
  logical_power-adjust_config h = h.logical_power

  physical_ok-adjust_config :
      Checked page_size c
      → let d = adjust_config page_size c in
        ((d.physical_block_size == 0)
          || (is_power_of_two d.physical_block_size
              && leb d.logical_block_size d.physical_block_size
              && leb d.physical_block_size page_size))
        ≡ true
  unfolding adjust_config
  physical_ok-adjust_config h = ground (arith, h.logical_in, h.logical_power, h.physical_ok)

-- A valid configuration that was adjusted, for a page size of Linux, passes the validation again.
pub validate_config-adjust_config :
    (page_size : ℕ) (c : DeviceConfig)
    → IsPageSize page_size
    → validate_config page_size c ≡ true
    → validate_config page_size (adjust_config page_size c) ≡ true
validate_config-adjust_config page_size c p good =
    let k = checked page_size c good in
    let a = adjust_config-IsAdjusted page_size c p k in
    let s = kept page_size c good in
    revalidated page_size (adjust_config page_size c) (Kept-adjust_config page_size c s k) (record {
      logical_power = logical_power-adjust_config page_size c k;
      logical_in = a.logical;
      physical_ok = physical_ok-adjust_config page_size c k;
      read_write_ok = within_ok _ _ _ _ _ a.read_write;
      write_same_ok = within_ok _ _ _ _ _ a.write_same;
      write_zeros_ok = within_ok _ _ _ _ _ a.write_zeros;
      discard_erase_ok = within_ok _ _ _ _ _ a.discard_erase;
      outstanding_ok = a.outstanding.0;
    })
