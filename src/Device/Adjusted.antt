-- ===== src/Device/Adjusted.antt =====
-- What `kbdus_device_validate_and_adjust_config` (kbdus/src/device.c) guarantees of the
-- configuration that it returns.
use Prim.Native.Nat.{min}
use native.Mathlib.Nat.{mod_self}
use bdus.Base.{
  ℕ, ◌%◌, ◌≤◌, ◌<◌, ◌≡◌, refl, ◌==◌, leb, Bool, true, false, not, ◌&&◌, ◌||◌, inl, inr, sym, subst,
  arith, Bool-cases,
}
use bdus.Base.Errno.{einval, Result, ok, err}
use bdus.Device.Config.{DeviceConfig}
use bdus.Device.Validate.{
  is_power_of_two, validate_config, adjust_config, adjusted_size, adjusted_max_read_write_size,
  supports_nothing, validate_and_adjust_config, hard_max_read_write_size, u32_max, min_not_zero,
}
use bdus.Device.Bounds.{divides, round_down-mod, round_down-ge}

-- A size that is 0 where the operation is not supported, and else a multiple of the logical block
-- size within bounds.
abbrev pub SizeWithin : Bool → ℕ → ℕ → ℕ → ℕ → Type 0
SizeWithin supported size least most block =
    (supported ≡ false → size ≡ 0)
    × (supported ≡ true → (least ≤ size) × (size ≤ most) × (size % block ≡ 0))

pub record IsAdjusted (page_size : ℕ) (c : DeviceConfig) : Type 0 where
  pub logical : (512 ≤ c.logical_block_size) × (c.logical_block_size ≤ page_size)
  pub physical :
      (c.logical_block_size ≤ c.physical_block_size) × (c.physical_block_size ≤ page_size)
  pub read_write :
      SizeWithin
        (c.supports_read || c.supports_write || c.supports_fua_write)
        c.max_read_write_size
        page_size
        hard_max_read_write_size
        c.logical_block_size
  pub write_same :
      SizeWithin c.supports_write_same c.max_write_same_size c.logical_block_size u32_max
        c.logical_block_size
  pub write_zeros :
      SizeWithin c.supports_write_zeros c.max_write_zeros_size c.logical_block_size u32_max
        c.logical_block_size
  pub discard_erase :
      SizeWithin
        (c.supports_discard || c.supports_secure_erase)
        c.max_discard_erase_size
        c.logical_block_size
        u32_max
        c.logical_block_size
  pub idle : supports_nothing c ≡ true → c.max_outstanding_reqs ≡ 1
  pub outstanding : (1 ≤ c.max_outstanding_reqs) × (c.max_outstanding_reqs ≤ 256)

-- A page size that Linux has.
pub record IsPageSize (page_size : ℕ) : Type 0 where
  pub power : is_power_of_two page_size ≡ true
  pub at_least : 4096 ≤ page_size
  pub at_most : page_size ≤ 65536

adjusted_size_within :
    (supported : Bool) (size block : ℕ)
    → 512 ≤ block
    → block ≤ 65536
    → ((size == 0) || leb block size) ≡ true
    → SizeWithin supported (adjusted_size supported size block) block u32_max block
unfolding adjusted_size
adjusted_size_within supported size block lo hi valid =
    let m = min_not_zero size u32_max in
    ground (
      arith,
      round_down-mod m block (omega arith),
      round_down-ge m block block (omega arith) (mod_self block),
    )

-- The conjuncts of the validation that the adjustment relies on.
pub record Checked (page_size : ℕ) (c : DeviceConfig) : Type 0 where
  pub logical_power : is_power_of_two c.logical_block_size ≡ true
  pub logical_in : (512 ≤ c.logical_block_size) × (c.logical_block_size ≤ page_size)
  pub physical_ok :
      ((c.physical_block_size == 0)
        || (is_power_of_two c.physical_block_size
            && leb c.logical_block_size c.physical_block_size
            && leb c.physical_block_size page_size))
      ≡ true
  pub read_write_ok : ((c.max_read_write_size == 0) || leb page_size c.max_read_write_size) ≡ true
  pub write_same_ok :
      ((c.max_write_same_size == 0) || leb c.logical_block_size c.max_write_same_size) ≡ true
  pub write_zeros_ok :
      ((c.max_write_zeros_size == 0) || leb c.logical_block_size c.max_write_zeros_size) ≡ true
  pub discard_erase_ok :
      ((c.max_discard_erase_size == 0) || leb c.logical_block_size c.max_discard_erase_size) ≡ true
  pub outstanding_ok : 0 < c.max_outstanding_reqs

pub checked :
    (page_size : ℕ) (c : DeviceConfig) → validate_config page_size c ≡ true → Checked page_size c
unfolding validate_config
checked page_size c h = ground arith

read_write_within :
    (page_size : ℕ) (c : DeviceConfig)
    → IsPageSize page_size
    → Checked page_size c
    → SizeWithin
        (c.supports_read || c.supports_write || c.supports_fua_write)
        (adjusted_max_read_write_size page_size c)
        page_size
        hard_max_read_write_size
        c.logical_block_size
unfolding adjusted_max_read_write_size
read_write_within page_size c p k =
    let block = c.logical_block_size in
    let m = min c.max_read_write_size hard_max_read_write_size in
    let (d, d', d'') =
      divides block page_size k.logical_power p.power k.logical_in.0 k.logical_in.1 p.at_most in
    ground (
      arith,
      p.at_least,
      p.at_most,
      k.logical_in,
      k.read_write_ok,
      d,
      d',
      d'',
      round_down-mod m block (omega (arith, k.logical_in.0)),
      round_down-ge m block page_size (omega (arith, k.logical_in.0)) d,
    )

supports_nothing_same :
    (page_size : ℕ) (c : DeviceConfig)
    → supports_nothing (adjust_config page_size c) ≡ supports_nothing c
unfolding adjust_config supports_nothing
supports_nothing_same page_size c = refl

pub adjust_config-IsAdjusted :
    (page_size : ℕ) (c : DeviceConfig)
    → IsPageSize page_size
    → Checked page_size c
    → IsAdjusted page_size (adjust_config page_size c)
unfolding adjust_config
adjust_config-IsAdjusted page_size c p k = record {
  logical = k.logical_in;
  physical = ground (arith, k.logical_in, k.physical_ok);
  read_write = read_write_within page_size c p k;
  write_same =
      adjusted_size_within c.supports_write_same c.max_write_same_size c.logical_block_size
        k.logical_in.0 (omega (arith, k.logical_in.1, p.at_most)) k.write_same_ok;
  write_zeros =
      adjusted_size_within c.supports_write_zeros c.max_write_zeros_size c.logical_block_size
        k.logical_in.0 (omega (arith, k.logical_in.1, p.at_most)) k.write_zeros_ok;
  discard_erase =
      adjusted_size_within (c.supports_discard || c.supports_secure_erase) c.max_discard_erase_size
        c.logical_block_size k.logical_in.0 (omega (arith, k.logical_in.1, p.at_most))
        k.discard_erase_ok;
  idle = idle_one;
  outstanding = ground (arith, k.outstanding_ok);
}
  where
    idle_one :
        supports_nothing (adjust_config page_size c) ≡ true
        → (adjust_config page_size c).max_outstanding_reqs ≡ 1
    idle_one h = ground (arith, supports_nothing_same page_size c)

-- The size of the device is made of whole blocks, and it can be flushed if it does FUA writes.
pub record IsSound (c : DeviceConfig) : Type 0 where
  pub sized : (1 ≤ c.size) × (c.size % c.physical_block_size ≡ 0)
  pub flushed : (not c.supports_fua_write || c.supports_flush) ≡ true

adjust_config-IsSound :
    (page_size : ℕ) (c : DeviceConfig)
    → validate_config page_size c ≡ true
    → IsSound (adjust_config page_size c)
unfolding adjust_config validate_config
adjust_config-IsSound page_size c h = record { sized = ground arith; flushed = ground arith }

-- What the driver answers to a configuration.
abbrev pub Outcome : ℕ → DeviceConfig → Result DeviceConfig → Type 0
Outcome page_size c (ok c') =
    (validate_config page_size c ≡ true) × IsAdjusted page_size c' × IsSound c'
Outcome page_size c (err e) = (validate_config page_size c ≡ false) × (e ≡ einval)

-- For any page size of Linux: a configuration that is valid comes back adjusted, within all its bounds
-- (block sizes that fit the page, each size 0 if its operation is not supported and else a multiple of
-- the logical block size within its limits, 1 to 256 outstanding requests), with a size of whole
-- physical blocks and with flushes if it has FUA writes; any other is refused with
-- -EINVAL.
pub validate_and_adjust_config_lem :
    (page_size : ℕ) (c : DeviceConfig)
    → IsPageSize page_size
    → Outcome page_size c (validate_and_adjust_config page_size c)
unfolding validate_and_adjust_config
validate_and_adjust_config_lem page_size c p = elim (Bool-cases (validate_config page_size c)) [
  | inl good ↦
      let same : validate_and_adjust_config page_size c ≡ ok (adjust_config page_size c) =
        ground arith in
      subst (Outcome page_size c) (sym same) (
        good,
        adjust_config-IsAdjusted page_size c p (checked page_size c good),
        adjust_config-IsSound page_size c good,
      )
  | inr bad ↦
      let same : validate_and_adjust_config page_size c ≡ err einval = ground arith in
      subst (Outcome page_size c) (sym same) (bad, refl)
]
