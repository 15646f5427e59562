-- ===== src/Device/Bounds.antt =====
-- What a configuration that kbdus/src/device.c accepted and adjusted guarantees.
use bdus.Base.{
  ℕ, zero, suc, ◌-◌, ◌%◌, ◌≤◌, ◌<◌, ◌≡◌, refl, ◌==◌, ltb, Bool, Bool-cases, inl, inr, true, not,
  ◌&&◌, ◌||◌, arith,
}
use bdus.Device.Validate.{is_power_of_two}

-- A test passes on every number up to a last one.
passes_up_to : (ℕ → Bool) → ℕ → Bool
passes_up_to test zero = test 0
passes_up_to test (suc last) = passes_up_to test last && test (suc last)

passes_up_to_lem :
    (test : ℕ → Bool) (last x : ℕ) → x ≤ last → passes_up_to test last ≡ true → test x ≡ true
unfolding passes_up_to
passes_up_to_lem test zero zero le h = h
passes_up_to_lem test zero (suc x) le h = elim le [ ]
passes_up_to_lem test (suc last) x le h = elim (Bool-cases (x == suc last)) [
  | inl e ↦ ground arith
  | inr e ↦ passes_up_to_lem test last x (ground arith) (ground arith)
]

-- The powers of two from 512 to 64 Ki: the block sizes on every page size that Linux has.
abbrev is_size : ℕ → Bool
is_size x =
    (x == 512)
    || (x == 1024)
    || (x == 2048)
    || (x == 4096)
    || (x == 8192)
    || (x == 16384)
    || (x == 32768)
    || (x == 65536)

abbrev listed : ℕ → Bool
listed x = not (is_power_of_two x) || ltb x 512 || is_size x

table : passes_up_to listed 65536 ≡ true
unfolding passes_up_to is_power_of_two
table = refl

small_powers : (x : ℕ) → is_power_of_two x ≡ true → 512 ≤ x → x ≤ 65536 → is_size x ≡ true
small_powers x p lo hi = ground (arith, passes_up_to_lem listed 65536 x hi table)

size_divides :
    (x y : ℕ)
    → is_size x ≡ true
    → is_size y ≡ true
    → x ≤ y
    → (y % x ≡ 0) × (262144 % x ≡ 0) × (1048576 % x ≡ 0)
size_divides x y p q le = ground arith

-- Of two page-sized powers of two the smaller divides the larger, and both divide the two limits.
pub divides :
    (x y : ℕ)
    → is_power_of_two x ≡ true
    → is_power_of_two y ≡ true
    → 512 ≤ x
    → x ≤ y
    → y ≤ 65536
    → (y % x ≡ 0) × (262144 % x ≡ 0) × (1048576 % x ≡ 0)
divides x y p q lo mid hi =
    size_divides x y (small_powers x p lo (omega arith)) (small_powers y q (omega arith) hi) mid

pub round_down-mod : (x y : ℕ) → 0 < y → (x - x % y) % y ≡ 0
round_down-mod x y h = grind arith

pub round_down-ge : (x y m : ℕ) → 0 < y → m % y ≡ 0 → m ≤ x → m ≤ x - x % y
round_down-ge x y m h d le = grind arith
