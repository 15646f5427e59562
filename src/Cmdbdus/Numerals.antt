-- ===== src/Cmdbdus/Numerals.antt =====
-- Which arguments `parse_dev_id` of cmdbdus/bdus.c takes for the id of a device.
use bdus.Base.{
  ℕ, zero, suc, ◌+◌, ◌-◌, ◌*◌, ◌^◌, ◌<◌, ◌≡◌, refl, ap, ◌/◌, ◌%◌, inl, inr, Bool-cases, ◌∙◌, ltb,
  if◌then◌else◌, Bool, true, false, ◌&&◌, not, List, [], ◌∷◌, Option, none, some, arith,
}
use bdus.Cmdbdus.Numbers.{
  is_space, is_digit, digits, starts_digit, skip_spaces, sign, strtoull, parse_dev_id, is_empty,
  ullong_max, print_digits, print_number,
}

abbrev pub all_digits : List ℕ → Bool
all_digits [] = true
all_digits (c ∷ s) = is_digit c && all_digits s

-- The number that a string of digits writes after `value`.
abbrev pub value_of : ℕ → List ℕ → ℕ
value_of value [] = value
value_of value (c ∷ s) = value_of (value * 10 + (c - b'0')) s

-- The number that a string writes in decimal digits, if it is below ULLONG_MAX.
abbrev pub numeral : List ℕ → Option ℕ
numeral s =
    if not (is_empty s) && all_digits s && ltb (value_of 0 s) ullong_max
    then some (value_of 0 s)
    else none

digits_lem :
    (value : ℕ) (s : List ℕ)
    → (is_empty (digits value s).1 ≡ all_digits s)
      × (all_digits s ≡ true → (digits value s).0 ≡ value_of value s)
unfolding digits
digits_lem value [] = (refl, λ _. refl)
digits_lem value (c ∷ s) =
    let more = digits_lem (value * 10 + (c - b'0')) s in
    (ground (arith, more), λ h. ground (arith, more, h))

strtoull-digits :
    (c : ℕ) (s : List ℕ)
    → is_digit c ≡ true
    → strtoull (c ∷ s)
      ≡ (let v = digits 0 (c ∷ s) in if ltb ullong_max v.0 then (ullong_max, v.1) else v)
unfolding strtoull skip_spaces sign starts_digit is_space is_digit
strtoull-digits c s h = ground (arith, h)

parse_dev_id-digit :
    (c : ℕ) (s : List ℕ) → is_digit c ≡ true → parse_dev_id (c ∷ s) ≡ numeral (c ∷ s)
unfolding parse_dev_id is_space is_digit
parse_dev_id-digit c s h =
    let (ends, value) = digits_lem 0 (c ∷ s) in
    ground (arith, h, strtoull-digits c s h, ends, value)

parse_dev_id_other : (c : ℕ) (s : List ℕ) → is_digit c ≡ false → parse_dev_id (c ∷ s) ≡ none
unfolding parse_dev_id strtoull skip_spaces sign starts_digit
parse_dev_id_other c s h = ground (arith, h)

-- An argument is taken for an id exactly if it is a number in decimal digits, with no sign and no
-- space, that is below 2^64 - 1; the id is then that number.
pub parse_dev_id-numeral : (s : List ℕ) → parse_dev_id s ≡ numeral s
unfolding parse_dev_id
parse_dev_id-numeral [] = refl
parse_dev_id-numeral (c ∷ s) = elim (Bool-cases (is_digit c)) [
  | inl h ↦ parse_dev_id-digit c s h
  | inr h ↦ ground (arith, h, parse_dev_id_other c s h)
]

digit_lem : (d : ℕ) → d < 10 → is_digit (b'0' + d) ≡ true
unfolding is_digit
digit_lem d lt = ground arith

all_digits-print_digits :
    (width n : ℕ) (rest : List ℕ) → all_digits (print_digits width n rest) ≡ all_digits rest
unfolding print_digits
all_digits-print_digits zero n rest = refl
all_digits-print_digits (suc width) n rest = ground (
  arith,
  digit_lem n,
  digit_lem (n % 10),
  all_digits-print_digits width (n / 10) ((b'0' + n % 10) ∷ rest),
)

value_of-print_digits :
    (width n : ℕ) (rest : List ℕ)
    → n < 10 ^ width
    → value_of 0 (print_digits width n rest) ≡ value_of n rest
unfolding print_digits
value_of-print_digits zero n rest lt = ap (λ n. value_of n rest) (omega (arith, lt))
value_of-print_digits (suc width) n rest lt =
    let more = value_of-print_digits width (n / 10) ((b'0' + n % 10) ∷ rest) (omega (arith, lt)) in
    ground (arith, more)

is_empty-print_digits :
    (width n c : ℕ) (rest : List ℕ) → is_empty (print_digits width n (c ∷ rest)) ≡ false
unfolding print_digits
is_empty-print_digits zero n c rest = refl
is_empty-print_digits (suc width) n c rest =
    ground (arith, is_empty-print_digits width (n / 10) (b'0' + n % 10) (c ∷ rest))

not_empty : (width n : ℕ) → is_empty (print_digits (suc width) n []) ≡ false
unfolding print_digits
not_empty width n = ground (arith, is_empty-print_digits width (n / 10) (b'0' + n % 10) [])

numeral-print_digits :
    (width n : ℕ)
    → n < 10 ^ suc width
    → n < ullong_max
    → numeral (print_digits (suc width) n []) ≡ some n
numeral-print_digits width n fits lt = ground (
  arith,
  not_empty width n,
  all_digits-print_digits (suc width) n [],
  value_of-print_digits (suc width) n [] fits,
  lt,
)

-- The number of a device that is printed in decimal is read back as that number, if it is below
-- 2^64 - 1.
pub parse_dev_id-print_number :
    (id : ℕ) → id < ullong_max → parse_dev_id (print_number id) ≡ some id
unfolding print_number
parse_dev_id-print_number id lt =
    parse_dev_id-numeral (print_number id) ∙ numeral-print_digits 19 id (omega (arith, lt)) lt
