-- ===== src/Cmdbdus/Numbers.antt =====
-- `parse_dev_id` of cmdbdus/bdus.c, with the functions of the C library that it calls, in the C locale.
-- A string is the list of its bytes, without the one that ends it.
use bdus.Base.{
  ℕ, zero, suc, ◌+◌, ◌-◌, ◌*◌, ◌/◌, ◌%◌, ◌^◌, ◌==◌, leb, ltb, if◌then◌else◌, Bool, true, false,
  ◌&&◌, ◌||◌, not, List, [], ◌∷◌, Option, none, some,
}
use Prim.Native.Char.{code}
use Prim.Native.String.{String}

abbrev pub codes : String → List ℕ
codes String.[] = []
codes (String.◌∷◌ c s) = code c ∷ codes s

unfoldable pub is_space : ℕ → Bool
is_space c = c == 32 || (leb 9 c && leb c 13)

unfoldable pub is_digit : ℕ → Bool
is_digit c = leb b'0' c && leb c b'9'

unfoldable pub skip_spaces : List ℕ → List ℕ
skip_spaces [] = []
skip_spaces (c ∷ s) = if is_space c then skip_spaces s else c ∷ s

-- The number that the digits at the front write after `value`, and what follows them.
unfoldable pub digits : ℕ → List ℕ → ℕ × List ℕ
digits value [] = (value, [])
digits value (c ∷ s) =
    let more = digits (value * 10 + (c - b'0')) s in if is_digit c then more else (value, c ∷ s)

-- What follows the sign, if there is one, and whether it is a minus.
unfoldable pub sign : List ℕ → Bool × List ℕ
sign [] = (false, [])
sign (c ∷ s) = if c == b'-' then (true, s) else if c == b'+' then (false, s) else (false, c ∷ s)

unfoldable pub starts_digit : List ℕ → Bool
starts_digit [] = false
starts_digit (c ∷ s) = is_digit c

abbrev pub ullong_max : ℕ
ullong_max = 2 ^ 64 - 1

-- `strtoull(str, &str_end, 10)`: the number and `str_end`. Without digits nothing is consumed.
unfoldable pub strtoull : List ℕ → ℕ × List ℕ
unfolding skip_spaces sign starts_digit
strtoull str =
    let (minus, rest) = sign (skip_spaces str) in
    let (value, str_end) = digits 0 rest in
    if not (starts_digit rest)
    then (0, str)
    else if ltb ullong_max value
    then (ullong_max, str_end)
    else if minus
    then ((2 ^ 64 - value) % 2 ^ 64, str_end)
    else (value, str_end)

abbrev pub is_empty : List ℕ → Bool
is_empty [] = true
is_empty (c ∷ s) = false

unfoldable pub parse_dev_id : List ℕ → Option ℕ
unfolding strtoull
parse_dev_id [] = none
parse_dev_id (c ∷ s) =
    let (value, str_end) = strtoull (c ∷ s) in
    if c == b'+' || c == b'-' || is_space c
    then none
    else if value == ullong_max
    then none
    else if not (is_empty str_end)
    then none
    else some value

-- How `printf` writes a number of at most `width` digits before `rest`.
unfoldable pub print_digits : ℕ → ℕ → List ℕ → List ℕ
print_digits zero n rest = rest
print_digits (suc width) n rest =
    let more = print_digits width (n / 10) ((b'0' + n % 10) ∷ rest) in
    if ltb n 10 then (b'0' + n) ∷ rest else more

-- `PRIu64`
unfoldable pub print_number : ℕ → List ℕ
unfolding print_digits
print_number n = print_digits 20 n []
