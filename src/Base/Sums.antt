-- ===== src/Base/Sums.antt =====
-- The length of a list of numbers, by how often each number stands in it.
use bdus.Base.{
  ℕ, zero, suc, ◌+◌, ◌≤◌, ◌≡◌, refl, ◌==◌, ltb, if◌then◌else◌, List, [], ◌∷◌, length, count, arith,
}

unfoldable pub sum_below : ℕ → (ℕ → ℕ) → ℕ
sum_below zero f = 0
sum_below (suc n) f = f n + sum_below n f

sum_below_zero : (n : ℕ) → sum_below n (λ _. 0) ≡ 0
unfolding sum_below
sum_below_zero zero = refl
sum_below_zero (suc n) = omega (arith, sum_below_zero n)

sum_below_bump :
    (n x : ℕ) (f : ℕ → ℕ)
    → sum_below n (λ j. (if x == j then 1 else 0) + f j)
      ≡ (if ltb x n then 1 else 0) + sum_below n f
unfolding sum_below
sum_below_bump zero x f = ground arith
sum_below_bump (suc n) x f = ground (arith, sum_below_bump n x f)

pub sum_below-eq : (n : ℕ) (f g : ℕ → ℕ) → ((j : ℕ) → f j ≡ g j) → sum_below n f ≡ sum_below n g
unfolding sum_below
sum_below-eq zero f g h = refl
sum_below-eq (suc n) f g h = omega (arith, h n, sum_below-eq n f g h)

pub sum_below-le : (n : ℕ) (f : ℕ → ℕ) → ((j : ℕ) → f j ≤ 1) → sum_below n f ≤ n
unfolding sum_below
sum_below-le zero f h = omega arith
sum_below-le (suc n) f h = omega (arith, h n, sum_below-le n f h)

-- The first term instead of the last.
pub sum_below-suc : (n : ℕ) (f : ℕ → ℕ) → sum_below (suc n) f ≡ f 0 + sum_below n (λ j. f (suc j))
unfolding sum_below
sum_below-suc zero f = omega arith
sum_below-suc (suc n) f = omega (arith, sum_below-suc n f)

pub length-eq-sum_below :
    (n : ℕ) (xs : List ℕ)
    → ((j : ℕ) → n ≤ j → count j xs ≡ 0)
    → length xs ≡ sum_below n (λ j. count j xs)
length-eq-sum_below n [] h = omega (arith, sum_below_zero n)
length-eq-sum_below n (x ∷ xs) h = ground (
  arith,
  h x,
  sum_below_bump n x (λ j. count j xs),
  length-eq-sum_below n xs (λ j le. omega (arith, h j le)),
)

sum_below-ltb_of_le : (n m : ℕ) → n ≤ m → sum_below n (λ j. if ltb j m then 1 else 0) ≡ n
unfolding sum_below
sum_below-ltb_of_le zero m h = refl
sum_below-ltb_of_le (suc n) m h = ground (arith, sum_below-ltb_of_le n m)

pub sum_below-ltb : (n : ℕ) → sum_below n (λ j. if ltb j n then 1 else 0) ≡ n
sum_below-ltb n = sum_below-ltb_of_le n n (omega arith)
