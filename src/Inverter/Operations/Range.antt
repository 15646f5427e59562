-- ===== src/Inverter/Operations/Range.antt =====
-- The loops over all wrappers of kbdus/src/inverter.c.
use bdus.Base.{ℕ, zero, suc, ◌+◌, ◌<◌, ◌≡◌, subst, arith}
use bdus.Inverter.State.{Inverter}
use bdus.Inverter.Lifecycle.{for_range}

-- What holds at the start and is kept by each round holds at the end.
pub for_range_inv {κ} :
    (P : ℕ → Inverter → Type κ) (body : Inverter → ℕ → Inverter) (n : ℕ)
    → ((j : ℕ) (s : Inverter) → j < n → P j s → P (j + 1) (body s j))
    → (rounds i : ℕ) → i + rounds ≡ n
    → (inv : Inverter) → P i inv
    → P n (for_range rounds i body inv)
unfolding for_range
for_range_inv P body n keep zero i e inv h = subst (λ k. P k inv) (omega arith) h
for_range_inv P body n keep (suc rounds) i e inv h =
    for_range_inv P body n keep rounds (i + 1) (omega arith) (body inv i)
      (keep i inv (omega arith) h)
