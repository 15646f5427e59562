-- ===== src/Inverter/Transitions/Pointwise.antt =====
-- What holds of each wrapper of an array holds of each after a write that keeps it.
use bdus.Base.{ℕ, zero, suc, ◌≡◌, Bool, true, List, [], ◌∷◌, set}
use bdus.Inverter.State.{Wrapper}
use bdus.Inverter.Valid.{Everywhere}

pub set-Everywhere :
    (f : ℕ → Wrapper → Bool) (ws : List Wrapper) (i : ℕ) (v : Wrapper)
    → f i v ≡ true
    → Everywhere f ws
    → Everywhere f (set ws i v)
set-Everywhere f [] i v k h j w e = h j w e
set-Everywhere f (x ∷ ws) zero v k h zero w e = cc
set-Everywhere f (x ∷ ws) zero v k h (suc j) w e = h (suc j) w e
set-Everywhere f (x ∷ ws) (suc i) v k h zero w e = h 0 w e
set-Everywhere f (x ∷ ws) (suc i) v k h (suc j) w e =
    set-Everywhere (λ n. f (suc n)) ws i v k (λ n. h (suc n)) j w e
