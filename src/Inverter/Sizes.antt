-- ===== src/Inverter/Sizes.antt =====
-- The lengths of the two lists of kbdus/src/inverter.c.
use bdus.Base.{
  ℕ, zero, suc, ◌+◌, ◌≤◌, ◌≡◌, refl, ◌∙◌, if◌then◌else◌, List, [], ◌∷◌, Option, none, some, length,
  get_elem?, count, arith, ap,
}
use bdus.Base.Sums.{sum_below, sum_below-eq, sum_below-le, sum_below-suc, length-eq-sum_below}
use bdus.Inverter.State.{ReqState, Wrapper, Inverter, same_state}
use bdus.Inverter.Valid.{held, ListsMatch}

-- How many wrappers are in the state.
abbrev pub count_state : ReqState → List Wrapper → ℕ
count_state s [] = 0
count_state s (w ∷ ws) = (if same_state w.state s then 1 else 0) + count_state s ws

held_outside :
    (s : ReqState) (ws : List Wrapper) (j : ℕ) → length ws ≤ j → held s (get_elem? ws j) ≡ 0
held_outside s [] j h = refl
held_outside s (w ∷ ws) zero h = absurd (omega arith)
held_outside s (w ∷ ws) (suc j) h = held_outside s ws j (omega arith)

pub held-le : (s : ReqState) (o : Option Wrapper) → held s o ≤ 1
held-le s none = omega arith
held-le s (some w) = ground arith

sum_held :
    (s : ReqState) (ws : List Wrapper)
    → sum_below (length ws) (λ j. held s (get_elem? ws j)) ≡ count_state s ws
unfolding sum_below
sum_held s [] = refl
sum_held s (w ∷ ws) =
    sum_below-suc (length ws) (λ j. held s (get_elem? (w ∷ ws) j))
    ∙ ap (λ k. held s (some w) + k) (sum_held s ws)

module _ (s : ReqState) (ws : List Wrapper) (xs : List ℕ)
    (h : (j : ℕ) → count j xs ≡ held s (get_elem? ws j)) where
  length-eq-count_state : length xs ≡ count_state s ws
  length-eq-count_state =
      length-eq-sum_below (length ws) xs (λ j le. h j ∙ held_outside s ws j le)
      ∙ sum_below-eq (length ws) (λ j. count j xs) (λ j. held s (get_elem? ws j)) h
      ∙ sum_held s ws

  pub length-le-size : length xs ≤ length ws
  length-le-size = omega (
    arith,
    length-eq-sum_below (length ws) xs (λ j le. h j ∙ held_outside s ws j le),
    sum_below-le (length ws) (λ j. count j xs)
        (λ j. omega (arith, h j, held-le s (get_elem? ws j))),
  )

-- If the lists agree with the states of the wrappers, `reqs_free` has as many entries as there are
-- free wrappers, and `reqs_awaiting_get` as many as there are wrappers awaiting to be gotten.
pub length-lists :
    (inv : Inverter)
    → ListsMatch inv
    → (length inv.reqs_free ≡ count_state ReqState.free inv.reqs_all)
      × (length inv.reqs_awaiting_get ≡ count_state ReqState.awaiting_get inv.reqs_all)
length-lists inv l = (
  length-eq-count_state ReqState.free inv.reqs_all inv.reqs_free l.free_list,
  length-eq-count_state ReqState.awaiting_get inv.reqs_all inv.reqs_awaiting_get l.awaiting_list,
)
