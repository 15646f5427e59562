-- ===== src/Inverter/Transitions/Balance.antt =====
-- Requests started, completed and held (kbdus/src/inverter.c): no transition loses one or makes
-- one up.
use bdus.Base.{
  ℕ, zero, suc, ◌+◌, ◌≡◌, ◌==◌, if◌then◌else◌, false, not, ◌&&◌, List, [], ◌∷◌, some, get_elem?,
  set, get_or_of_some, arith,
}
use bdus.Base.Int.{ℤ}
use bdus.Inverter.State.{ReqState, Wrapper, Inverter, same_state, no_wrapper}
use bdus.Inverter.Wrappers.{
  to_free, to_awaiting_get, to_being_gotten, to_awaiting_completion, to_being_completed,
  freed_wrapper,
}
use bdus.Inverter.Valid.{Balanced, in_flight}

-- The part of one wrapper in the count.
abbrev pub holds : ℕ → Wrapper → ℕ
holds r w = if not (same_state w.state ReqState.free) && (w.item.req == r) then 1 else 0

pub in_flight-set :
    (r : ℕ) (ws : List Wrapper) (i : ℕ) (v : Wrapper) {w : Wrapper}
    → get_elem? ws i ≡ some w
    → in_flight r (set ws i v) + holds r w ≡ in_flight r ws + holds r v
in_flight-set r [] i v e = cc
in_flight-set r (x ∷ ws) zero v e = ground arith
in_flight-set r (x ∷ ws) (suc i) v e = omega (arith, in_flight-set r ws i v e)

module _ (inv : Inverter) (i : ℕ) (w : Wrapper) (b : Balanced inv)
    (e : get_elem? inv.reqs_all i ≡ some w) where
  pub to_free-Balanced :
      (e1 e2 : ℤ) → same_state w.state ReqState.free ≡ false → Balanced (to_free inv i e1 e2)
  unfolding to_free
  to_free-Balanced e1 e2 h r = ground (
    arith,
    b r,
    get_or_of_some inv.reqs_all i no_wrapper e,
    in_flight-set r inv.reqs_all i (freed_wrapper w) e,
  )

  -- A write that changes neither whether the wrapper is free nor its request.
  pub set-Balanced :
      (v : Wrapper)
      → ((r : ℕ) → holds r v ≡ holds r w)
      → Balanced (record inv { reqs_all = set inv.reqs_all i v })
  set-Balanced v same r = omega (arith, b r, same r, in_flight-set r inv.reqs_all i v e)

module _ (inv : Inverter) (i : ℕ) (w : Wrapper) (b : Balanced inv)
    (e : get_elem? inv.reqs_all i ≡ some w) (h : same_state w.state ReqState.free ≡ false) where
  pub to_awaiting_get-Balanced : Balanced (to_awaiting_get inv i)
  unfolding to_awaiting_get
  to_awaiting_get-Balanced r = ground (
    arith,
    b r,
    get_or_of_some inv.reqs_all i no_wrapper e,
    in_flight-set r inv.reqs_all i (record w { state = ReqState.awaiting_get }) e,
  )

  pub to_being_gotten-Balanced : Balanced (to_being_gotten inv i)
  unfolding to_being_gotten
  to_being_gotten-Balanced r = ground (
    arith,
    b r,
    get_or_of_some inv.reqs_all i no_wrapper e,
    in_flight-set r inv.reqs_all i (record w { state = ReqState.being_gotten }) e,
  )

  pub to_awaiting_completion-Balanced : Balanced (to_awaiting_completion inv i)
  unfolding to_awaiting_completion
  to_awaiting_completion-Balanced r = ground (
    arith,
    b r,
    get_or_of_some inv.reqs_all i no_wrapper e,
    in_flight-set r inv.reqs_all i (record w { state = ReqState.awaiting_completion }) e,
  )

  pub to_being_completed-Balanced : Balanced (to_being_completed inv i)
  unfolding to_being_completed
  to_being_completed-Balanced r = ground (
    arith,
    b r,
    get_or_of_some inv.reqs_all i no_wrapper e,
    in_flight-set r inv.reqs_all i (record w { state = ReqState.being_completed }) e,
  )
