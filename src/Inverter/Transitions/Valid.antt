-- ===== src/Inverter/Transitions/Valid.antt =====
-- The transitions of a wrapper (kbdus/src/inverter.c) keep the invariant, from the states that the
-- source expects.
use bdus.Base.{ℕ, ◌≡◌, refl, ◌∙◌, some, false, get_elem?, length-set, get_or_of_some, arith}
use bdus.Base.Int.{ℤ}
use bdus.Inverter.State.{ReqState, Wrapper, Inverter, same_state, no_wrapper, wrapper_at}
use bdus.Inverter.Wrappers.{
  to_free, to_awaiting_get, to_being_gotten, to_awaiting_completion, to_being_completed,
  freed_wrapper,
}
use bdus.Inverter.Valid.{Core, IsValid, held, well_formed, settled}
use bdus.Inverter.Transitions.Pointwise.{set-Everywhere}
use bdus.Inverter.Transitions.Lists.{
  to_free-ListsMatch, to_awaiting_get-ListsMatch, to_being_gotten-ListsMatch,
  to_awaiting_completion-ListsMatch, to_being_completed-ListsMatch,
}
use bdus.Inverter.Transitions.Balance.{
  to_free-Balanced, to_awaiting_get-Balanced, to_being_gotten-Balanced,
  to_awaiting_completion-Balanced, to_being_completed-Balanced,
}
use bdus.Inverter.Transitions.Wakeups.{to_free-Wakeups, to_awaiting_get-Wakeups, set-Wakeups}

module _ (inv : Inverter) (i : ℕ) (w : Wrapper) (v : Core inv)
    (e : get_elem? inv.reqs_all i ≡ some w) where
  pub to_free-Core :
      (e1 e2 : ℤ) → same_state w.state ReqState.free ≡ false → Core (to_free inv i e1 e2)
  unfolding to_free
  to_free-Core e1 e2 h = record {
    size = length-set inv.reqs_all i (freed_wrapper (wrapper_at inv i)) ∙ v.size;
    small = v.small;
    lists = to_free-ListsMatch inv i w v.lists e e1 e2 h;
    wrappers = rw (get_or_of_some inv.reqs_all i no_wrapper e) (
        set-Everywhere well_formed inv.reqs_all i (freed_wrapper w)
          (ground (arith, v.wrappers i w e)) v.wrappers);
    balanced = to_free-Balanced inv i w v.balanced e e1 e2 h;
  }

  pub to_awaiting_get-Core :
      same_state w.state ReqState.free ≡ false
      → same_state w.state ReqState.awaiting_get ≡ false
      → Core (to_awaiting_get inv i)
  unfolding to_awaiting_get
  to_awaiting_get-Core h k = record {
    size = length-set inv.reqs_all i _ ∙ v.size;
    small = v.small;
    lists = to_awaiting_get-ListsMatch inv i w v.lists e k;
    wrappers = rw (get_or_of_some inv.reqs_all i no_wrapper e) (
        set-Everywhere well_formed inv.reqs_all i (record w { state = ReqState.awaiting_get })
          (ground (arith, v.wrappers i w e)) v.wrappers);
    balanced = to_awaiting_get-Balanced inv i w v.balanced e h;
  }

  pub to_being_gotten-Core : same_state w.state ReqState.free ≡ false → Core (to_being_gotten inv i)
  unfolding to_being_gotten
  to_being_gotten-Core h = record {
    size = length-set inv.reqs_all i _ ∙ v.size;
    small = v.small;
    lists = to_being_gotten-ListsMatch inv i w v.lists e;
    wrappers = rw (get_or_of_some inv.reqs_all i no_wrapper e) (
        set-Everywhere well_formed inv.reqs_all i (record w { state = ReqState.being_gotten })
          (ground (arith, v.wrappers i w e)) v.wrappers);
    balanced = to_being_gotten-Balanced inv i w v.balanced e h;
  }

  pub to_awaiting_completion-Core :
      held ReqState.free (some w) ≡ 0
      → held ReqState.awaiting_get (some w) ≡ 0
      → Core (to_awaiting_completion inv i)
  unfolding to_awaiting_completion
  to_awaiting_completion-Core h k = record {
    size = length-set inv.reqs_all i _ ∙ v.size;
    small = v.small;
    lists = to_awaiting_completion-ListsMatch inv i w v.lists e h k;
    wrappers = rw (get_or_of_some inv.reqs_all i no_wrapper e) (
        set-Everywhere well_formed inv.reqs_all i
          (record w { state = ReqState.awaiting_completion }) (ground (arith, v.wrappers i w e))
          v.wrappers);
    balanced = to_awaiting_completion-Balanced inv i w v.balanced e (ground arith);
  }

  pub to_being_completed-Core :
      held ReqState.free (some w) ≡ 0
      → held ReqState.awaiting_get (some w) ≡ 0
      → Core (to_being_completed inv i)
  unfolding to_being_completed
  to_being_completed-Core h k = record {
    size = length-set inv.reqs_all i _ ∙ v.size;
    small = v.small;
    lists = to_being_completed-ListsMatch inv i w v.lists e h k;
    wrappers = rw (get_or_of_some inv.reqs_all i no_wrapper e) (
        set-Everywhere well_formed inv.reqs_all i (record w { state = ReqState.being_completed })
          (ground (arith, v.wrappers i w e)) v.wrappers);
    balanced = to_being_completed-Balanced inv i w v.balanced e (ground arith);
  }

module _ (inv : Inverter) (i : ℕ) (w : Wrapper) (v : IsValid inv)
    (e : get_elem? inv.reqs_all i ≡ some w) where
  pub to_free-IsValid :
      (e1 e2 : ℤ) → same_state w.state ReqState.free ≡ false → IsValid (to_free inv i e1 e2)
  unfolding to_free
  to_free-IsValid e1 e2 h = record {
    core = to_free-Core inv i w v.core e e1 e2 h;
    at_rest = λ t.
        rw (get_or_of_some inv.reqs_all i no_wrapper e)
          (set-Everywhere settled inv.reqs_all i (freed_wrapper w) refl (v.at_rest t));
    wakeups = to_free-Wakeups inv i w v.lists v.wakeups e e1 e2;
  }

  pub to_awaiting_get-IsValid :
      same_state w.state ReqState.free ≡ false
      → same_state w.state ReqState.awaiting_get ≡ false
      → inv.flags.terminated ≡ false
      → IsValid (to_awaiting_get inv i)
  unfolding to_awaiting_get
  to_awaiting_get-IsValid h k t = record {
    core = to_awaiting_get-Core inv i w v.core e h k;
    at_rest = λ t'. cc;
    wakeups = to_awaiting_get-Wakeups inv i w v.lists v.wakeups e k (rw v.size v.small);
  }

  pub to_awaiting_completion-IsValid :
      held ReqState.free (some w) ≡ 0
      → held ReqState.awaiting_get (some w) ≡ 0
      → inv.flags.terminated ≡ false
      → IsValid (to_awaiting_completion inv i)
  unfolding to_awaiting_completion
  to_awaiting_completion-IsValid h k t = record {
    core = to_awaiting_completion-Core inv i w v.core e h k;
    at_rest = λ t'. cc;
    wakeups = set-Wakeups inv v.wakeups _;
  }

  pub to_being_completed-IsValid :
      held ReqState.free (some w) ≡ 0
      → held ReqState.awaiting_get (some w) ≡ 0
      → IsValid (to_being_completed inv i)
  unfolding to_being_completed
  to_being_completed-IsValid h k = record {
    core = to_being_completed-Core inv i w v.core e h k;
    at_rest = λ t. rw (get_or_of_some inv.reqs_all i no_wrapper e) (
        set-Everywhere settled inv.reqs_all i (record w { state = ReqState.being_completed }) refl
          (v.at_rest t));
    wakeups = set-Wakeups inv v.wakeups _;
  }
