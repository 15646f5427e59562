-- ===== src/Inverter/Transitions/Lists.antt =====
-- How the transitions of kbdus/src/inverter.c move a wrapper between the two lists.
use bdus.Base.{
  ℕ, ◌≡◌, refl, sym, false, [], ◌∷◌, some, get_elem?, remove, set, count-append, count-remove,
  get_elem?-set, get_or_of_some, arith,
}
use bdus.Base.Int.{ℤ}
use bdus.Inverter.State.{ReqState, ItemType, Wrapper, Inverter, same_state, no_wrapper}
use bdus.Inverter.Wrappers.{
  to_free, to_awaiting_get, to_being_gotten, to_awaiting_completion, to_being_completed,
  freed_wrapper,
}
use bdus.Inverter.Requests.{initialize}
use bdus.Inverter.Valid.{ListsMatch, held}

module _ (inv : Inverter) (i : ℕ) (w : Wrapper) (l : ListsMatch inv)
    (e : get_elem? inv.reqs_all i ≡ some w) where
  pub to_free-ListsMatch :
      (e1 e2 : ℤ) → same_state w.state ReqState.free ≡ false → ListsMatch (to_free inv i e1 e2)
  unfolding to_free
  to_free-ListsMatch e1 e2 h = record {
    free_list = λ j. ground (
      arith,
      l.free_list j,
      l.free_list i,
      get_or_of_some inv.reqs_all i no_wrapper e,
      get_elem?-set inv.reqs_all i j (freed_wrapper w) e,
      count-remove i j inv.reqs_free,
    );
    awaiting_list = λ j. ground (
      arith,
      l.awaiting_list j,
      l.awaiting_list i,
      get_or_of_some inv.reqs_all i no_wrapper e,
      get_elem?-set inv.reqs_all i j (freed_wrapper w) e,
      count-remove i j inv.reqs_awaiting_get,
    );
  }

  pub to_awaiting_get-ListsMatch :
      same_state w.state ReqState.awaiting_get ≡ false → ListsMatch (to_awaiting_get inv i)
  unfolding to_awaiting_get
  to_awaiting_get-ListsMatch h = record {
    free_list = λ j. ground (
      arith,
      l.free_list j,
      l.free_list i,
      get_or_of_some inv.reqs_all i no_wrapper e,
      get_elem?-set inv.reqs_all i j (record w { state = ReqState.awaiting_get }) e,
      count-remove i j inv.reqs_free,
    );
    awaiting_list = λ j. ground (
      arith,
      l.awaiting_list j,
      l.awaiting_list i,
      get_or_of_some inv.reqs_all i no_wrapper e,
      get_elem?-set inv.reqs_all i j (record w { state = ReqState.awaiting_get }) e,
      count-remove i j inv.reqs_awaiting_get,
      count-append j (remove i inv.reqs_awaiting_get) (i ∷ []),
    );
  }

  pub to_being_gotten-ListsMatch : ListsMatch (to_being_gotten inv i)
  unfolding to_being_gotten
  to_being_gotten-ListsMatch = record {
    free_list = λ j. ground (
      arith,
      l.free_list j,
      l.free_list i,
      get_or_of_some inv.reqs_all i no_wrapper e,
      get_elem?-set inv.reqs_all i j (record w { state = ReqState.being_gotten }) e,
      count-remove i j inv.reqs_free,
    );
    awaiting_list = λ j. ground (
      arith,
      l.awaiting_list j,
      l.awaiting_list i,
      get_or_of_some inv.reqs_all i no_wrapper e,
      get_elem?-set inv.reqs_all i j (record w { state = ReqState.being_gotten }) e,
      count-remove i j inv.reqs_awaiting_get,
    );
  }

  -- A write to a wrapper that neither leaves nor enters a list.
  pub set-ListsMatch :
      (v : Wrapper)
      → held ReqState.free (some v) ≡ held ReqState.free (some w)
      → held ReqState.awaiting_get (some v) ≡ held ReqState.awaiting_get (some w)
      → ListsMatch (record inv { reqs_all = set inv.reqs_all i v })
  set-ListsMatch v f g = record {
    free_list = λ j. ground (arith, l.free_list j, get_elem?-set inv.reqs_all i j v e);
    awaiting_list = λ j. ground (arith, l.awaiting_list j, get_elem?-set inv.reqs_all i j v e);
  }

  pub to_awaiting_completion-ListsMatch :
      held ReqState.free (some w) ≡ 0
      → held ReqState.awaiting_get (some w) ≡ 0
      → ListsMatch (to_awaiting_completion inv i)
  unfolding to_awaiting_completion
  to_awaiting_completion-ListsMatch f g =
      rw (get_or_of_some inv.reqs_all i no_wrapper e)
        (set-ListsMatch (record w { state = ReqState.awaiting_completion }) (sym f) (sym g))

  pub to_being_completed-ListsMatch :
      held ReqState.free (some w) ≡ 0
      → held ReqState.awaiting_get (some w) ≡ 0
      → ListsMatch (to_being_completed inv i)
  unfolding to_being_completed
  to_being_completed-ListsMatch f g =
      rw (get_or_of_some inv.reqs_all i no_wrapper e)
        (set-ListsMatch (record w { state = ReqState.being_completed }) (sym f) (sym g))

  pub initialize-ListsMatch : (req : ℕ) (t : ItemType) → ListsMatch (initialize inv req t i)
  unfolding initialize
  initialize-ListsMatch req t =
      rw (get_or_of_some inv.reqs_all i no_wrapper e)
        (set-ListsMatch (record w { item = record (w.item) { type = t; req = req } }) refl refl)
