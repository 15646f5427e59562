-- ===== src/Inverter/Transitions/Wakeups.antt =====
-- The completion `item_is_awaiting_get` of kbdus/src/inverter.c: the transitions keep a wake-up for
-- each item to get.
use bdus.Base.{
  ℕ, ◌≤◌, ◌≡◌, List, ◌∷◌, [], some, false, length, get_elem?, length-append, length-remove,
  remove_absent, get_or_of_some, arith,
}
use bdus.Base.Int.{ℤ}
use bdus.Inverter.State.{ReqState, Wrapper, Inverter, BlockLayer, same_state, no_wrapper}
use bdus.Inverter.Wrappers.{to_free, to_awaiting_get}
use bdus.Inverter.Valid.{ListsMatch, Wakeups}
use bdus.Inverter.Sizes.{length-le-size}

-- Neither the wrappers nor the block layer bear on the wake-ups.
pub set-Wakeups :
    (inv : Inverter) → Wakeups inv → (ws : List Wrapper) → Wakeups (record inv { reqs_all = ws })
set-Wakeups inv u ws = record {
  enough = u.enough;
  endless = u.endless;
  bounded = u.bounded;
  flush_pending = u.flush_pending;
}

pub blk-Wakeups :
    (inv : Inverter) → Wakeups inv → (b : BlockLayer) → Wakeups (record inv { blk = b })
blk-Wakeups inv u b = record {
  enough = u.enough;
  endless = u.endless;
  bounded = u.bounded;
  flush_pending = u.flush_pending;
}

module _ (inv : Inverter) (i : ℕ) (w : Wrapper) (l : ListsMatch inv) (u : Wakeups inv)
    (e : get_elem? inv.reqs_all i ≡ some w) where
  pub to_free-Wakeups : (e1 e2 : ℤ) → Wakeups (to_free inv i e1 e2)
  unfolding to_free
  to_free-Wakeups e1 e2 = ground (
    arith,
    get_or_of_some inv.reqs_all i no_wrapper e,
    l.awaiting_list i,
    length-remove i inv.reqs_awaiting_get,
  )

  pub to_awaiting_get-Wakeups :
      same_state w.state ReqState.awaiting_get ≡ false
      → length inv.reqs_all ≤ 256
      → Wakeups (to_awaiting_get inv i)
  unfolding to_awaiting_get
  to_awaiting_get-Wakeups h small = ground (
    arith,
    get_or_of_some inv.reqs_all i no_wrapper e,
    l.awaiting_list i,
    remove_absent i inv.reqs_awaiting_get,
    length-append inv.reqs_awaiting_get (i ∷ []),
    length-le-size ReqState.awaiting_get inv.reqs_all inv.reqs_awaiting_get l.awaiting_list,
  )
