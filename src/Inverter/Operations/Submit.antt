-- ===== src/Inverter/Operations/Submit.antt =====
-- `kbdus_inverter_submit_request` and `kbdus_inverter_timeout_request` keep the invariant
-- (kbdus/src/inverter.c).
use bdus.Base.{
  ℕ, suc, ◌+◌, ◌≡◌, refl, ◌∙◌, ◌∷◌, inl, inr, Option, some, none, true, false, List, get_elem?,
  count, length-set, get_or_of_some, get_elem?-set, get_elem?_of_lt, set, ltb, ◌%◌, ◌-◌, ◌^◌, arith,
  Bool-cases, List-cases,
}
use bdus.Base.Int.{ℤ}
use bdus.Inverter.State.{
  ReqState, ItemType, Wrapper, Inverter, same_state, no_wrapper, is_notification,
}
use bdus.Inverter.Wrappers.{Request, req_to_item_type, to_awaiting_get, handle_index_to_wrapper}
use bdus.Inverter.Requests.{
  initialize, submit_to_wrapper, submit_request, refuse, timeout_wrapper, timeout_request,
  TimerReturn,
}
use bdus.Base.Errno.{eio, enodev, eopnotsupp, enotty, etimedout}
use bdus.Inverter.Transitions.Valid.{to_free-IsValid}
use bdus.Inverter.Valid.{IsValid, ListsMatch, held, well_formed}
use bdus.Inverter.Transitions.Pointwise.{set-Everywhere}
use bdus.Inverter.Transitions.Lists.{initialize-ListsMatch, to_awaiting_get-ListsMatch}
use bdus.Inverter.Transitions.Balance.{in_flight-set}
use bdus.Inverter.Transitions.Wakeups.{to_awaiting_get-Wakeups, set-Wakeups, blk-Wakeups}

-- A position on a list has a wrapper, in the state of the list.
pub held_pos :
    (s : ReqState) (o : Option Wrapper) {n : ℕ}
    → held s o ≡ suc n
    → (w : Wrapper) × (o ≡ some w) × (same_state w.state s ≡ true)
held_pos s none h = absurd (omega arith)
held_pos s (some w) h = (w, refl, ground arith)

module _ (inv : Inverter) (i req : ℕ) (t : ItemType) (w : Wrapper) (v : IsValid inv)
    (e : get_elem? inv.reqs_all i ≡ some w) (f : same_state w.state ReqState.free ≡ true) where
  abbrev filled : Wrapper
  filled = record w { item = record (w.item) { type = t; req = req } }

  filled_at : get_elem? (initialize inv req t i).reqs_all i ≡ some filled
  unfolding initialize
  filled_at =
      rw (get_or_of_some inv.reqs_all i no_wrapper e)
        (ground (arith, get_elem?-set inv.reqs_all i i filled e))

  pub submit_to_wrapper-IsValid :
      is_notification t ≡ false
      → inv.flags.terminated ≡ false
      → IsValid (submit_to_wrapper inv req t i)
  unfolding submit_to_wrapper to_awaiting_get
  submit_to_wrapper-IsValid n k = record {
    core = record {
      size =
          length-set (initialize inv req t i).reqs_all i _ ∙ length-set inv.reqs_all i _ ∙ v.size;
      small = v.small;
      lists = record { free_list = lists'.free_list; awaiting_list = lists'.awaiting_list };
      wrappers =
          rw
            (
              get_or_of_some inv.reqs_all i no_wrapper e,
              get_or_of_some (set inv.reqs_all i filled) i no_wrapper written,
            )
            (set-Everywhere well_formed (set inv.reqs_all i filled) i
              (record filled { state = ReqState.awaiting_get }) (ground (arith, v.wrappers i w e))
              (set-Everywhere well_formed inv.reqs_all i filled (ground (arith, v.wrappers i w e))
                v.wrappers));
      balanced = λ r.
          rw
            (
              get_or_of_some inv.reqs_all i no_wrapper e,
              get_or_of_some (set inv.reqs_all i filled) i no_wrapper written,
            )
            (ground (
              arith,
              v.balanced r,
              in_flight-set r inv.reqs_all i filled e,
              in_flight-set r (set inv.reqs_all i filled) i
                  (record filled { state = ReqState.awaiting_get }) written,
            ));
    };
    at_rest = λ t'. cc;
    wakeups =
        blk-Wakeups (to_awaiting_get (initialize inv req t i) i)
          (to_awaiting_get-Wakeups (initialize inv req t i) i filled
            (initialize-ListsMatch inv i w v.lists e req t) (set-Wakeups inv v.wakeups _) filled_at
            (ground arith) (rw (length-set, v.size) v.small))
          _;
  }
    where
      written : get_elem? (set inv.reqs_all i filled) i ≡ some filled
      written = ground (arith, get_elem?-set inv.reqs_all i i filled e)

      lists' : ListsMatch (to_awaiting_get (initialize inv req t i) i)
      lists' =
          to_awaiting_get-ListsMatch (initialize inv req t i) i filled
            (initialize-ListsMatch inv i w v.lists e req t) filled_at (ground arith)

-- A request that was refused touches nothing but its private data.
refuse-IsValid :
    (inv : Inverter) (req : ℕ) (e1 e2 : ℤ) → IsValid inv → IsValid (refuse inv req e1 e2)
unfolding refuse
refuse-IsValid inv req e1 e2 v = record {
  core = record {
    size = v.size;
    small = v.small;
    lists = record { free_list = v.lists.free_list; awaiting_list = v.lists.awaiting_list };
    wrappers = v.wrappers;
    balanced = v.balanced;
  };
  at_rest = v.at_rest;
  wakeups = blk-Wakeups inv v.wakeups _;
}

item_type-not_notification : (r : Request) → is_notification (req_to_item_type r) ≡ false
unfolding req_to_item_type
item_type-not_notification r = ground arith

pub first_free :
    (inv : Inverter) (i : ℕ) (rest : List ℕ)
    → IsValid inv
    → inv.reqs_free ≡ i ∷ rest
    → (w : Wrapper) × (get_elem? inv.reqs_all i ≡ some w)
      × (same_state w.state ReqState.free ≡ true)
first_free inv i rest v e =
    held_pos ReqState.free (get_elem? inv.reqs_all i) {n = count i rest}
      (ground (arith, v.lists.free_list i))

pub queue_first-IsValid :
    (inv : Inverter) (req : ℕ) (t : ItemType) (i : ℕ) (rest : List ℕ)
    → IsValid inv
    → inv.reqs_free ≡ i ∷ rest
    → is_notification t ≡ false
    → inv.flags.terminated ≡ false
    → IsValid (submit_to_wrapper inv req t i)
queue_first-IsValid inv req t i rest v e n k =
    let (w, at, free) = first_free inv i rest v e in
    submit_to_wrapper-IsValid inv i req t w v at free n k

-- Whatever a submission returns, the inverter stays valid.
pub submit_request-IsValid :
    (inv : Inverter) (req : ℕ) (r : Request) {result : ℤ × Inverter}
    → IsValid inv
    → submit_request inv req r ≡ some result
    → IsValid result.1
unfolding submit_request
submit_request-IsValid inv req r v h = elim (List-cases inv.reqs_free) [
  | inl e ↦
      ground
        (arith, refuse-IsValid inv req eio enodev v, refuse-IsValid inv req eopnotsupp enotty v)
  | inr (i, rest, e) ↦ ground (
    arith,
    refuse-IsValid inv req eio enodev v,
    refuse-IsValid inv req eopnotsupp enotty v,
    queue_first-IsValid inv req (req_to_item_type r) i rest v e (item_type-not_notification r),
  )
]

-- A timer that fires leaves the inverter valid, whatever the state of the request.
timeout_wrapper-IsValid :
    (inv : Inverter) (i : ℕ) (w : Wrapper)
    → IsValid inv
    → get_elem? inv.reqs_all i ≡ some w
    → IsValid (timeout_wrapper inv i).1
unfolding timeout_wrapper
timeout_wrapper-IsValid inv i w v e = ground (
  arith,
  get_or_of_some inv.reqs_all i no_wrapper e,
  v,
  to_free-IsValid inv i w v e etimedout etimedout,
)

-- So does the function that the block layer calls when the timer fires.
pub timeout_request-IsValid :
    (inv : Inverter) (req : ℕ) {result : TimerReturn × Inverter}
    → IsValid inv
    → timeout_request inv req ≡ some result
    → IsValid result.1
unfolding timeout_request handle_index_to_wrapper
timeout_request-IsValid inv req v h =
    let p = inv.blk.pdu req in
    let i = (p.handle_index + 2 ^ 16 - 1) % 2 ^ 16 in
    elim (Bool-cases (ltb i inv.num_reqs)) [
      | inr out ↦ ground arith
      | inl inside ↦
          let (w, at) = get_elem?_of_lt inv.reqs_all i (ground (arith, v.size)) in
          ground (arith, v, timeout_wrapper-IsValid inv i w v at)
    ]
