-- ===== src/Inverter/Operations/Get.antt =====
-- Getting an item from kbdus/src/inverter.c, committing and aborting the get, keep the invariant.
use bdus.Base.{
  ℕ, zero, suc, ◌<◌, ◌≡◌, refl, sym, ◌∙◌, ◌==◌, List, ◌∷◌, [], ◌||◌, inl, inr, some, none, Bool,
  true, false, get_elem?, count, length-remove, get_or_of_some, arith, if◌then◌else◌, Option-cases,
  Bool-cases, List-cases,
}
use bdus.Inverter.State.{
  ReqState, ItemRef, Wrapper, Flags, Inverter, same_state, no_wrapper, consume, uint_max,
}
use bdus.Inverter.Wrappers.{to_being_gotten}
use bdus.Inverter.Items.{get_round, begin_item_get, GetResult}
use bdus.Inverter.Valid.{IsValid, Wakeups, settled}
use bdus.Inverter.Transitions.Pointwise.{set-Everywhere}
use bdus.Inverter.Transitions.Valid.{to_being_gotten-Core}
use bdus.Inverter.Operations.Submit.{held_pos}

-- Flags and the completion change, the wrappers do not.
pub flags-IsValid :
    (inv : Inverter) (f : Flags) (done : ℕ)
    → IsValid inv
    → f.terminated ≡ inv.flags.terminated
    → Wakeups (record inv { flags = f; item_is_awaiting_get = done })
    → IsValid (record inv { flags = f; item_is_awaiting_get = done })
flags-IsValid inv f done v e u = record {
  core = record {
    size = v.size;
    small = v.small;
    lists = record { free_list = v.lists.free_list; awaiting_list = v.lists.awaiting_list };
    wrappers = v.wrappers;
    balanced = v.balanced;
  };
  at_rest = λ t. v.at_rest (sym e ∙ t);
  wakeups = u;
}

pub first_awaiting :
    (inv : Inverter) (i : ℕ) (rest : List ℕ)
    → IsValid inv
    → inv.reqs_awaiting_get ≡ i ∷ rest
    → (w : Wrapper) × (get_elem? inv.reqs_all i ≡ some w)
      × (same_state w.state ReqState.awaiting_get ≡ true)
first_awaiting inv i rest v e =
    held_pos ReqState.awaiting_get (get_elem? inv.reqs_all i) {n = count i rest}
      (ground (arith, v.lists.awaiting_list i))

-- A wrapper leaves the queue, and its wake-up is used.
take_first-IsValid :
    (inv : Inverter) (i : ℕ) (rest : List ℕ)
    → IsValid inv
    → inv.reqs_awaiting_get ≡ i ∷ rest
    → IsValid
        (to_being_gotten (record inv { item_is_awaiting_get = consume inv.item_is_awaiting_get }) i)
unfolding to_being_gotten
take_first-IsValid inv i rest v e =
    let (w, at, awaits) = first_awaiting inv i rest v e in
    let inv' : Inverter = record inv { item_is_awaiting_get = consume inv.item_is_awaiting_get } in
    record {
      core =
          to_being_gotten-Core inv' i w
            (record {
              size = v.size;
              small = v.small;
              lists = record {
                free_list = v.lists.free_list;
                awaiting_list = v.lists.awaiting_list;
              };
              wrappers = v.wrappers;
              balanced = v.balanced;
            })
            at (ground arith);
      at_rest = λ t. rw (get_or_of_some inv.reqs_all i no_wrapper at) (
          set-Everywhere settled inv.reqs_all i (record w { state = ReqState.being_gotten }) refl
            (v.at_rest t));
      wakeups = ground (arith, v.wakeups, length-remove i inv.reqs_awaiting_get);
    }

module _ (inv : Inverter) (v : IsValid inv) where
  abbrev drained : ℕ
  drained = consume inv.item_is_awaiting_get

  flush_branch :
      inv.flags.deactivated_not_flushed ≡ true
      → IsValid (record inv {
        flags = record (inv.flags) { deactivated_not_flushed = false };
        item_is_awaiting_get = drained;
      })
  flush_branch h = flags-IsValid inv _ drained v refl (ground (arith, v.wakeups))

  terminate_branch :
      (inv.flags.deactivated || inv.flags.terminated) ≡ true
      → IsValid (record inv { item_is_awaiting_get = drained })
  terminate_branch h = flags-IsValid inv inv.flags drained v refl (ground (arith, v.wakeups))

  available_branch :
      (inv.flags.deactivated || inv.flags.terminated) ≡ false
      → inv.flags.send_device_available ≡ true
      → IsValid (record inv {
        flags = record (inv.flags) { send_device_available = false };
        item_is_awaiting_get = drained;
      })
  available_branch h k = flags-IsValid inv _ drained v refl (ground (arith, v.wakeups))

  again_branch :
      (inv.flags.deactivated || inv.flags.terminated) ≡ false
      → inv.flags.send_device_available ≡ false
      → inv.reqs_awaiting_get ≡ []
      → IsValid (record inv { item_is_awaiting_get = drained })
  again_branch h k e = flags-IsValid inv inv.flags drained v refl (ground (arith, v.wakeups))

  -- One round of the loop keeps the inverter valid.
  pub get_round-IsValid : IsValid (get_round inv).0
  unfolding get_round
  get_round-IsValid = elim (List-cases inv.reqs_awaiting_get) [
    | inl e ↦ ground (arith, flush_branch, terminate_branch, available_branch, again_branch)
    | inr (i, rest, e) ↦
        ground (
          arith,
          flush_branch,
          terminate_branch,
          available_branch,
          take_first-IsValid inv i rest v e,
        )
  ]

-- What a call returns, by the state in which it finds the inverter.
abbrev pub next_item : Bool → Inverter → GetResult
next_item signal inv =
    if inv.flags.deactivated_not_flushed
    then GetResult.got ItemRef.req_flush_terminate
    else if inv.flags.deactivated || inv.flags.terminated
    then GetResult.got ItemRef.req_terminate
    else if inv.flags.send_device_available
    then GetResult.got ItemRef.req_dev_available
    else elim inv.reqs_awaiting_get [
      | [] ↦ if signal then GetResult.restart else GetResult.blocked
      | i ∷ rest ↦ GetResult.got (ItemRef.of_wrapper i)
    ]

get_round_item :
    (signal : Bool) (inv : Inverter) (ref : ItemRef)
    → (get_round inv).1 ≡ some ref
    → next_item signal inv ≡ GetResult.got ref
unfolding get_round
get_round_item signal inv ref h = ground arith

get_round_again :
    (signal : Bool) (inv : Inverter)
    → (get_round inv).1 ≡ none
    → (next_item signal inv ≡ (if signal then GetResult.restart else GetResult.blocked))
      × ((inv.flags.deactivated || inv.flags.terminated) ≡ false)
      × ((get_round inv).0 ≡ record inv { item_is_awaiting_get = consume inv.item_is_awaiting_get })
unfolding get_round
get_round_again signal inv h = ground arith

-- In a valid inverter whose wake-ups are UINT_MAX only if it is deactivated or terminated, a thread
-- never sleeps while there is an item to get, and never spins: within one round more than there are
-- wake-ups it returns the first item of the queue, or the notification that goes before it, or it
-- sleeps, as `next_item` says. The inverter stays valid.
pub begin_item_get_lem :
    (rounds : ℕ) (signal : Bool) (inv : Inverter)
    → IsValid inv
    → (inv.item_is_awaiting_get ≡ uint_max → (inv.flags.deactivated || inv.flags.terminated) ≡ true)
    → inv.item_is_awaiting_get < rounds
    → (inv' : Inverter) × (begin_item_get rounds signal inv ≡ some (next_item signal inv, inv'))
      × IsValid inv'
unfolding begin_item_get
begin_item_get_lem zero signal inv v ok lt = elim lt [ ]
begin_item_get_lem (suc rounds) signal inv v ok lt =
    elim (Bool-cases (inv.item_is_awaiting_get == 0)) [
      | inl empty ↦ (inv, ground (arith, v.wakeups), v)
      | inr more ↦ elim (Option-cases (get_round inv).1) [
        | inr (ref, e) ↦ (
          (get_round inv).0,
          ground (arith, get_round_item signal inv ref e),
          get_round-IsValid inv v,
        )
        | inl e ↦
            let (shown, running, same) = get_round_again signal inv e in
            let (inv', found, v') =
              begin_item_get_lem rounds signal (get_round inv).0 (get_round-IsValid inv v)
                (ground (arith, same)) (ground (arith, same)) in
            (inv', ground arith, v')
      ]
    ]
