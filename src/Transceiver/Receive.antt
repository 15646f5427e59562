-- ===== src/Transceiver/Receive.antt =====
-- Receiving an item (kbdus/src/transceiver.c) returns or sleeps, and keeps the inverter valid.
use bdus.Base.{
  ℕ, zero, suc, ◌<◌, ◌≡◌, ◌||◌, refl, subst, if◌then◌else◌, if_intro, Bool, true, some, Bool-cases,
  Option-cases, List-cases, inl, inr, get_elem?, get_elem?-set, set, ◌==◌, arith,
}
use bdus.Base.Errno.{erestartsys}
use bdus.Inverter.State.{ReqState, ItemRef, Wrapper, Inverter, wrapper_at, uint_max}
use bdus.Inverter.Wrappers.{to_being_gotten}
use bdus.Inverter.Items.{
  get_round, begin_item_get, GetResult, commit_item_get, abort_item_get, item_of,
}
use bdus.Inverter.Valid.{IsValid}
use bdus.Inverter.History.{Holds}
use bdus.Inverter.Operations.Finish.{
  commit_item_get-IsValid, abort_item_get-IsValid, abort_notification-IsValid,
}
use bdus.Inverter.Operations.Get.{first_awaiting, get_round-IsValid, begin_item_get_lem, next_item}
use bdus.Transceiver.Layout.{Transceiver}
use bdus.Transceiver.Copies.{UserItem}
use bdus.Transceiver.Calls.{Shared, deliver_item, receive_item, Received}

-- What is known of an item that was given to a thread.
unfoldable pub Handed : Inverter → ItemRef → Type 0
Handed inv (ItemRef.of_wrapper i) = Holds inv i ReqState.being_gotten
Handed inv ItemRef.req_flush_terminate = inv.flags.deactivated ≡ true
Handed inv ItemRef.req_dev_available = Unit {0}
Handed inv ItemRef.req_terminate = Unit {0}

pub get_round-Handed :
    (inv : Inverter) (ref : ItemRef)
    → IsValid inv
    → (get_round inv).1 ≡ some ref
    → Handed (get_round inv).0 ref
unfolding Handed get_round to_being_gotten
get_round-Handed inv ItemRef.req_dev_available v h = tt
get_round-Handed inv ItemRef.req_terminate v h = tt
get_round-Handed inv ItemRef.req_flush_terminate v h = elim (List-cases inv.reqs_awaiting_get) [
  | inl e ↦ ground (arith, v.wakeups)
  | inr (j, rest, e) ↦ ground (arith, v.wakeups)
]
get_round-Handed inv (ItemRef.of_wrapper i) v h = elim (List-cases inv.reqs_awaiting_get) [
  | inl e ↦ absurd (ground arith)
  | inr (j, rest, e) ↦
      let (w, at, awaits) = first_awaiting inv j rest v e in
      let held : Wrapper = record (wrapper_at inv j) { state = ReqState.being_gotten } in
      let now : get_elem? (set inv.reqs_all j held) j ≡ some held =
        ground (arith, get_elem?-set inv.reqs_all j j held at) in
      (held, ground (arith, now), refl)
]

-- Whatever becomes of it, the inverter stays valid.
finish_get-IsValid :
    (inv : Inverter) (ref : ItemRef) (committed : Bool)
    → IsValid inv
    → Handed inv ref
    → IsValid (if committed then commit_item_get inv ref else abort_item_get inv ref)
unfolding Handed commit_item_get abort_item_get item_of
finish_get-IsValid inv (ItemRef.of_wrapper i) committed v (w, at, h) =
    if_intro IsValid committed _ _ (λ _. commit_item_get-IsValid inv i w v at h)
      (λ _. abort_item_get-IsValid inv i w v at h)
finish_get-IsValid inv ItemRef.req_flush_terminate committed v h =
    if_intro IsValid committed _ _ (λ _. v) (λ _. (abort_notification-IsValid inv v).1 h)
finish_get-IsValid inv ItemRef.req_dev_available committed v h =
    if_intro IsValid committed _ _ (λ _. v) (λ _. (abort_notification-IsValid inv v).0)
finish_get-IsValid inv ItemRef.req_terminate committed v h =
    if_intro IsValid committed _ _ (λ _. v) (λ _. v)

begin_item_get-Handed :
    (rounds : ℕ) (signal : Bool) (inv inv' : Inverter) (ref : ItemRef)
    → IsValid inv
    → begin_item_get rounds signal inv ≡ some (GetResult.got ref, inv')
    → Handed inv' ref
unfolding begin_item_get
begin_item_get-Handed zero signal inv inv' ref v h = cc
begin_item_get-Handed (suc rounds) signal inv inv' ref v h =
    elim (Bool-cases (inv.item_is_awaiting_get == 0)) [
      | inl empty ↦ ground arith
      | inr more ↦ elim (Option-cases (get_round inv).1) [
        | inr (found, e) ↦
            let same : (get_round inv).0 ≡ inv' = ground arith in
            let this : found ≡ ref = ground arith in
            subst (λ r. Handed inv' r) this
              (subst (λ x. Handed x found) same (get_round-Handed inv found v e))
        | inl e ↦
            begin_item_get-Handed rounds signal (get_round inv).0 inv' ref (get_round-IsValid inv v)
              (ground arith)
      ]
    ]

deliver_item-IsValid :
    (t : Transceiver) (copied : Bool) (ref : ItemRef) (item : UserItem) (s : Shared)
    → IsValid s.inverter
    → Handed s.inverter ref
    → IsValid (deliver_item t copied ref item s).2.inverter
unfolding deliver_item
deliver_item-IsValid t copied ref item s v h = finish_get-IsValid s.inverter ref _ v h

-- The inverter after the call.
abbrev pub inverter_after : Received → Inverter
inverter_after (Received.returns ret item s) = s.inverter
inverter_after (Received.sleeps s) = s.inverter

-- In a valid inverter whose wake-ups are endless only once it is deactivated or terminated, receiving an
-- item comes to an end within one round more than there are wake-ups: it returns or sleeps. Whether the
-- copies succeed or not, the inverter stays valid.
pub receive_item-IsValid :
    (t : Transceiver) (rounds : ℕ) (signal copied : Bool) (item : UserItem) (s : Shared)
    → IsValid s.inverter
    → (s.inverter.item_is_awaiting_get ≡ uint_max
        → (s.inverter.flags.deactivated || s.inverter.flags.terminated) ≡ true)
    → s.inverter.item_is_awaiting_get < rounds
    → (r : Received) × (receive_item t rounds signal copied item s ≡ some r)
      × IsValid (inverter_after r)
unfolding receive_item
receive_item-IsValid t rounds signal copied item s v endless lt =
    let (begun, e, v') = begin_item_get_lem rounds signal s.inverter v endless lt in
    finish (next_item signal s.inverter) begun e v'
  where
    finish :
        (result : GetResult) (begun : Inverter)
        → begin_item_get rounds signal s.inverter ≡ some (result, begun)
        → IsValid begun
        → (r : Received) × (receive_item t rounds signal copied item s ≡ some r)
          × IsValid (inverter_after r)
    finish (GetResult.got ref) begun e v' =
        let handed = begin_item_get-Handed rounds signal s.inverter begun ref v e in
        let s' : Shared = record s { inverter = begun } in
        let d = deliver_item t copied ref item s' in
        (
          Received.returns d.0 d.1 d.2,
          ground arith,
          deliver_item-IsValid t copied ref item s' v' handed,
        )
    finish GetResult.restart begun e v' =
        (Received.returns erestartsys item (record s { inverter = begun }), ground arith, v')
    finish GetResult.blocked begun e v' =
        (Received.sleeps (record s { inverter = begun }), ground arith, v')
