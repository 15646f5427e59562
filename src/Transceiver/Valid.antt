-- ===== src/Transceiver/Valid.antt =====
-- The ioctls of kbdus/src/transceiver.c keep the inverter valid, whatever user space asks for.
use bdus.Base.{
  ℕ, ◌<◌, ◌≡◌, refl, sym, subst, if_intro, some, Option-cases, inl, inr, get_elem?, get_elem?_of_lt,
  get_elem?-set, set, ◌==◌, arith,
}
use bdus.Base.Int.{ℤ}
use bdus.Base.Errno.{ok, Result-cases}
use bdus.Inverter.State.{ReqState, ItemRef, Wrapper, Inverter, wrapper_at}
use bdus.Inverter.Wrappers.{handle_index_to_wrapper, to_being_completed}
use bdus.Inverter.Items.{begin_item_completion, begin_completion_of_wrapper}
use bdus.Inverter.Valid.{IsValid}
use bdus.Inverter.History.{Holds}
use bdus.Inverter.Operations.Finish.{
  begin_item_completion-IsValid, commit_item_completion-IsValid, abort_item_completion-IsValid,
  handle_index_to_wrapper-lt,
}
use bdus.Transceiver.Layout.{Transceiver}
use bdus.Transceiver.Calls.{Reply, Shared, UserCopy, finish_reply, send_reply, negate}

-- The item of a completion that has begun is held by the thread that began it.
begun-Holds :
    (inv inv' : Inverter) (index seqnum : ℕ) (ref : ItemRef)
    → IsValid inv
    → begin_item_completion inv index seqnum ≡ (ok (some ref), inv')
    → (i : ℕ) × (ref ≡ ItemRef.of_wrapper i) × Holds inv' i ReqState.being_completed
unfolding begin_item_completion begin_completion_of_wrapper to_being_completed
begun-Holds inv inv' index seqnum ref v h =
    elim (Option-cases (handle_index_to_wrapper inv index)) [
      | inl e ↦ cc
      | inr (i, e) ↦
          let (w, at) =
            get_elem?_of_lt inv.reqs_all i
              (subst (λ n. i < n) (sym v.size) (handle_index_to_wrapper-lt inv index e)) in
          let held : Wrapper = record (wrapper_at inv i) { state = ReqState.being_completed } in
          let now : get_elem? (set inv.reqs_all i held) i ≡ some held =
            ground (arith, get_elem?-set inv.reqs_all i i held at) in
          (i, ground arith, (held, ground (arith, now), refl))
    ]

finish_reply-IsValid :
    (t : Transceiver) (reply : Reply) (copy : UserCopy) (i : ℕ) (s : Shared)
    → IsValid s.inverter
    → Holds s.inverter i ReqState.being_completed
    → IsValid (finish_reply t reply copy (ItemRef.of_wrapper i) s).1.inverter
unfolding finish_reply
finish_reply-IsValid t reply copy i s v (w, at, h) =
    if_intro IsValid _ _ _
      (λ _. commit_item_completion-IsValid s.inverter i w v at (negate reply.error) h)
      (λ _. abort_item_completion-IsValid s.inverter i w v at h)

-- Whatever reply a driver sends, with whatever handle and buffer, the inverter stays valid.
pub send_reply-IsValid :
    (t : Transceiver) (reply : Reply) (copy : UserCopy) (s : Shared)
    → IsValid s.inverter
    → IsValid (send_reply t reply copy s).1.inverter
unfolding send_reply
send_reply-IsValid t reply copy s v =
    let begun = begin_item_completion s.inverter reply.handle_index reply.handle_seqnum in
    let v' = begin_item_completion-IsValid s.inverter reply.handle_index reply.handle_seqnum v in
    if_intro (λ (r : ℤ × Shared). IsValid r.1.inverter) (reply.handle_index == 0) _ _ (λ _. v)
      λ _. elim (Result-cases begun.0) [
        | inr (e, failed) ↦ ground (arith, v')
        | inl (found, e) ↦ elim (Option-cases found) [
          | inl nothing ↦ ground (arith, v')
          | inr (ref, there) ↦
              let (i, same, held) =
                begun-Holds s.inverter begun.1 reply.handle_index reply.handle_seqnum ref v
                  (ground arith) in
              let done =
                finish_reply-IsValid t reply copy i (record s { inverter = begun.1 }) v' held in
              ground (arith, done)
        ]
      ]
