-- ===== src/Transceiver/Resend.antt =====
-- A reply that libbdus sends again, since a signal interrupted the ioctl after the reply was sent
-- (kbdus/src/transceiver.c), does nothing.
use bdus.Base.{
  ℕ, ◌+◌, ◌^◌, ◌<◌, ◌≡◌, refl, sym, ap, subst, ◌∙◌, ◌==◌, Bool-cases, false, none, some,
  Option-cases, inl, inr, get_elem?, get_elem?_of_lt, get_elem?-set, get_or_of_some, set, arith,
}
use bdus.Base.Int.{ℤ, pos}
use bdus.Base.Errno.{einval, ok, err, Result-cases}
use bdus.Inverter.State.{ReqState, ItemRef, Wrapper, Inverter, wrapper_at, no_wrapper}
use bdus.Inverter.Wrappers.{handle_index_to_wrapper, to_being_completed}
use bdus.Inverter.Items.{begin_item_completion, begin_completion_of_wrapper, commit_item_completion}
use bdus.Inverter.Handles.{handle_index_to_wrapper_of, begin_item_completion-commit_item_completion}
use bdus.Inverter.Valid.{IsValid}
use bdus.Inverter.Operations.Finish.{begin_item_completion-IsValid, handle_index_to_wrapper-lt}
use bdus.Transceiver.Layout.{Transceiver}
use bdus.Transceiver.Calls.{Reply, Shared, UserCopy, finish_reply, send_reply, negate}

begin_item_completion_error :
    (inv : Inverter) (index seqnum : ℕ) (e : ℤ)
    → (begin_item_completion inv index seqnum).0 ≡ err e
    → e ≡ einval
unfolding begin_item_completion begin_completion_of_wrapper
begin_item_completion_error inv index seqnum e h = ground arith

begin_item_completion_stale :
    (inv : Inverter) (index seqnum : ℕ)
    → (begin_item_completion inv index seqnum).0 ≡ ok none
    → begin_item_completion inv index seqnum ≡ (ok none, inv)
unfolding begin_item_completion begin_completion_of_wrapper
begin_item_completion_stale inv index seqnum h = ground arith

-- The index of a handle is a `u16`: the wrapper that it finds has this index.
index_of_wrapper :
    (inv : Inverter) (index i : ℕ)
    → inv.num_reqs < 2 ^ 16
    → index < 2 ^ 16
    → handle_index_to_wrapper inv index ≡ some i
    → index ≡ i + 1
unfolding handle_index_to_wrapper
index_of_wrapper inv index i few small h = ground arith

-- The wrapper whose completion has begun still has the handle of the reply.
begun_handle :
    (inv : Inverter) (index seqnum : ℕ) (ref : ItemRef)
    → IsValid inv
    → index < 2 ^ 16
    → (begin_item_completion inv index seqnum).0 ≡ ok (some ref)
    → (i : ℕ) × (w : Wrapper) × (ref ≡ ItemRef.of_wrapper i)
      × (get_elem? (begin_item_completion inv index seqnum).1.reqs_all i ≡ some w)
      × (w.item.handle_index ≡ index)
      × (w.item.handle_seqnum ≡ seqnum)
unfolding begin_item_completion begin_completion_of_wrapper to_being_completed
begun_handle inv index seqnum ref v small h =
    elim (Option-cases (handle_index_to_wrapper inv index)) [
      | inl e ↦ absurd (ground (arith, e, h))
      | inr (i, e) ↦
          let (w, at) =
            get_elem?_of_lt inv.reqs_all i
              (subst (λ n. i < n) (sym v.size) (handle_index_to_wrapper-lt inv index e)) in
          let read = get_or_of_some inv.reqs_all i no_wrapper at in
          let held : Wrapper = record (wrapper_at inv i) { state = ReqState.being_completed } in
          let now : get_elem? (set inv.reqs_all i held) i ≡ some held =
            ground (arith, get_elem?-set inv.reqs_all i i held at) in
          let own = (handle_index_to_wrapper_of inv i w v at).1 in
          let given = index_of_wrapper inv index i (omega (arith, v.small)) small e in
          (
            i,
            held,
            ground (arith, e, h),
            ground (arith, e, h, now),
            ground (arith, own, given, read),
            ground (arith, e, h, read),
          )
    ]

pub send_reply_found :
    (t : Transceiver) (reply : Reply) (copy : UserCopy) (s : Shared) (ref : ItemRef)
    → (reply.handle_index == 0) ≡ false
    → (begin_item_completion s.inverter reply.handle_index reply.handle_seqnum).0 ≡ ok (some ref)
    → send_reply t reply copy s
      ≡ finish_reply t reply copy ref (record s {
        inverter = (begin_item_completion s.inverter reply.handle_index reply.handle_seqnum).1;
      })
unfolding send_reply
send_reply_found t reply copy s ref handle there = rw (handle, there) refl

pub finish_reply_sent :
    (t : Transceiver) (reply : Reply) (copy : UserCopy) (ref : ItemRef) (s : Shared)
    → (finish_reply t reply copy ref s).0 ≡ pos 0
    → (finish_reply t reply copy ref s).1.inverter
      ≡ commit_item_completion s.inverter ref (negate reply.error)
unfolding finish_reply
finish_reply_sent t reply copy ref s sent = ground (arith, sent)

send_reply_stale :
    (t : Transceiver) (reply : Reply) (copy : UserCopy) (s : Shared)
    → begin_item_completion s.inverter reply.handle_index reply.handle_seqnum
      ≡ (ok none, s.inverter)
    → send_reply t reply copy s ≡ (pos 0, s)
unfolding send_reply
send_reply_stale t reply copy s stale = ground (arith, stale)

-- The inverter after the reply was sent holds no request under its handle.
sent_is_stale :
    (t : Transceiver) (reply : Reply) (copy : UserCopy) (s : Shared) (ref : ItemRef)
    → IsValid s.inverter
    → reply.handle_index < 2 ^ 16
    → (reply.handle_index == 0) ≡ false
    → (begin_item_completion s.inverter reply.handle_index reply.handle_seqnum).0 ≡ ok (some ref)
    → (send_reply t reply copy s).0 ≡ pos 0
    → let inv = (send_reply t reply copy s).1.inverter in
      begin_item_completion inv reply.handle_index reply.handle_seqnum ≡ (ok none, inv)
sent_is_stale t reply copy s ref v small handle there sent =
    let index = reply.handle_index in
    let seqnum = reply.handle_seqnum in
    let begun = (begin_item_completion s.inverter index seqnum).1 in
    let v' = begin_item_completion-IsValid s.inverter index seqnum v in
    let (i, w, same, at, own, num) = begun_handle s.inverter index seqnum ref v small there in
    let found = send_reply_found t reply copy s ref handle there in
    let finished = finish_reply t reply copy ref (record s { inverter = begun }) in
    let done : finished.1.inverter ≡ commit_item_completion begun ref (negate reply.error) =
      finish_reply_sent t reply copy ref (record s { inverter = begun })
        (subst (λ (r : ℤ × Shared). r.0 ≡ pos 0) found sent) in
    let stale = begin_item_completion-commit_item_completion begun i w (negate reply.error) v' at in
    let last : (send_reply t reply copy s).1.inverter
        ≡ commit_item_completion begun (ItemRef.of_wrapper i) (negate reply.error) =
      ap (λ (r : ℤ × Shared). r.1.inverter) found
      ∙ done
      ∙ ap (λ r. commit_item_completion begun r (negate reply.error)) same in
    cc (last, stale, own, num)

-- In a valid inverter, with the 16 bits of a handle's index: a reply that was sent without an error
-- can be sent again, whatever the copy then gives, and it changes nothing and returns 0, so that
-- the retry after a signal is harmless.
pub send_reply-send_reply :
    (t : Transceiver) (reply : Reply) (copy copy' : UserCopy) (s : Shared)
    → IsValid s.inverter
    → reply.handle_index < 2 ^ 16
    → (send_reply t reply copy s).0 ≡ pos 0
    → send_reply t reply copy' (send_reply t reply copy s).1
      ≡ (pos 0, (send_reply t reply copy s).1)
unfolding send_reply
send_reply-send_reply t reply copy copy' s v small sent =
    let index = reply.handle_index in
    let seqnum = reply.handle_seqnum in
    let begun = begin_item_completion s.inverter index seqnum in
    elim (Bool-cases (index == 0)) [
      | inl no_handle ↦ ground (arith, no_handle)
      | inr handle ↦ elim (Result-cases begun.0) [
        | inr (e, failed) ↦
            absurd (ground (arith, begin_item_completion_error s.inverter index seqnum e failed))
        | inl (found, there) ↦ elim (Option-cases found) [
          | inl nothing ↦
              let stale =
                begin_item_completion_stale s.inverter index seqnum (there ∙ ap ok nothing) in
              ground (arith, stale)
          | inr (ref, got) ↦
              let there' = there ∙ ap ok got in
              send_reply_stale t reply copy' (send_reply t reply copy s).1
                (sent_is_stale t reply copy s ref v small handle there' sent)
        ]
      ]
    ]
