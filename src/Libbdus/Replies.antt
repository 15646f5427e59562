-- ===== src/Libbdus/Replies.antt =====
-- What the work loop of libbdus/src/backend.c sends, and when it ends.
use bdus.Base.{
  ℕ, ◌≡◌, refl, sym, subst, ◌⊎◌, Bool, Option-cases, inl, inr, true, false, ◌&&◌, ◌||◌, List, [],
  ◌∷◌, some, arith,
}
use bdus.Base.Int.{ℤ, ◌==ℤ◌}
use bdus.Inverter.State.{is_notification}
use bdus.Transceiver.Copies.{UserItem}
use bdus.Transceiver.Calls.{Reply}
use bdus.Libbdus.Driver.{World}
use bdus.Libbdus.Worker.{
  Thread, Answer, interrupted, failed, item, Status, error, ioctl_failed, is_error, ends, replies,
  End, finished, crashed, waits, process_item, process_other_item, flush_and_terminate, loop,
  work_loop, reply_to, first_reply,
}

-- A reply to an item names the handle and the buffer of the item.
abbrev pub IsReplyTo : UserItem → Reply → Type 0
IsReplyTo i r =
    (r.handle_index ≡ i.handle_index)
    × (r.handle_seqnum ≡ i.handle_seqnum)
    × (r.user_ptr_or_buffer_index ≡ i.user_ptr_or_buffer_index)
    × (r.use_preallocated_buffer ≡ i.use_preallocated_buffer)

module _ {S : Type 0} where
  abbrev pub does_wait : End S → Bool
  does_wait waits = true
  does_wait _ = false

  abbrev pub fails_with : ℤ → End S → Bool
  fails_with e (finished (error e' ioctl_failed) terminates world) = (e' ==ℤ e) && terminates
  fails_with e _ = false

  -- Whether a loop may end so when an item arrives: on a notification, in a crash or with an error.
  abbrev pub may_end : UserItem → End S → Bool
  may_end i (finished status terminates world) = is_notification i.type || is_error status
  may_end i crashed = true
  may_end i waits = false

  -- What has to be sent from a reply on: after a signal the same reply again, after an ioctl that
  -- fails nothing, and after an item nothing more where the loop may end, or a reply to it.
  abbrev pub Due : Reply → List (Answer S) → End S × List Reply → Type 0
  Due reply [] (end, sent) = (sent ≡ reply ∷ []) × (does_wait end ≡ true)
  Due reply (interrupted ∷ answers) (end, sent) =
      (rest : List Reply) × (sent ≡ reply ∷ rest) × Due reply answers (end, rest)
  Due reply (failed e ∷ answers) (end, sent) = (sent ≡ reply ∷ []) × (fails_with e end ≡ true)
  Due reply (item i world ∷ answers) (end, sent) =
      (((sent ≡ reply ∷ []) × (may_end i end ≡ true))
        ⊎ ((next : Reply) × (rest : List Reply) × (sent ≡ reply ∷ rest)
            × IsReplyTo i next
            × (is_notification i.type ≡ false)
            × Due next answers (end, rest)))

  process_item_replies :
      (t : Thread S) (i : UserItem) (world : World S) (e : ℤ) (after : World S)
      → process_item t i world ≡ some (replies e after)
      → is_notification i.type ≡ false
  unfolding process_item flush_and_terminate
  process_item_replies t i world e after h = ground arith

  process_item_ends :
      (t : Thread S) (i : UserItem) (world : World S) (status : Status) (after : World S)
      → process_item t i world ≡ some (ends status after)
      → (is_notification i.type || is_error status) ≡ true
  unfolding process_item flush_and_terminate process_other_item
  process_item_ends t i world status after h = ground arith

  loop_goes_on :
      (t : Thread S) (reply : Reply) (world : World S) (i : UserItem) (current : World S)
      (answers : List (Answer S)) (neg_errno : ℤ) (after : World S)
      → process_item t i current ≡ some (replies neg_errno after)
      → loop t reply world (item i current ∷ answers) ≡ (
        (loop t (reply_to i neg_errno) after answers).0,
        reply ∷ (loop t (reply_to i neg_errno) after answers).1,
      )
  unfolding loop
  loop_goes_on t reply world i current answers neg_errno after e = ground (arith, e)

  loop-Due :
      (t : Thread S) (reply : Reply) (world : World S) (answers : List (Answer S))
      → Due reply answers (loop t reply world answers)
  unfolding loop reply_to
  loop-Due t reply world [] = (refl, refl)
  loop-Due t reply world (interrupted ∷ answers) = (_, refl, loop-Due t reply world answers)
  loop-Due t reply world (failed e ∷ answers) = (refl, ground arith)
  loop-Due t reply world (item i current ∷ answers) =
      elim (Option-cases (process_item t i current)) [
        | inl missing ↦ inl (ground (arith, missing), ground (arith, missing))
        | inr (ends status after, e) ↦
            inl (ground (arith, e), ground (arith, e, process_item_ends t i current status after e))
        | inr (replies neg_errno after, e) ↦
            subst (Due reply (item i current ∷ answers))
              (sym (loop_goes_on t reply world i current answers neg_errno after e))
              (inr (
                reply_to i neg_errno,
                _,
                refl,
                (refl, refl, refl, refl),
                process_item_replies t i current neg_errno after e,
                loop-Due t (reply_to i neg_errno) after answers,
              ))
      ]

  -- A thread sends a first reply that names no handle; one whose ioctl a signal interrupts it sends
  -- again, unchanged; after a request it sends a reply with the handle and the buffer of that request,
  -- and receives the next item by it, or ends in a crash or with an error; after a notification it
  -- ends, as it does with the error of an ioctl that fails; and it ends nowhere else.
  pub work_loop-Due :
      (seqnum : ℕ) (e : ℤ) (t : Thread S) (world : World S) (answers : List (Answer S))
      → (first : Reply) × (first.handle_index ≡ 0)
        × Due first answers (work_loop seqnum e t world answers)
  unfolding work_loop first_reply
  work_loop-Due seqnum e t world answers =
      (first_reply t.thread_index seqnum e, refl, loop-Due t _ world answers)
