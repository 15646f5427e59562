-- ===== src/System/Interleaved.antt =====
-- A thread that replies to an item after other threads have run (kbdus/src/inverter.c,
-- kbdus/src/transceiver.c and libbdus/src/backend.c).
use bdus.Base.{
  ℕ, ◌+◌, ◌^◌, ◌<◌, ◌≡◌, sym, ap, subst, ◌∙◌, ◌==◌, Bool, false, List, ◌∷◌, length, some, get_elem?,
  get_or_of_some, Option-cases, inl, inr, arith,
}
use bdus.Base.Int.{ℤ, pos}
use bdus.Base.Errno.{ok}
use bdus.Inverter.State.{ReqState, ItemRef, Wrapper, Inverter, same_state, wrapper_at, no_wrapper}
use bdus.Inverter.Valid.{IsValid}
use bdus.Inverter.History.{Reach}
use bdus.Inverter.Items.{
  begin_item_completion, begin_completion_of_wrapper, commit_item_completion,
  commit_completion_of_wrapper,
}
use bdus.Inverter.Wrappers.{
  handle_index_to_wrapper, to_awaiting_completion, to_being_completed, to_free,
  cancel_due_to_termination,
}
use bdus.Inverter.Pending.{pending, get_or-set, pending-to_awaiting_completion}
use bdus.Inverter.Reuse.{begin_item_completion-Reach}
use bdus.Transceiver.Layout.{Transceiver}
use bdus.Transceiver.Copies.{UserItem}
use bdus.Transceiver.Calls.{Shared, UserCopy, Reply, send_reply, receive_item, Received, negate}
use bdus.Transceiver.Resend.{send_reply_found, finish_reply_sent}
use bdus.Libbdus.Driver.{World}
use bdus.Libbdus.Worker.{Thread, Answer, process_item, replies, reply_to, loop}
use bdus.System.Delivered.{Delivered, receive_item-Delivered}
use bdus.System.Serving.{held_in, item_kept}
use bdus.System.Rounds.{second_reply, replied_is_request}

-- The wrapper of an item that was delivered waits with the request that was first in the queue.
waits_with :
    (inv : Inverter) (filled : UserItem) (after : Inverter)
    → (d : Delivered inv filled after)
    → (w : Wrapper) × (get_elem? after.reqs_all d.i ≡ some w)
      × (same_state w.state ReqState.free ≡ false)
      × (w.item.handle_index ≡ filled.handle_index)
      × (w.item.handle_seqnum ≡ filled.handle_seqnum)
      × (pending inv ≡ w.item.req ∷ pending after)
unfolding to_awaiting_completion
waits_with inv filled after d =
    let (w, at, h) = d.gotten.held in
    let waiting = to_awaiting_completion d.begun d.i in
    let (w1, at1, h1) = held_in d.begun d.i w ReqState.awaiting_completion at in
    let item : w1.item ≡ (wrapper_at d.begun d.i).item =
      ap (λ (w : Wrapper). w.item) (sym (get_or_of_some waiting.reqs_all d.i no_wrapper at1))
      ∙ item_kept d.begun d.i ReqState.awaiting_completion in
    let queue : pending after ≡ pending d.begun =
      ap pending d.waits ∙ pending-to_awaiting_completion d.begun d.i in
    (
      w1,
      subst (λ (a : Inverter). get_elem? a.reqs_all d.i ≡ some w1) (sym d.waits) at1,
      ground (arith, h1),
      cc (item, d.index),
      cc (item, d.seqnum),
      cc (d.gotten.first, item, queue),
    )

begun_kept :
    (inv : Inverter) (index seqnum i : ℕ)
    → let begun = (begin_item_completion inv index seqnum).1 in
      (begun.blk ≡ inv.blk) × ((wrapper_at begun i).item ≡ (wrapper_at inv i).item)
unfolding begin_item_completion begin_completion_of_wrapper to_being_completed
begun_kept inv index seqnum i = elim (Option-cases (handle_index_to_wrapper inv index)) [
  | inl e ↦ (ground (arith, e), ground (arith, e))
  | inr (j, e) ↦
      let held : Wrapper = record (wrapper_at inv j) { state = ReqState.being_completed } in
      (ground (arith, e), ground (arith, e, get_or-set inv.reqs_all j i held))
]

-- A completion that is committed completes the request of its wrapper, whether the inverter is
-- terminated or not.
commits_once :
    (inv : Inverter) (i : ℕ) (neg_errno : ℤ)
    → (commit_item_completion inv (ItemRef.of_wrapper i) neg_errno).blk.completed
      ≡ (wrapper_at inv i).item.req ∷ inv.blk.completed
unfolding commit_item_completion commit_completion_of_wrapper cancel_due_to_termination to_free
commits_once inv i neg_errno = ground arith

-- A reply that finds a wrapper completes the request of that wrapper.
reply_completes_found :
    (t : Transceiver) (reply : Reply) (copy : UserCopy) (s : Shared) (i : ℕ)
    → (reply.handle_index == 0) ≡ false
    → (begin_item_completion s.inverter reply.handle_index reply.handle_seqnum).0
      ≡ ok (some (ItemRef.of_wrapper i))
    → (send_reply t reply copy s).0 ≡ pos 0
    → (send_reply t reply copy s).1.inverter.blk.completed
      ≡ (wrapper_at s.inverter i).item.req ∷ s.inverter.blk.completed
reply_completes_found t reply copy s i handle finds sent =
    let ref = ItemRef.of_wrapper i in
    let begun = (begin_item_completion s.inverter reply.handle_index reply.handle_seqnum).1 in
    let goes_on = send_reply_found t reply copy s ref handle finds in
    let done : (send_reply t reply copy s).1.inverter
        ≡ commit_item_completion begun ref (negate reply.error) =
      ap (λ (r : ℤ × Shared). r.1.inverter) goes_on
      ∙ finish_reply_sent t reply copy ref (record s { inverter = begun })
          (subst (λ (r : ℤ × Shared). r.0 ≡ pos 0) goes_on sent) in
    let kept = begun_kept s.inverter reply.handle_index reply.handle_seqnum i in
    ap (λ (inv : Inverter). inv.blk.completed) done
    ∙ commits_once begun i (negate reply.error)
    ∙ cc (kept.0, kept.1)

-- In a valid inverter: if a thread receives an item without an error, other threads then run in whatever
-- order, within the premises of `Step`, with fewer than 2^64 completions, and the reply with which the loop
-- of the thread answers the item is sent without an error and finds a request, then that request is the
-- one that was first in the queue when the item was received, a callback of the driver has served it, and
-- it is completed once more.
pub loop-Reach :
    {S : Type 0} (thread : Thread S) (t : Transceiver) (rounds : ℕ) (signal copied : Bool)
    (named filled : UserItem) (s s' later : Shared) (r0 r1 : Reply) (rest : List Reply)
    (world current : World S) (answers : List (Answer S)) (copy : UserCopy) (ref : ItemRef)
    → IsValid s.inverter
    → receive_item t rounds signal copied named s ≡ some (Received.returns (pos 0) filled s')
    → Reach s'.inverter later.inverter
    → length later.inverter.blk.completed < length s'.inverter.blk.completed + 2 ^ 64
    → (loop thread r0 world (Answer.item filled current ∷ answers)).1 ≡ r0 ∷ r1 ∷ rest
    → (begin_item_completion later.inverter r1.handle_index r1.handle_seqnum).0 ≡ ok (some ref)
    → (send_reply t r1 copy later).0 ≡ pos 0
    → (req : ℕ) × (e : ℤ) × (after : World S) × (pending s.inverter ≡ req ∷ pending s'.inverter)
      × (process_item thread filled current ≡ some (replies e after))
      × ((send_reply t r1 copy later).1.inverter.blk.completed ≡ req ∷ later.inverter.blk.completed)
unfolding reply_to
loop-Reach thread t rounds signal copied named filled s s' later r0 r1 rest world current answers
      copy ref v got others few said finds sent =
    let (e, after, ran, this) = second_reply thread r0 r1 rest filled world current answers said in
    let d =
      receive_item-Delivered t rounds signal copied named filled s s' v got
        (replied_is_request thread filled current after e ran) in
    let (w, at, used, index, seqnum, first) = waits_with s.inverter filled s'.inverter d in
    let own_index : r1.handle_index ≡ w.item.handle_index =
      ap (λ (r : Reply). r.handle_index) this ∙ sym index in
    let own_seqnum : r1.handle_seqnum ≡ w.item.handle_seqnum =
      ap (λ (r : Reply). r.handle_seqnum) this ∙ sym seqnum in
    let (own, same) =
      begin_item_completion-Reach d.i w ref d.valid others at used few
        (cc (own_index, own_seqnum, finds)) in
    let handle : (r1.handle_index == 0) ≡ false =
      ground (arith, own_index, d.valid.wrappers d.i w at) in
    let completes =
      reply_completes_found t r1 copy later d.i handle (finds ∙ ap (λ r. ok (some r)) own) sent in
    (w.item.req, e, after, first, ran, cc (completes, same))
