-- ===== src/System/Serving.antt =====
-- A request on its way: from the queue of the inverter (kbdus/src/inverter.c) through the ioctl
-- (kbdus/src/transceiver.c) to the callback of the driver (libbdus/src/backend.c), and the reply back.
use bdus.Base.{
  ℕ, ◌+◌, ◌≡◌, refl, sym, ap, subst, ◌∙◌, false, ◌∷◌, some, Option, get_elem?, get_elem?-set,
  get_or_of_some, arith,
}
use bdus.Base.Int.{ℤ, pos}
use bdus.Base.Errno.{Result, ok}
use bdus.Inverter.State.{ReqState, ItemRef, Wrapper, Inverter, wrapper_at, set_state, no_wrapper}
use bdus.Inverter.Valid.{IsValid}
use bdus.Inverter.Items.{
  begin_item_completion, commit_item_completion, commit_completion_of_wrapper, block_error,
  ioctl_error,
}
use bdus.Inverter.Wrappers.{to_awaiting_completion, to_being_completed, to_free}
use bdus.Inverter.History.{Holds}
use bdus.Inverter.Pending.{
  pending, get_or-set, pending-to_awaiting_completion, pending-to_being_completed,
}
use bdus.Inverter.Moves.{commits_completion_same}
use bdus.Inverter.Handles.{begin_item_completion_of_handle, handle_index_to_wrapper_of}
use bdus.Transceiver.Layout.{Transceiver}
use bdus.Transceiver.Copies.{UserItem}
use bdus.Transceiver.Calls.{Shared, UserCopy, send_reply, negate}
use bdus.Transceiver.Resend.{send_reply_found, finish_reply_sent}
use bdus.Libbdus.Worker.{reply_to}
use bdus.System.Gotten.{Gotten}
use bdus.System.Delivered.{Delivered}

-- What becomes of the first request of the queue: it is completed once, with the error.
pub record Served (inv inv' : Inverter) (e : ℤ) : Type 0 where
  pub req : ℕ
  pub was_first : pending inv ≡ req ∷ pending inv'
  pub completed : inv'.blk.completed ≡ req ∷ inv.blk.completed
  pub block_layer : (inv'.blk.pdu req).error ≡ block_error (negate e)
  pub caller : (inv'.blk.pdu req).error_ioctl ≡ ioctl_error (negate e)

-- The item of a wrapper outlives a change of its state.
pub item_kept :
    (inv : Inverter) (i : ℕ) (s : ReqState)
    → (wrapper_at (set_state inv i s) i).item ≡ (wrapper_at inv i).item
item_kept inv i s =
    ground (arith, get_or-set inv.reqs_all i i (record (wrapper_at inv i) { state = s }))

pub held_in :
    (inv : Inverter) (i : ℕ) (w : Wrapper) (s : ReqState)
    → get_elem? inv.reqs_all i ≡ some w
    → Holds (set_state inv i s) i s
held_in inv i w s at =
    let v : Wrapper = record (wrapper_at inv i) { state = s } in
    (v, ground (arith, get_elem?-set inv.reqs_all i i v at), refl)

-- A completion that is committed while the inverter runs.
module _ (inv : Inverter) (i : ℕ) (neg_errno : ℤ) (running : inv.flags.terminated ≡ false) where
  committed_completed :
      (commit_item_completion inv (ItemRef.of_wrapper i) neg_errno).blk.completed
      ≡ (wrapper_at inv i).item.req ∷ inv.blk.completed
  unfolding commit_item_completion commit_completion_of_wrapper to_free
  committed_completed = ground (arith, running)

  committed_errors :
      let p =
        (commit_item_completion inv (ItemRef.of_wrapper i) neg_errno).blk.pdu
          (wrapper_at inv i).item.req in
      (p.error ≡ block_error neg_errno) × (p.error_ioctl ≡ ioctl_error neg_errno)
  unfolding commit_item_completion commit_completion_of_wrapper to_free
  committed_errors = (ground (arith, running), ground (arith, running))

-- The completion of a wrapper whose request was gotten.
begun_and_committed :
    (inv begun : Inverter) (i : ℕ) (e : ℤ)
    → Gotten inv begun i
    → Served inv
        (commit_item_completion
          (to_being_completed (to_awaiting_completion begun i) i)
          (ItemRef.of_wrapper i)
          (negate e))
        e
unfolding to_being_completed to_awaiting_completion
begun_and_committed inv begun i e g =
    let waiting = to_awaiting_completion begun i in
    let completing = to_being_completed waiting i in
    let (w, at, h) = g.held in
    let (w1, at1, h1) = held_in begun i w ReqState.awaiting_completion at in
    let (w2, at2, h2) = held_in waiting i w1 ReqState.being_completed at1 in
    let same : (wrapper_at completing i).item ≡ (wrapper_at begun i).item =
      item_kept waiting i ReqState.being_completed
      ∙ item_kept begun i ReqState.awaiting_completion in
    let queue : pending (commit_item_completion completing (ItemRef.of_wrapper i) (negate e))
        ≡ pending begun =
      commits_completion_same completing i w2 at2 (negate e) h2
      ∙ pending-to_being_completed waiting i
      ∙ pending-to_awaiting_completion begun i in
    record {
      req = (wrapper_at completing i).item.req;
      was_first =
          g.first
          ∙ ap (λ item. item.req ∷ pending begun) (sym same)
          ∙ ap (λ q. (wrapper_at completing i).item.req ∷ q) (sym queue);
      completed =
          committed_completed completing i (negate e) g.running
          ∙ ap (λ b. (wrapper_at completing i).item.req ∷ b.completed) g.same_blk;
      block_layer = (committed_errors completing i (negate e) g.running).0;
      caller = (committed_errors completing i (negate e) g.running).1;
    }

-- The reply to an item that was delivered finds its wrapper.
reply_finds :
    (inv : Inverter) (filled : UserItem) (after : Inverter)
    → (d : Delivered inv filled after)
    → (begin_item_completion after filled.handle_index filled.handle_seqnum ≡ (
      ok (some (ItemRef.of_wrapper d.i)),
      to_being_completed (to_awaiting_completion d.begun d.i) d.i,
    ))
      × (filled.handle_index ≡ d.i + 1)
unfolding to_awaiting_completion
reply_finds inv filled after d =
    let (w, at, h) = d.gotten.held in
    let waiting = to_awaiting_completion d.begun d.i in
    let v : IsValid waiting = subst IsValid d.waits d.valid in
    let (w1, at1, h1) = held_in d.begun d.i w ReqState.awaiting_completion at in
    let item : w1.item ≡ (wrapper_at d.begun d.i).item =
      ap (λ (w : Wrapper). w.item) (sym (get_or_of_some waiting.reqs_all d.i no_wrapper at1))
      ∙ item_kept d.begun d.i ReqState.awaiting_completion in
    let found = begin_item_completion_of_handle waiting d.i w1 v at1 h1 in
    let index = (handle_index_to_wrapper_of waiting d.i w1 v at1).1 in
    (cc (found, item, d.waits, d.index, d.seqnum), cc (index, item, d.index))

pub reply_completes :
    (t : Transceiver) (copy : UserCopy) (inv : Inverter) (filled : UserItem) (s : Shared) (e : ℤ)
    → Delivered inv filled s.inverter
    → (send_reply t (reply_to filled e) copy s).0 ≡ pos 0
    → Served inv (send_reply t (reply_to filled e) copy s).1.inverter e
unfolding reply_to
reply_completes t copy inv filled s e d sent =
    let (found, index) = reply_finds inv filled s.inverter d in
    let reply = reply_to filled e in
    let ref = ItemRef.of_wrapper d.i in
    let begun = (begin_item_completion s.inverter filled.handle_index filled.handle_seqnum).1 in
    let goes_on =
      send_reply_found t reply copy s ref (ground (arith, index))
        (ap (λ (r : Result (Option ItemRef) × Inverter). r.0) found) in
    let done : (send_reply t reply copy s).1.inverter
        ≡ commit_item_completion begun ref (negate e) =
      ap (λ (r : ℤ × Shared). r.1.inverter) goes_on
      ∙ finish_reply_sent t reply copy ref (record s { inverter = begun })
          (subst (λ (r : ℤ × Shared). r.0 ≡ pos 0) goes_on sent) in
    let wrapper : begun ≡ to_being_completed (to_awaiting_completion d.begun d.i) d.i =
      ap (λ (r : Result (Option ItemRef) × Inverter). r.1) found in
    subst (λ inv'. Served inv inv' e)
      (sym (done ∙ ap (λ b. commit_item_completion b ref (negate e)) wrapper))
      (begun_and_committed inv d.begun d.i e d.gotten)
