-- ===== src/Inverter/Moves.antt =====
-- What each operation of kbdus/src/inverter.c on items, notifications and flags does to the
-- requests in the queue.
use bdus.Base.{
  ℕ, ◌≡◌, refl, if◌then◌else◌, Bool, Option-cases, List-cases, true, false, [], ◌∷◌, inl, inr,
  Option, some, get_elem?, get_or_of_some, arith,
}
use bdus.Base.Int.{ℤ}
use bdus.Inverter.State.{
  ReqState, ItemRef, Wrapper, Inverter, wrapper_at, no_wrapper, is_notification, consume,
}
use bdus.Inverter.Wrappers.{handle_index_to_wrapper}
use bdus.Inverter.Lifecycle.{deactivate, submit_device_available_notification}
use bdus.Inverter.Items.{
  get_round, get_pass, commit_item_get, commit_get_of_wrapper, abort_item_get, abort_get_of_wrapper,
  begin_item_completion, begin_completion_of_wrapper, commit_item_completion,
  commit_completion_of_wrapper, abort_item_completion, abort_completion_of_wrapper, item_of,
  block_error, ioctl_error,
}
use bdus.Inverter.Valid.{IsValid}
use bdus.Inverter.Operations.Get.{first_awaiting}
use bdus.Inverter.Pending.{
  pending, pending-to_awaiting_completion, pending-to_being_completed, pending-to_free,
  pending-cancel_due_to_termination, pending-to_awaiting_get, pending-to_being_gotten,
}
pub mod Requests
pub mod Activate

pub pending_of_terminated :
    (inv : Inverter) → IsValid inv → inv.flags.terminated ≡ true → pending inv ≡ []
unfolding pending
pending_of_terminated inv v ended = elim (List-cases inv.reqs_awaiting_get) [
  | inl empty ↦ rw empty refl
  | inr (i, rest, e) ↦
      let (w, at, awaits) = first_awaiting inv i rest v e in
      absurd (ground (arith, v.at_rest ended i w at, awaits))
]

pub abort_item_get-request :
    (inv : Inverter) (i : ℕ)
    → is_notification (wrapper_at inv i).item.type ≡ false
    → abort_item_get inv (ItemRef.of_wrapper i) ≡ abort_get_of_wrapper inv i
unfolding abort_item_get item_of
abort_item_get-request inv i request = ground arith

-- A wrapper that a thread holds, in a valid inverter.
module _ (inv : Inverter) (i : ℕ) (w : Wrapper) (at : get_elem? inv.reqs_all i ≡ some w) where
  pub commits_get_same :
      w.state ≡ ReqState.being_gotten
      → pending (commit_item_get inv (ItemRef.of_wrapper i)) ≡ pending inv
  unfolding commit_item_get commit_get_of_wrapper
  commits_get_same h = ground (
    arith,
    get_or_of_some inv.reqs_all i no_wrapper at,
    pending-cancel_due_to_termination inv i,
    pending-to_awaiting_completion inv i,
  )

  pub aborts_get_returns :
      w.state ≡ ReqState.being_gotten
      → is_notification w.item.type ≡ false
      → pending (abort_item_get inv (ItemRef.of_wrapper i))
        ≡ (if inv.flags.terminated then pending inv else (wrapper_at inv i).item.req ∷ pending inv)
  unfolding abort_get_of_wrapper
  aborts_get_returns h request =
      let read = get_or_of_some inv.reqs_all i no_wrapper at in
      ground (
        arith,
        read,
        abort_item_get-request inv i (ground (arith, read, request)),
        pending-cancel_due_to_termination inv i,
        pending-to_awaiting_get inv i,
      )

  pub commits_completion_same :
      (neg_errno : ℤ)
      → w.state ≡ ReqState.being_completed
      → pending (commit_item_completion inv (ItemRef.of_wrapper i) neg_errno) ≡ pending inv
  unfolding commit_item_completion commit_completion_of_wrapper
  commits_completion_same neg_errno h = ground (
    arith,
    get_or_of_some inv.reqs_all i no_wrapper at,
    pending-cancel_due_to_termination inv i,
    pending-to_free inv i (block_error neg_errno) (ioctl_error neg_errno),
  )

  pub aborts_completion_same :
      w.state ≡ ReqState.being_completed
      → pending (abort_item_completion inv (ItemRef.of_wrapper i)) ≡ pending inv
  unfolding abort_item_completion abort_completion_of_wrapper
  aborts_completion_same h = ground (
    arith,
    get_or_of_some inv.reqs_all i no_wrapper at,
    pending-cancel_due_to_termination inv i,
    pending-to_awaiting_completion inv i,
  )

pub begins_completion_same :
    (inv : Inverter) (index seqnum : ℕ)
    → pending (begin_item_completion inv index seqnum).1 ≡ pending inv
unfolding begin_item_completion begin_completion_of_wrapper
begins_completion_same inv index seqnum = elim (Option-cases (handle_index_to_wrapper inv index)) [
  | inl e ↦ ground (arith, e)
  | inr (i, e) ↦ ground (arith, e, pending-to_being_completed inv i)
]

pub pending_same :
    (inv inv' : Inverter)
    → inv'.reqs_all ≡ inv.reqs_all
    → inv'.reqs_awaiting_get ≡ inv.reqs_awaiting_get
    → pending inv' ≡ pending inv
unfolding pending
pending_same inv inv' all awaiting = ground (arith, all, awaiting)

abbrev pub is_request : Option ItemRef → Bool
is_request (some (ItemRef.of_wrapper i)) = true
is_request _ = false

pub gets_same :
    (inv : Inverter)
    → is_request (get_round inv).1 ≡ false
    → pending (get_round inv).0 ≡ pending inv
unfolding get_round get_pass
gets_same inv other = elim (List-cases inv.reqs_awaiting_get) [
  | inl e ↦ pending_same inv _ (ground (arith, e)) (ground (arith, e))
  | inr (i, rest, e) ↦ pending_same inv _ (ground (arith, e)) (ground (arith, e))
]

pub gets_first :
    (inv : Inverter) (i : ℕ)
    → (get_round inv).1 ≡ some (ItemRef.of_wrapper i)
    → pending inv ≡ (wrapper_at inv i).item.req ∷ pending (get_round inv).0
unfolding get_round get_pass
gets_first inv i got = elim (List-cases inv.reqs_awaiting_get) [
  | inl e ↦ absurd (ground (arith, e))
  | inr (j, rest, e) ↦
      let drained : Inverter = record inv {
        item_is_awaiting_get = consume inv.item_is_awaiting_get;
      } in
      ground
        (arith, e, pending-to_being_gotten drained j rest e, pending_same inv drained refl refl)
]

-- The operations on the notifications and the flags.
pub notifies_same :
    (inv : Inverter) → pending (submit_device_available_notification inv) ≡ pending inv
unfolding submit_device_available_notification
notifies_same inv = pending_same inv _ (ground arith) (ground arith)

pub aborts_flush_same :
    (inv : Inverter) → pending (abort_item_get inv ItemRef.req_flush_terminate) ≡ pending inv
unfolding abort_item_get
aborts_flush_same inv = pending_same inv _ refl refl

pub aborts_available_same :
    (inv : Inverter) → pending (abort_item_get inv ItemRef.req_dev_available) ≡ pending inv
unfolding abort_item_get
aborts_available_same inv = notifies_same inv

pub deactivates_same :
    (inv : Inverter) (flush : Bool) → pending (deactivate inv flush) ≡ pending inv
unfolding deactivate
deactivates_same inv flush = pending_same inv _ refl refl
