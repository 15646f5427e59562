-- ===== src/Inverter/Operations/Finish.antt =====
-- Committing and aborting a get, and the completion of a request, keep the invariant
-- (kbdus/src/inverter.c). The thread holds the wrapper: its state is the one that the source's
-- debug checks expect.
use bdus.Base.{
  ℕ, ◌≡◌, refl, inl, inr, some, true, get_elem?, get_elem?_of_lt, get_or_of_some, arith,
  Option-cases, Option, ◌<◌, if_intro, if◌then◌else◌, false, not, ◌==◌,
}
use bdus.Base.Int.{ℤ}
use bdus.Base.Errno.{eio, enodev, Result}
use bdus.Inverter.State.{
  ReqState, ItemRef, Wrapper, Inverter, no_wrapper, complete, same_state, wrapper_at,
  is_notification,
}
use bdus.Inverter.Wrappers.{
  cancel_due_to_termination, handle_index_to_wrapper, to_awaiting_completion,
}
use bdus.Inverter.Lifecycle.{submit_device_available_notification}
use bdus.Inverter.Items.{
  commit_item_get, abort_item_get, begin_item_completion, begin_completion_of_wrapper,
  commit_item_completion, abort_item_completion, abort_get_of_wrapper,
}
use bdus.Inverter.Valid.{IsValid, held}
use bdus.Inverter.Sizes.{length-le-size}
use bdus.Inverter.Transitions.Valid.{
  to_free-IsValid, to_awaiting_get-IsValid, to_awaiting_completion-IsValid,
  to_being_completed-IsValid,
}
use bdus.Inverter.Operations.Get.{flags-IsValid}

module _ (inv : Inverter) (i : ℕ) (w : Wrapper) (v : IsValid inv)
    (e : get_elem? inv.reqs_all i ≡ some w) where
  pub cancel_due_to_termination-IsValid :
      same_state w.state ReqState.free ≡ false → IsValid (cancel_due_to_termination inv i)
  unfolding cancel_due_to_termination
  cancel_due_to_termination-IsValid h = to_free-IsValid inv i w v e eio enodev h

  -- The two ways on from a held wrapper that is not queued.
  to_completion-IsValid :
      held ReqState.free (some w) ≡ 0
      → held ReqState.awaiting_get (some w) ≡ 0
      → IsValid (
          if inv.flags.terminated
          then cancel_due_to_termination inv i
          else to_awaiting_completion inv i)
  to_completion-IsValid h k =
      if_intro IsValid inv.flags.terminated _ _
        (λ t. cancel_due_to_termination-IsValid (ground arith))
        (λ f. to_awaiting_completion-IsValid inv i w v e h k f)

  pub commit_item_get-IsValid :
      w.state ≡ ReqState.being_gotten → IsValid (commit_item_get inv (ItemRef.of_wrapper i))
  unfolding commit_item_get
  commit_item_get-IsValid h =
      if_intro IsValid (is_notification (wrapper_at inv i).item.type) _ _ (λ _. v)
        (λ _. to_completion-IsValid (ground arith) (ground arith))

  abort_get_of_wrapper-IsValid :
      w.state ≡ ReqState.being_gotten → IsValid (abort_get_of_wrapper inv i)
  unfolding abort_get_of_wrapper
  abort_get_of_wrapper-IsValid h =
      if_intro IsValid inv.flags.terminated _ _
        (λ t. cancel_due_to_termination-IsValid (ground arith))
        (λ f. to_awaiting_get-IsValid inv i w v e (ground arith) (ground arith) f)

  -- A held wrapper holds a request, never a notification.
  pub abort_item_get_of_wrapper :
      w.state ≡ ReqState.being_gotten
      → abort_item_get inv (ItemRef.of_wrapper i) ≡ abort_get_of_wrapper inv i
  unfolding abort_item_get
  abort_item_get_of_wrapper h =
      ground (arith, v.wrappers i w e, get_or_of_some inv.reqs_all i no_wrapper e)

  pub abort_item_get-IsValid :
      w.state ≡ ReqState.being_gotten → IsValid (abort_item_get inv (ItemRef.of_wrapper i))
  abort_item_get-IsValid h = rw (abort_item_get_of_wrapper h) (abort_get_of_wrapper-IsValid h)

  pub commit_item_completion-IsValid :
      (neg_errno : ℤ)
      → w.state ≡ ReqState.being_completed
      → IsValid (commit_item_completion inv (ItemRef.of_wrapper i) neg_errno)
  unfolding commit_item_completion
  commit_item_completion-IsValid neg_errno h =
      if_intro IsValid inv.flags.terminated _ _
        (λ t. cancel_due_to_termination-IsValid (ground arith))
        (λ f. to_free-IsValid inv i w v e _ _ (ground arith))

  pub abort_item_completion-IsValid :
      w.state ≡ ReqState.being_completed
      → IsValid (abort_item_completion inv (ItemRef.of_wrapper i))
  unfolding abort_item_completion
  abort_item_completion-IsValid h = to_completion-IsValid (ground arith) (ground arith)

-- A handle index that is accepted names a wrapper.
pub handle_index_to_wrapper-lt :
    (inv : Inverter) (index : ℕ) {i : ℕ}
    → handle_index_to_wrapper inv index ≡ some i
    → i < inv.num_reqs
unfolding handle_index_to_wrapper
handle_index_to_wrapper-lt inv index h = ground arith

begin_completion_of_wrapper-IsValid :
    (inv : Inverter) (seqnum i : ℕ)
    → IsValid inv
    → i < inv.num_reqs
    → IsValid (begin_completion_of_wrapper inv seqnum i).1
unfolding begin_completion_of_wrapper
begin_completion_of_wrapper-IsValid inv seqnum i v lt =
    let (w, at) = get_elem?_of_lt inv.reqs_all i (rw v.size lt) in
    let at' = get_or_of_some inv.reqs_all i no_wrapper at in
    if_intro (λ (r : Result (Option ItemRef) × Inverter). IsValid r.1)
      (not ((wrapper_at inv i).item.handle_seqnum == seqnum)) _ _ (λ _. v)
      (λ _.
        if_intro (λ (r : Result (Option ItemRef) × Inverter). IsValid r.1)
          (not (same_state (wrapper_at inv i).state ReqState.awaiting_completion)) _ _ (λ _. v)
          (λ h.
            to_being_completed-IsValid inv i w v at (ground (arith, at')) (ground (arith, at'))))

-- The handle comes from user space: the inverter stays valid whatever it is.
pub begin_item_completion-IsValid :
    (inv : Inverter) (index seqnum : ℕ)
    → IsValid inv
    → IsValid (begin_item_completion inv index seqnum).1
unfolding begin_item_completion
begin_item_completion-IsValid inv index seqnum v =
    elim (Option-cases (handle_index_to_wrapper inv index)) [
      | inl e ↦ rw (e, begin_item_completion) v
      | inr (i, e) ↦
          rw (e, begin_item_completion)
            (begin_completion_of_wrapper-IsValid inv seqnum i v
              (handle_index_to_wrapper-lt inv index e))
    ]

pub submit_device_available_notification-IsValid :
    (inv : Inverter) → IsValid inv → IsValid (submit_device_available_notification inv)
unfolding submit_device_available_notification
submit_device_available_notification-IsValid inv v =
    if_intro IsValid inv.flags.send_device_available _ _ (λ _. v)
      (λ unsent.
        flags-IsValid inv (record (inv.flags) { send_device_available = true })
          (complete inv.item_is_awaiting_get) v refl
          (ground (
            arith,
            v.wakeups,
            v.size,
            v.small,
            length-le-size ReqState.awaiting_get inv.reqs_all inv.reqs_awaiting_get
                v.lists.awaiting_list,
          )))

-- A notification that could not be delivered is sent again.
pub abort_notification-IsValid :
    (inv : Inverter)
    → IsValid inv
    → IsValid (abort_item_get inv ItemRef.req_dev_available)
      × (inv.flags.deactivated ≡ true → IsValid (abort_item_get inv ItemRef.req_flush_terminate))
unfolding abort_item_get
abort_notification-IsValid inv v = (
  submit_device_available_notification-IsValid inv v,
  λ h.
      flags-IsValid inv (record (inv.flags) { deactivated_not_flushed = true })
        inv.item_is_awaiting_get v refl (ground (arith, v.wakeups)),
)
