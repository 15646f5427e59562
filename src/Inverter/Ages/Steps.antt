-- ===== src/Inverter/Ages/Steps.antt =====
-- The functions of kbdus/src/inverter.c on items and flags give the next sequence number to a wrapper
-- only with a completion.
use bdus.Base.{
  ℕ, ◌≡◌, refl, sym, subst, ◌==◌, if_intro, Bool-cases, Option-cases, List-cases, Bool, false, not,
  ◌||◌, none, inl, inr, Option, some, arith,
}
use bdus.Base.Int.{ℤ}
use bdus.Base.Errno.{eio, enodev, einval, Result, ok, err}
use bdus.Inverter.State.{ReqState, ItemRef, Inverter, same_state, wrapper_at, is_notification}
use bdus.Inverter.Wrappers.{
  handle_index_to_wrapper, to_awaiting_get, to_being_gotten, to_awaiting_completion,
  to_being_completed, cancel_due_to_termination,
}
use bdus.Inverter.Lifecycle.{deactivate, submit_device_available_notification}
use bdus.Inverter.Items.{
  get_round, get_pass, commit_item_get, commit_get_of_wrapper, abort_item_get, abort_get_of_wrapper,
  begin_item_completion, begin_completion_of_wrapper, commit_item_completion,
  commit_completion_of_wrapper, abort_item_completion, abort_completion_of_wrapper, block_error,
  ioctl_error,
}
use bdus.Inverter.Moves.{abort_item_get-request}
use bdus.Inverter.Ages.{Tracks, Tracks-kept, Tracks-set_state, Tracks-to_free}

module _ (i : ℕ) where
  pub Tracks-cancel : (inv : Inverter) (j : ℕ) → Tracks i inv (cancel_due_to_termination inv j)
  unfolding cancel_due_to_termination
  Tracks-cancel inv j = Tracks-to_free i inv j eio enodev

  pub Tracks-to_awaiting_get : (inv : Inverter) (j : ℕ) → Tracks i inv (to_awaiting_get inv j)
  unfolding to_awaiting_get
  Tracks-to_awaiting_get inv j = Tracks-set_state i inv _ j ReqState.awaiting_get refl refl refl

  Tracks-to_being_gotten : (inv : Inverter) (j : ℕ) → Tracks i inv (to_being_gotten inv j)
  unfolding to_being_gotten
  Tracks-to_being_gotten inv j = Tracks-set_state i inv _ j ReqState.being_gotten refl refl refl

  Tracks-to_awaiting_completion :
      (inv : Inverter) (j : ℕ) → Tracks i inv (to_awaiting_completion inv j)
  unfolding to_awaiting_completion
  Tracks-to_awaiting_completion inv j =
      Tracks-set_state i inv _ j ReqState.awaiting_completion refl refl refl

  Tracks-to_being_completed : (inv : Inverter) (j : ℕ) → Tracks i inv (to_being_completed inv j)
  unfolding to_being_completed
  Tracks-to_being_completed inv j =
      Tracks-set_state i inv _ j ReqState.being_completed refl refl refl

  pub gets-Tracks : (inv : Inverter) → Tracks i inv (get_round inv).0
  unfolding get_round get_pass to_being_gotten
  gets-Tracks inv =
      let f = inv.flags in
      elim (List-cases inv.reqs_awaiting_get) [
        | inl e ↦ Tracks-kept i inv _ (ground (arith, e)) (ground (arith, e))
        | inr (j, rest, e) ↦
            elim (Bool-cases (
              f.deactivated_not_flushed || f.deactivated || f.terminated
              || f.send_device_available)) [
                | inl h ↦ Tracks-kept i inv _ (ground (arith, e, h)) (ground (arith, e, h))
                | inr h ↦
                    Tracks-set_state i inv _ j ReqState.being_gotten refl (ground (arith, e, h))
                      (ground (arith, e, h))
              ]
      ]

  pub commits_get-Tracks :
      (inv : Inverter) (j : ℕ) → Tracks i inv (commit_item_get inv (ItemRef.of_wrapper j))
  unfolding commit_item_get commit_get_of_wrapper
  commits_get-Tracks inv j =
      if_intro (Tracks i inv) _ _ _ (λ _. Tracks-kept i inv inv refl refl)
        (λ _.
          if_intro (Tracks i inv) inv.flags.terminated _ _ (λ _. Tracks-cancel inv j)
            (λ _. Tracks-to_awaiting_completion inv j))

  pub aborts_get-Tracks :
      (inv : Inverter) (j : ℕ)
      → is_notification (wrapper_at inv j).item.type ≡ false
      → Tracks i inv (abort_item_get inv (ItemRef.of_wrapper j))
  unfolding abort_get_of_wrapper
  aborts_get-Tracks inv j request =
      subst (Tracks i inv) (sym (abort_item_get-request inv j request)) (
        if_intro (Tracks i inv) inv.flags.terminated _ _ (λ _. Tracks-cancel inv j)
          (λ _. Tracks-to_awaiting_get inv j))

  pub begins_completion-Tracks :
      (inv : Inverter) (index seqnum : ℕ) → Tracks i inv (begin_item_completion inv index seqnum).1
  unfolding begin_item_completion begin_completion_of_wrapper
  begins_completion-Tracks inv index seqnum =
      elim (Option-cases (handle_index_to_wrapper inv index)) [
        | inl e ↦ Tracks-kept i inv _ (ground (arith, e)) (ground (arith, e))
        | inr (j, e) ↦
            let P : Result (Option ItemRef) × Inverter → Type 0 = λ r. Tracks i inv r.1 in
            let w = wrapper_at inv j in
            let same : begin_completion_of_wrapper inv seqnum j
                ≡ begin_item_completion inv index seqnum =
              ground (arith, e) in
            subst P same (
              if_intro P (not (w.item.handle_seqnum == seqnum)) (ok none, inv) _
                (λ _. Tracks-kept i inv inv refl refl)
                (λ _.
                  if_intro P (not (same_state w.state ReqState.awaiting_completion))
                    (err einval, inv) (ok (some (ItemRef.of_wrapper j)), to_being_completed inv j)
                    (λ _. Tracks-kept i inv inv refl refl) (λ _. Tracks-to_being_completed inv j)))
      ]

  pub commits_completion-Tracks :
      (inv : Inverter) (j : ℕ) (neg_errno : ℤ)
      → Tracks i inv (commit_item_completion inv (ItemRef.of_wrapper j) neg_errno)
  unfolding commit_item_completion commit_completion_of_wrapper
  commits_completion-Tracks inv j neg_errno =
      if_intro (Tracks i inv) inv.flags.terminated _ _ (λ _. Tracks-cancel inv j)
        (λ _. Tracks-to_free i inv j (block_error neg_errno) (ioctl_error neg_errno))

  pub aborts_completion-Tracks :
      (inv : Inverter) (j : ℕ) → Tracks i inv (abort_item_completion inv (ItemRef.of_wrapper j))
  unfolding abort_item_completion abort_completion_of_wrapper
  aborts_completion-Tracks inv j =
      if_intro (Tracks i inv) inv.flags.terminated _ _ (λ _. Tracks-cancel inv j)
        (λ _. Tracks-to_awaiting_completion inv j)

  pub notifies-Tracks : (inv : Inverter) → Tracks i inv (submit_device_available_notification inv)
  unfolding submit_device_available_notification
  notifies-Tracks inv = Tracks-kept i inv _ (ground arith) (ground arith)

  pub deactivates-Tracks : (inv : Inverter) (flush : Bool) → Tracks i inv (deactivate inv flush)
  unfolding deactivate
  deactivates-Tracks inv flush = Tracks-kept i inv _ refl refl

  pub aborts_flush-Tracks :
      (inv : Inverter) → Tracks i inv (abort_item_get inv ItemRef.req_flush_terminate)
  unfolding abort_item_get
  aborts_flush-Tracks inv = Tracks-kept i inv _ refl refl

  pub aborts_available-Tracks :
      (inv : Inverter) → Tracks i inv (abort_item_get inv ItemRef.req_dev_available)
  unfolding abort_item_get
  aborts_available-Tracks inv = notifies-Tracks inv
