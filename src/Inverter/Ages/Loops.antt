-- ===== src/Inverter/Ages/Loops.antt =====
-- The same of the loops of kbdus/src/inverter.c, in the termination and the activation.
use bdus.Base.{ℕ, refl, if_intro, true, false, arith}
use bdus.Inverter.State.{ReqState, Inverter, wrapper_at}
use bdus.Inverter.Lifecycle.{terminate, activate, for_range, reawait, reawait_in, fail_if_awaiting}
use bdus.Inverter.Operations.Range.{for_range_inv}
use bdus.Inverter.Ages.{Tracks, Tracks-trans, Tracks-kept}
use bdus.Inverter.Ages.Steps.{Tracks-cancel, Tracks-to_awaiting_get}

module _ (i : ℕ) where
  loop-Tracks :
      (body : Inverter → ℕ → Inverter) (inv start : Inverter)
      → ((s : Inverter) (j : ℕ) → Tracks i s (body s j))
      → Tracks i inv start
      → Tracks i inv (for_range start.num_reqs 0 body start)
  loop-Tracks body inv start each h =
      for_range_inv (λ _ s. Tracks i inv s) body start.num_reqs
        (λ j s lt k. Tracks-trans i inv s (body s j) k (each s j)) start.num_reqs 0 (omega arith)
        start h

  fail_if_awaiting-Tracks : (inv : Inverter) (j : ℕ) → Tracks i inv (fail_if_awaiting inv j)
  unfolding fail_if_awaiting
  fail_if_awaiting-Tracks inv j =
      if_intro (Tracks i inv) _ _ _ (λ _. Tracks-cancel i inv j)
        (λ _. Tracks-kept i inv inv refl refl)

  pub terminates-Tracks : (inv : Inverter) → Tracks i inv (terminate inv)
  unfolding terminate
  terminates-Tracks inv =
      let start : Inverter = record inv { flags = record (inv.flags) { terminated = true } } in
      let failed = for_range inv.num_reqs 0 fail_if_awaiting start in
      if_intro (Tracks i inv) inv.flags.terminated _ _ (λ _. Tracks-kept i inv inv refl refl)
        (λ _.
          Tracks-trans i inv failed _
            (loop-Tracks fail_if_awaiting inv start fail_if_awaiting-Tracks
              (Tracks-kept i inv start refl refl))
            (Tracks-kept i failed _ refl refl))

  reawait_in-Tracks : (inv : Inverter) (j : ℕ) (s : ReqState) → Tracks i inv (reawait_in inv j s)
  unfolding reawait_in
  reawait_in-Tracks inv j ReqState.awaiting_get = Tracks-kept i inv _ refl refl
  reawait_in-Tracks inv j ReqState.awaiting_completion = Tracks-to_awaiting_get i inv j
  reawait_in-Tracks inv j s = Tracks-kept i inv inv refl refl

  pub activates-Tracks : (inv : Inverter) → Tracks i inv (activate inv)
  unfolding activate reawait
  activates-Tracks inv =
      let start : Inverter = record inv {
        flags = record (inv.flags) { deactivated = false; deactivated_not_flushed = false };
        item_is_awaiting_get = 0;
      } in
      let requeued = for_range inv.num_reqs 0 reawait start in
      let all : Tracks i inv requeued =
        loop-Tracks reawait inv start (λ s j. reawait_in-Tracks s j (wrapper_at s j).state)
          (Tracks-kept i inv start refl refl) in
      if_intro (Tracks i inv) inv.flags.deactivated _ _
        (λ _.
          if_intro (Tracks i inv) requeued.flags.send_device_available _ requeued
            (λ _. Tracks-trans i inv requeued _ all (Tracks-kept i requeued _ refl refl))
            (λ _. all))
        (λ _. Tracks-kept i inv inv refl refl)
