-- ===== src/Inverter/Operations/Destroy.antt =====
-- When `kbdus_inverter_destroy` (kbdus/src/inverter.c) finds what it expects.
use bdus.Base.{
  ℕ, suc, ◌<◌, ◌≡◌, refl, ap, ◌∙◌, not, count, ◌&&◌, ◌||◌, Bool, List, [], ◌∷◌, true, length,
  if_intro, get_elem?_of_lt, get_or_of_some, get_elem?-set, length-set, arith,
}
use bdus.Inverter.State.{ReqState, Wrapper, Inverter, same_state, no_wrapper, wrapper_at}
use bdus.Inverter.Wrappers.{to_free, cancel_due_to_termination, freed_wrapper}
use bdus.Inverter.Lifecycle.{all_free, destroy_checks, terminate, fail_if_awaiting, for_range}
use bdus.Inverter.Valid.{IsValid, Everywhere, settled, in_flight}
use bdus.Inverter.Sizes.{count_state, length-lists}
use bdus.Inverter.Operations.Range.{for_range_inv}
use bdus.Inverter.Operations.Terminate.{terminate-IsValid, terminated-terminate}

-- No thread holds a wrapper.
abbrev pub unheld : ℕ → Wrapper → Bool
unheld j w =
    not (same_state w.state ReqState.being_gotten)
    && not (same_state w.state ReqState.being_completed)

all_free_counts :
    (ws : List Wrapper)
    → Everywhere settled ws
    → Everywhere unheld ws
    → (all_free ws ≡ true)
      × (count_state ReqState.free ws ≡ length ws)
      × (count_state ReqState.awaiting_get ws ≡ 0)
unfolding all_free
all_free_counts [] s u = (refl, refl, refl)
all_free_counts (w ∷ ws) s u =
    ground (arith, s 0 w refl, u 0 w refl, all_free_counts ws (λ j. s (suc j)) (λ j. u (suc j)))

-- Once a valid inverter is terminated and no thread holds a wrapper, every check of `destroy` passes:
-- all wrappers are free and on the free list, and none is queued.
pub destroy_checks_pass :
    (inv : Inverter)
    → IsValid inv
    → inv.flags.terminated ≡ true
    → Everywhere unheld inv.reqs_all
    → destroy_checks inv ≡ true
unfolding destroy_checks
destroy_checks_pass inv v t u =
    ground (arith, all_free_counts inv.reqs_all (v.at_rest t) u, length-lists inv v.lists, v.size)

in_flight_of_all_free : (r : ℕ) (ws : List Wrapper) → all_free ws ≡ true → in_flight r ws ≡ 0
unfolding all_free
in_flight_of_all_free r [] h = refl
in_flight_of_all_free r (w ∷ ws) h = ground (arith, in_flight_of_all_free r ws)

-- Then each request was completed as often as it was started.
completed_of_terminated :
    (inv : Inverter) (r : ℕ)
    → IsValid inv
    → inv.flags.terminated ≡ true
    → Everywhere unheld inv.reqs_all
    → count r inv.blk.completed ≡ count r inv.blk.started
completed_of_terminated inv r v t u = omega (
  arith,
  v.balanced r,
  in_flight_of_all_free r inv.reqs_all (all_free_counts inv.reqs_all (v.at_rest t) u).0,
)

-- The loop of `terminate` starts no request, and gives no wrapper to a thread.
record KeepsUnheld (num : ℕ) (started : List ℕ) (s : Inverter) : Type 0 where
  size : length s.reqs_all ≡ num
  same_started : s.blk.started ≡ started
  unheld_still : Everywhere unheld s.reqs_all

fail_if_awaiting-KeepsUnheld :
    (num : ℕ) (started : List ℕ) (j : ℕ) (s : Inverter)
    → j < num
    → KeepsUnheld num started s
    → KeepsUnheld num started (fail_if_awaiting s j)
unfolding fail_if_awaiting cancel_due_to_termination to_free
fail_if_awaiting-KeepsUnheld num started j s lt k =
    let (w, at) = get_elem?_of_lt s.reqs_all j (ground (arith, k.size)) in
    let read = get_or_of_some s.reqs_all j no_wrapper at in
    if_intro (KeepsUnheld num started)
      (same_state (wrapper_at s j).state ReqState.awaiting_get
        || same_state (wrapper_at s j).state ReqState.awaiting_completion)
      _ _
      (λ _. record {
        size = length-set s.reqs_all j _ ∙ k.size;
        same_started = k.same_started;
        unheld_still = λ i x e.
            ground
              (arith, read, k.unheld_still i x, get_elem?-set s.reqs_all j i (freed_wrapper w) at);
      })
      (λ _. k)

terminate-KeepsUnheld :
    (inv : Inverter)
    → IsValid inv
    → Everywhere unheld inv.reqs_all
    → KeepsUnheld inv.num_reqs inv.blk.started (terminate inv)
unfolding terminate
terminate-KeepsUnheld inv v u =
    let P = KeepsUnheld inv.num_reqs inv.blk.started in
    let flagged : Inverter = record inv { flags = record (inv.flags) { terminated = true } } in
    let start : P flagged = record { size = v.size; same_started = refl; unheld_still = u } in
    let looped : P (for_range inv.num_reqs 0 fail_if_awaiting flagged) =
      for_range_inv (λ _. P) fail_if_awaiting inv.num_reqs
        (fail_if_awaiting-KeepsUnheld inv.num_reqs inv.blk.started) inv.num_reqs 0 (omega arith)
        flagged start in
    if_intro P inv.flags.terminated _ _
      (λ _. record { size = v.size; same_started = refl; unheld_still = u })
      (λ _. record {
        size = looped.size;
        same_started = looped.same_started;
        unheld_still = looped.unheld_still;
      })

-- If no thread holds a wrapper of a valid inverter, its termination starts no request and leaves each
-- completed as often as it was started, and every check of `destroy` then passes: the inverter is
-- terminated, all wrappers are free and on the free list, and none is queued.
pub destroy_checks-terminate :
    (inv : Inverter) (r : ℕ)
    → IsValid inv
    → Everywhere unheld inv.reqs_all
    → ((terminate inv).blk.started ≡ inv.blk.started)
      × (count r (terminate inv).blk.completed ≡ count r inv.blk.started)
      × (destroy_checks (terminate inv) ≡ true)
destroy_checks-terminate inv r v u =
    let k = terminate-KeepsUnheld inv v u in
    let v' = terminate-IsValid inv v in
    let t = terminated-terminate inv v in
    (
      k.same_started,
      completed_of_terminated (terminate inv) r v' t k.unheld_still ∙ ap (count r) k.same_started,
      destroy_checks_pass (terminate inv) v' t k.unheld_still,
    )
