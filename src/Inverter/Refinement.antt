-- ===== src/Inverter/Refinement.antt =====
-- The operations of kbdus/src/inverter.c refine a queue of requests.
use bdus.Base.{
  ℕ, ◌<◌, ◌≡◌, refl, sym, ap, subst, ◌∙◌, if◌then◌else◌, List, [], ◌∷◌, ◌++◌, Option, none, some,
  arith,
}
use bdus.Base.Int.{pos, ◌==ℤ◌}
use bdus.Inverter.State.{ItemRef, Inverter, wrapper_at}
use bdus.Inverter.Lifecycle.{terminate}
use bdus.Inverter.Items.{get_round}
use bdus.Inverter.Valid.{IsValid}
use bdus.Inverter.History.{Step, Reach, Reach-IsValid}
use bdus.Inverter.Operations.Terminate.{terminate-IsValid, terminated-terminate}
use bdus.Inverter.Moves.{
  aborts_available_same, aborts_flush_same, notifies_same, deactivates_same, pending_of_terminated,
  begins_completion_same, gets_same, gets_first, commits_get_same, aborts_get_returns,
  commits_completion_same, aborts_completion_same,
}
use bdus.Inverter.Moves.Requests.{submits_lem, times_out_lem}
use bdus.Inverter.Moves.Activate.{activates_lem, put_back}
use bdus.Inverter.Pending.{pending, Expires}

-- The first request leaves.
abbrev pub Leaves : ℕ → List ℕ → List ℕ → Type 0
Leaves r q q' = q ≡ r ∷ q'

-- The move that each operation has to make.
abbrev pub Moves : {inv inv' : Inverter} → Step inv inv' → List ℕ → List ℕ → Type 0
Moves (Step.submits req r ret e) q q' = q' ≡ (if ret ==ℤ pos 0 then q ++ req ∷ [] else q)
Moves (Step.times_out req ret e) q q' = Expires q q'
Moves {inv} (Step.gets (some (ItemRef.of_wrapper i)) awake e) q q' =
    Leaves (wrapper_at inv i).item.req q q'
Moves {inv} (Step.aborts_get i h e) q q' =
    q' ≡ (if inv.flags.terminated then q else (wrapper_at inv i).item.req ∷ q)
Moves (Step.terminates e) q q' = q' ≡ []
Moves {inv} (Step.activates h e) q q' =
    q' ≡ (if inv.flags.deactivated then put_back inv.reqs_all q else q)
Moves _ q q' = q' ≡ q

gets_lem :
    (inv inv' : Inverter) (item : Option ItemRef)
    → (awake : 0 < inv.item_is_awaiting_get) → (e : get_round inv ≡ (inv', item))
    → Moves (Step.gets item awake e) (pending inv) (pending inv')
gets_lem inv inv' (some (ItemRef.of_wrapper i)) awake e =
    subst (λ s. pending inv ≡ (wrapper_at inv i).item.req ∷ pending s) (ap (λ r. r.0) e)
      (gets_first inv i (ap (λ r. r.1) e))
gets_lem inv inv' none awake e =
    sym (ap (λ (r : Inverter × Option ItemRef). pending r.0) e) ∙ gets_same inv (rw e refl)
gets_lem inv inv' (some ItemRef.req_dev_available) awake e =
    sym (ap (λ (r : Inverter × Option ItemRef). pending r.0) e) ∙ gets_same inv (rw e refl)
gets_lem inv inv' (some ItemRef.req_terminate) awake e =
    sym (ap (λ (r : Inverter × Option ItemRef). pending r.0) e) ∙ gets_same inv (rw e refl)
gets_lem inv inv' (some ItemRef.req_flush_terminate) awake e =
    sym (ap (λ (r : Inverter × Option ItemRef). pending r.0) e) ∙ gets_same inv (rw e refl)

-- Each operation of a valid inverter makes its move.
Step-Moves :
    {inv inv' : Inverter} → IsValid inv → (s : Step inv inv') → Moves s (pending inv) (pending inv')
Step-Moves {inv} {inv'} v (Step.submits req r ret e) = submits_lem inv inv' req r ret v e
Step-Moves {inv} {inv'} v (Step.times_out req ret e) = times_out_lem inv inv' req ret e
Step-Moves {inv} {inv'} v (Step.gets item awake e) = gets_lem inv inv' item awake e
Step-Moves {inv} v (Step.commits_get i (w, at, h) e) =
    sym (ap pending e) ∙ commits_get_same inv i w at h
Step-Moves {inv} v (Step.aborts_get i (w, at, h) e) =
    sym (ap pending e) ∙ aborts_get_returns inv i w at h (ground (arith, v.wrappers i w at))
Step-Moves {inv} v (Step.aborts_available e) = sym (ap pending e) ∙ aborts_available_same inv
Step-Moves {inv} v (Step.aborts_flush h e) = sym (ap pending e) ∙ aborts_flush_same inv
Step-Moves {inv} v (Step.begins_completion index seqnum e) =
    sym (ap pending e) ∙ begins_completion_same inv index seqnum
Step-Moves {inv} v (Step.commits_completion i neg_errno (w, at, h) e) =
    sym (ap pending e) ∙ commits_completion_same inv i w at neg_errno h
Step-Moves {inv} v (Step.aborts_completion i (w, at, h) e) =
    sym (ap pending e) ∙ aborts_completion_same inv i w at h
Step-Moves {inv} v (Step.notifies e) = sym (ap pending e) ∙ notifies_same inv
Step-Moves {inv} v (Step.terminates e) =
    sym (ap pending e)
    ∙ pending_of_terminated (terminate inv) (terminate-IsValid inv v) (terminated-terminate inv v)
Step-Moves {inv} v (Step.deactivates flush e) = sym (ap pending e) ∙ deactivates_same inv flush
Step-Moves {inv} v (Step.activates h e) = sym (ap pending e) ∙ activates_lem inv v

-- The moves of a history, one after the other.
abbrev pub Follows : {inv inv' : Inverter} → Reach inv inv' → List ℕ → List ℕ → Type 0
Follows Reach.here q q' = q' ≡ q
Follows (Reach.next r s) q q' = (mid : List ℕ) × Follows r q mid × Moves s mid q'

-- From a valid inverter, whatever threads call in whatever order, within the premises of `Step`,
-- the requests in the queue follow the moves of an abstract queue: a request that is accepted
-- enters at the tail, the request that is gotten was the first, one whose get is aborted is the
-- first again unless the inverter is terminated, a timer takes out at most one, an activation after a
-- deactivation puts each of those that await completion, in the order of their wrappers, before the
-- others, a termination empties the queue, and all else leaves it as it is.
pub Reach-Follows :
    {inv inv' : Inverter}
    → IsValid inv
    → (r : Reach inv inv') → Follows r (pending inv) (pending inv')
Reach-Follows v Reach.here = refl
Reach-Follows v (Reach.next {mid} r s) =
    (pending mid, Reach-Follows v r, Step-Moves (Reach-IsValid v r) s)
