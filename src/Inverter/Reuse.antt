-- ===== src/Inverter/Reuse.antt =====
-- A handle of kbdus/src/inverter.c is never taken for that of another request.
use bdus.Base.{
  ℕ, ◌+◌, ◌^◌, ◌%◌, ◌<◌, ◌≡◌, refl, ap, subst, false, some, length, get_elem?, get_elem?-lt,
  get_or_of_some, arith,
}
use bdus.Base.Errno.{ok}
use bdus.Inverter.State.{ReqState, ItemRef, Wrapper, Inverter, same_state, wrapper_at, no_wrapper}
use bdus.Inverter.Wrappers.{handle_index_to_wrapper}
use bdus.Inverter.Items.{begin_item_completion, begin_completion_of_wrapper}
use bdus.Inverter.Valid.{IsValid}
use bdus.Inverter.History.{Step, Reach, Reach-IsValid}
use bdus.Inverter.Ages.{Tracks, Tracks-trans, Tracks-kept}
use bdus.Inverter.Ages.Steps.{
  gets-Tracks, commits_get-Tracks, aborts_get-Tracks, begins_completion-Tracks,
  commits_completion-Tracks, aborts_completion-Tracks, notifies-Tracks, deactivates-Tracks,
  aborts_flush-Tracks, aborts_available-Tracks,
}
use bdus.Inverter.Ages.Loops.{terminates-Tracks, activates-Tracks}
use bdus.Inverter.Ages.Blocks.{times_out-Tracks, submits-Tracks}

module _ (i : ℕ) where
  Step-Tracks : {inv inv' : Inverter} → IsValid inv → Step inv inv' → Tracks i inv inv'
  Step-Tracks {inv} {inv'} v (Step.submits req r ret e) = submits-Tracks i inv inv' req r ret v e
  Step-Tracks {inv} {inv'} v (Step.times_out req ret e) = times_out-Tracks i inv inv' req ret e
  Step-Tracks {inv} v (Step.gets item awake e) =
      subst (Tracks i inv) (ap (λ r. r.0) e) (gets-Tracks i inv)
  Step-Tracks {inv} v (Step.commits_get j h e) = subst (Tracks i inv) e (commits_get-Tracks i inv j)
  Step-Tracks {inv} v (Step.aborts_get j (w, at, h) e) = subst (Tracks i inv) e (
      aborts_get-Tracks i inv j
        (ground (arith, v.wrappers j w at, get_or_of_some inv.reqs_all j no_wrapper at, h)))
  Step-Tracks {inv} v (Step.aborts_available e) =
      subst (Tracks i inv) e (aborts_available-Tracks i inv)
  Step-Tracks {inv} v (Step.aborts_flush h e) = subst (Tracks i inv) e (aborts_flush-Tracks i inv)
  Step-Tracks {inv} v (Step.begins_completion index seqnum e) =
      subst (Tracks i inv) e (begins_completion-Tracks i inv index seqnum)
  Step-Tracks {inv} v (Step.commits_completion j neg_errno h e) =
      subst (Tracks i inv) e (commits_completion-Tracks i inv j neg_errno)
  Step-Tracks {inv} v (Step.aborts_completion j h e) =
      subst (Tracks i inv) e (aborts_completion-Tracks i inv j)
  Step-Tracks {inv} v (Step.notifies e) = subst (Tracks i inv) e (notifies-Tracks i inv)
  Step-Tracks {inv} v (Step.terminates e) = subst (Tracks i inv) e (terminates-Tracks i inv)
  Step-Tracks {inv} v (Step.deactivates flush e) =
      subst (Tracks i inv) e (deactivates-Tracks i inv flush)
  Step-Tracks {inv} v (Step.activates h e) = subst (Tracks i inv) e (activates-Tracks i inv)

  Reach-Tracks : {inv inv' : Inverter} → IsValid inv → Reach inv inv' → Tracks i inv inv'
  Reach-Tracks {inv} v Reach.here = Tracks-kept i inv inv refl refl
  Reach-Tracks {inv} {inv'} v (Reach.next {mid} r s) =
      Tracks-trans i inv mid inv' (Reach-Tracks v r) (Step-Tracks (Reach-IsValid v r) s)

-- The wrapper that a handle finds at a later time is its own, with its number.
found_again :
    (inv inv' : Inverter) (i : ℕ) (w : Wrapper) (ref : ItemRef)
    → IsValid inv
    → get_elem? inv.reqs_all i ≡ some w
    → (begin_item_completion inv' w.item.handle_index w.item.handle_seqnum).0 ≡ ok (some ref)
    → (ref ≡ ItemRef.of_wrapper i)
      × ((wrapper_at inv' i).item.handle_seqnum ≡ (wrapper_at inv i).item.handle_seqnum)
unfolding begin_item_completion begin_completion_of_wrapper handle_index_to_wrapper
found_again inv inv' i w ref v at begun =
    let index : w.item.handle_index ≡ i + 1 = ground (arith, v.wrappers i w at) in
    let inside = get_elem?-lt inv.reqs_all i at in
    let back : (i + 1 + 65535) % 65536 ≡ i = omega (arith, v.small, v.size, inside) in
    let read = get_or_of_some inv.reqs_all i no_wrapper at in
    (ground (arith, index, back, begun), ground (arith, index, back, begun, read))

-- From a valid inverter, whatever threads call in whatever order, within the premises of `Step`, as long as
-- fewer than 2^64 requests are completed meanwhile: if the handle that a request in use has now begins a
-- completion at the end, it is that of the wrapper that it names, which still holds the same request.
pub begin_item_completion-Reach :
    {inv inv' : Inverter} (i : ℕ) (w : Wrapper) (ref : ItemRef)
    → IsValid inv
    → Reach inv inv'
    → get_elem? inv.reqs_all i ≡ some w
    → same_state w.state ReqState.free ≡ false
    → length inv'.blk.completed < length inv.blk.completed + 2 ^ 64
    → (begin_item_completion inv' w.item.handle_index w.item.handle_seqnum).0 ≡ ok (some ref)
    → (ref ≡ ItemRef.of_wrapper i) × ((wrapper_at inv' i).item.req ≡ w.item.req)
begin_item_completion-Reach {inv} {inv'} i w ref v r at used few begun =
    let (own, number) = found_again inv inv' i w ref v at begun in
    let t = Reach-Tracks i v r in
    let read = get_or_of_some inv.reqs_all i no_wrapper at in
    let never : t.completions ≡ 0 = omega (arith, t.counted, t.among, few, number) in
    let kept = t.same never (ground (arith, read, used)) in (own, ground (arith, kept, read))
