-- ===== src/Inverter/Moves/Requests.antt =====
-- What `kbdus_inverter_submit_request` and `kbdus_inverter_timeout_request` of
-- kbdus/src/inverter.c do to the requests in the queue.
use bdus.Base.{
  ℕ, ◌≡◌, refl, ap, subst, ◌∙◌, ◌==◌, if◌then◌else◌, Bool-cases, Option-cases, List-cases, true,
  List, [], ◌∷◌, ◌++◌, inl, inr, some, get_elem?, count, arith,
}
use bdus.Base.Int.{ℤ, pos, ◌==ℤ◌}
use bdus.Inverter.State.{ReqState, ItemType, Wrapper, Inverter, same_state, wrapper_at}
use bdus.Inverter.Wrappers.{Request, req_to_item_type, to_awaiting_get, handle_index_to_wrapper}
use bdus.Inverter.Requests.{
  submit_request, timeout_request, timeout_wrapper, TimerReturn, submit_to_wrapper, initialize,
  refuse,
}
use bdus.Inverter.Valid.{IsValid}
use mathlib.Core.List.{map-append}
use bdus.Base.Errno.{etimedout}
use bdus.Inverter.Timer.{submit_to_wrapper-Submitted}
use bdus.Inverter.Operations.Submit.{first_free}
use bdus.Inverter.Pending.{
  request_of, requests_of, pending, requests_of-set_absent, Expires, pending-to_free_awaiting,
}
use bdus.Inverter.Moves.{pending_same}

-- The other requests stay where they are.
submit_to_wrapper_kept :
    (inv : Inverter) (req i : ℕ) (t : ItemType)
    → count i inv.reqs_awaiting_get ≡ 0
    → requests_of (submit_to_wrapper inv req t i).reqs_all inv.reqs_awaiting_get ≡ pending inv
unfolding pending submit_to_wrapper initialize to_awaiting_get
submit_to_wrapper_kept inv req i t absent =
    requests_of-set_absent _ i _ inv.reqs_awaiting_get absent
    ∙ requests_of-set_absent inv.reqs_all i _ inv.reqs_awaiting_get absent

pending-submit_to_wrapper :
    (inv : Inverter) (req i : ℕ) (t : ItemType) (rest : List ℕ) (w : Wrapper)
    → inv.reqs_free ≡ i ∷ rest
    → get_elem? inv.reqs_all i ≡ some w
    → same_state w.state ReqState.free ≡ true
    → count i inv.reqs_awaiting_get ≡ 0
    → pending (submit_to_wrapper inv req t i) ≡ pending inv ++ req ∷ []
unfolding pending
pending-submit_to_wrapper inv req i t rest w free at s absent =
    let mid = submit_to_wrapper inv req t i in
    let m = submit_to_wrapper-Submitted inv req i t rest w free at s absent in
    let kept = submit_to_wrapper_kept inv req i t absent in
    ap (requests_of mid.reqs_all) m.at_tail
    ∙ map-append (request_of mid.reqs_all) inv.reqs_awaiting_get (i ∷ [])
    ∙ ground (arith, kept, m.holds)

pub submits_lem :
    (inv inv' : Inverter) (req : ℕ) (r : Request) (ret : ℤ)
    → IsValid inv
    → submit_request inv req r ≡ some (ret, inv')
    → pending inv' ≡ (if ret ==ℤ pos 0 then pending inv ++ req ∷ [] else pending inv)
unfolding submit_request refuse
submits_lem inv inv' req r ret v e = elim (List-cases inv.reqs_free) [
  | inl none_free ↦ ground (arith, none_free, pending_same inv inv')
  | inr (i, rest, free) ↦
      let (w, at, s) = first_free inv i rest v free in
      let absent : count i inv.reqs_awaiting_get ≡ 0 =
        ground (arith, v.lists.awaiting_list i, at, s) in
      ground (
        arith,
        free,
        pending_same inv inv',
        pending-submit_to_wrapper inv req i (req_to_item_type r) rest w free at s absent,
      )
]

timeout_wrapper_lem :
    (inv : Inverter) (i : ℕ) (s : ReqState)
    → (wrapper_at inv i).state ≡ s
    → Expires (pending inv) (pending (timeout_wrapper inv i).1)
unfolding timeout_wrapper
timeout_wrapper_lem inv i ReqState.free e = inl (ground (arith, e))
timeout_wrapper_lem inv i ReqState.being_gotten e = inl (ground (arith, e))
timeout_wrapper_lem inv i ReqState.being_completed e = inl (ground (arith, e))
timeout_wrapper_lem inv i ReqState.awaiting_get e =
    subst (λ inv'. Expires (pending inv) (pending inv')) (ground (arith, e))
      (pending-to_free_awaiting inv i etimedout etimedout)
timeout_wrapper_lem inv i ReqState.awaiting_completion e =
    subst (λ inv'. Expires (pending inv) (pending inv')) (ground (arith, e))
      (pending-to_free_awaiting inv i etimedout etimedout)

pub times_out_lem :
    (inv inv' : Inverter) (req : ℕ) (ret : TimerReturn)
    → timeout_request inv req ≡ some (ret, inv')
    → Expires (pending inv) (pending inv')
unfolding timeout_request
times_out_lem inv inv' req ret e =
    let p = inv.blk.pdu req in
    elim (Option-cases (handle_index_to_wrapper inv p.handle_index)) [
      | inl missing ↦ absurd (ground (arith, missing, e))
      | inr (i, found) ↦
          elim (Bool-cases ((wrapper_at inv i).item.handle_seqnum == p.handle_seqnum)) [
            | inl current ↦
                subst (λ inv'. Expires (pending inv) (pending inv'))
                  (ground (arith, found, current, e))
                  (timeout_wrapper_lem inv i (wrapper_at inv i).state refl)
            | inr stale ↦ inl (ap pending (ground (arith, found, stale, e)))
          ]
    ]
