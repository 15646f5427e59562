-- ===== src/Inverter/Ages/Blocks.antt =====
-- The same of what the block layer calls in kbdus/src/inverter.c: the timer and the submission.
use bdus.Base.{
  ℕ, ◌≡◌, refl, subst, ◌==◌, Bool-cases, Option-cases, List-cases, true, not, ◌||◌, inl, inr, some,
  get_elem?, get_or_of_some, arith,
}
use bdus.Base.Int.{ℤ}
use bdus.Base.Errno.{etimedout}
use bdus.Inverter.State.{ReqState, ItemType, Wrapper, Inverter, same_state, wrapper_at, no_wrapper}
use bdus.Inverter.Wrappers.{
  Request, req_to_item_type, req_is_supported, handle_index_to_wrapper, to_awaiting_get,
}
use bdus.Inverter.Requests.{
  submit_request, timeout_request, timeout_wrapper, TimerReturn, submit_to_wrapper, initialize,
  refuse,
}
use bdus.Inverter.Valid.{IsValid}
use bdus.Inverter.Pending.{get_or-set}
use bdus.Inverter.Operations.Submit.{first_free}
use bdus.Inverter.Ages.{Tracks, Tracks-trans, Tracks-kept, Tracks-to_free}
use bdus.Inverter.Ages.Steps.{Tracks-to_awaiting_get}

module _ (i : ℕ) where
  timeout_wrapper-Tracks :
      (inv : Inverter) (j : ℕ) (s : ReqState)
      → (wrapper_at inv j).state ≡ s
      → Tracks i inv (timeout_wrapper inv j).1
  unfolding timeout_wrapper
  timeout_wrapper-Tracks inv j ReqState.awaiting_get e =
      subst (Tracks i inv) (ground (arith, e)) (Tracks-to_free i inv j etimedout etimedout)
  timeout_wrapper-Tracks inv j ReqState.awaiting_completion e =
      subst (Tracks i inv) (ground (arith, e)) (Tracks-to_free i inv j etimedout etimedout)
  timeout_wrapper-Tracks inv j ReqState.free e =
      subst (Tracks i inv) (ground (arith, e)) (Tracks-kept i inv inv refl refl)
  timeout_wrapper-Tracks inv j ReqState.being_gotten e =
      subst (Tracks i inv) (ground (arith, e)) (Tracks-kept i inv inv refl refl)
  timeout_wrapper-Tracks inv j ReqState.being_completed e =
      subst (Tracks i inv) (ground (arith, e)) (Tracks-kept i inv inv refl refl)

  pub times_out-Tracks :
      (inv inv' : Inverter) (req : ℕ) (ret : TimerReturn)
      → timeout_request inv req ≡ some (ret, inv')
      → Tracks i inv inv'
  unfolding timeout_request
  times_out-Tracks inv inv' req ret e =
      let p = inv.blk.pdu req in
      elim (Option-cases (handle_index_to_wrapper inv p.handle_index)) [
        | inl missing ↦ absurd (ground (arith, missing, e))
        | inr (j, found) ↦
            elim (Bool-cases ((wrapper_at inv j).item.handle_seqnum == p.handle_seqnum)) [
              | inl current ↦
                  subst (Tracks i inv) (ground (arith, found, current, e))
                    (timeout_wrapper-Tracks inv j (wrapper_at inv j).state refl)
              | inr stale ↦
                  subst (Tracks i inv) (ground (arith, found, stale, e))
                    (Tracks-kept i inv inv refl refl)
            ]
      ]

  -- A free wrapper holds nothing that could be lost.
  Tracks-initialize :
      (inv : Inverter) (req j : ℕ) (t : ItemType) (w : Wrapper)
      → get_elem? inv.reqs_all j ≡ some w
      → same_state w.state ReqState.free ≡ true
      → Tracks i inv (initialize inv req t j)
  unfolding initialize
  Tracks-initialize inv req j t w at free =
      let v = wrapper_at inv j in
      let filled : Wrapper = record v { item = record (v.item) { type = t; req = req } } in
      let now = get_or-set inv.reqs_all j i filled in
      let read = get_or_of_some inv.reqs_all j no_wrapper at in
      record {
        completions = 0;
        counted = ground (arith, now);
        among = omega arith;
        same = λ none_done used. (ground (arith, now, used), ground (arith, now, used, read, free));
      }

  Tracks-submit_to_wrapper :
      (inv : Inverter) (req j : ℕ) (t : ItemType) (w : Wrapper)
      → get_elem? inv.reqs_all j ≡ some w
      → same_state w.state ReqState.free ≡ true
      → Tracks i inv (submit_to_wrapper inv req t j)
  unfolding submit_to_wrapper
  Tracks-submit_to_wrapper inv req j t w at free =
      let filled = initialize inv req t j in
      let queued = to_awaiting_get filled j in
      Tracks-trans i inv queued _
        (Tracks-trans i inv filled queued (Tracks-initialize inv req j t w at free)
          (Tracks-to_awaiting_get i filled j))
        (Tracks-kept i queued _ refl refl)

  pub submits-Tracks :
      (inv inv' : Inverter) (req : ℕ) (r : Request) (ret : ℤ)
      → IsValid inv
      → submit_request inv req r ≡ some (ret, inv')
      → Tracks i inv inv'
  unfolding submit_request refuse
  submits-Tracks inv inv' req r ret v e = elim (List-cases inv.reqs_free) [
    | inl none_free ↦
        Tracks-kept i inv inv' (ground (arith, none_free, e)) (ground (arith, none_free, e))
    | inr (j, rest, free) ↦
        let (w, at, s) = first_free inv j rest v free in
        let type = req_to_item_type r in
        elim (Bool-cases (inv.flags.terminated || not (req_is_supported inv type))) [
          | inl refused ↦
              Tracks-kept i inv inv' (ground (arith, free, refused, e))
                (ground (arith, free, refused, e))
          | inr accepted ↦
              subst (Tracks i inv) (ground (arith, free, accepted, e))
                (Tracks-submit_to_wrapper inv req j type w at (ground (arith, s)))
        ]
  ]
