-- ===== src/Inverter/Timer.antt =====
-- Timers (kbdus/src/inverter.c): a request that was submitted and is not gotten in time.
use bdus.Base.{
  ℕ, ◌≡◌, ◌∙◌, ap, true, false, List, [], ◌∷◌, ◌++◌, some, get_elem?, get_or, set, get_or_of_some,
  get_elem?-set, remove, remove_head, remove_absent, remove-append_last, count, arith,
}
use bdus.Base.Int.{ℤ, pos}
use bdus.Base.Errno.{etimedout}
use bdus.Inverter.State.{ItemType, ReqState, Wrapper, Inverter, same_state, wrapper_at, no_wrapper}
use bdus.Inverter.Wrappers.{
  Request, req_to_item_type, req_is_supported, handle_index_to_wrapper, to_awaiting_get, to_free,
}
use bdus.Inverter.Requests.{
  submit_request, submit_to_wrapper, initialize, timeout_request, timeout_wrapper, TimerReturn,
}
use bdus.Inverter.Valid.{IsValid}
use bdus.Inverter.Handles.{handle_index_to_wrapper_of}
use bdus.Inverter.Operations.Submit.{first_free}

-- The inverter after a submission, as far as the timer reads it.
pub record Submitted (inv mid : Inverter) (req i : ℕ) (rest : List ℕ) (w : Wrapper) : Type 0 where
  pub free_rest : mid.reqs_free ≡ rest
  pub at_tail : mid.reqs_awaiting_get ≡ inv.reqs_awaiting_get ++ i ∷ []
  pub seqnum : (wrapper_at mid i).item.handle_seqnum ≡ w.item.handle_seqnum
  pub holds : (wrapper_at mid i).item.req ≡ req
  pub awaits : (wrapper_at mid i).state ≡ ReqState.awaiting_get
  pub pdu_index : (mid.blk.pdu req).handle_index ≡ w.item.handle_index
  pub pdu_seqnum : (mid.blk.pdu req).handle_seqnum ≡ w.item.handle_seqnum
  pub size : mid.num_reqs ≡ inv.num_reqs
  pub completed : mid.blk.completed ≡ inv.blk.completed

pub submit_to_wrapper-Submitted :
    (inv : Inverter) (req i : ℕ) (t : ItemType) (rest : List ℕ) (w : Wrapper)
    → inv.reqs_free ≡ i ∷ rest
    → get_elem? inv.reqs_all i ≡ some w
    → same_state w.state ReqState.free ≡ true
    → count i inv.reqs_awaiting_get ≡ 0
    → Submitted inv (submit_to_wrapper inv req t i) req i rest w
unfolding submit_to_wrapper initialize to_awaiting_get
submit_to_wrapper-Submitted inv req i t rest w e at s unlisted =
    let read = get_or_of_some inv.reqs_all i no_wrapper at in
    let loaded : Wrapper = record (wrapper_at inv i) {
      item = record ((wrapper_at inv i).item) { type = t; req = req };
    } in
    let here : get_elem? (set inv.reqs_all i loaded) i ≡ some loaded =
      ground (arith, get_elem?-set inv.reqs_all i i loaded at) in
    let read' = get_or_of_some (set inv.reqs_all i loaded) i no_wrapper here in
    let queued : Wrapper = record (get_or (set inv.reqs_all i loaded) i no_wrapper) {
      state = ReqState.awaiting_get;
    } in
    let here' =
      get_or_of_some (set (set inv.reqs_all i loaded) i queued) i no_wrapper {v = queued}
        (ground (arith, get_elem?-set (set inv.reqs_all i loaded) i i queued here)) in
    let absent = remove_absent i inv.reqs_awaiting_get unlisted in
    let head = remove_head i rest in
    record {
      free_rest = ground (arith, read, read', s, e, head);
      at_tail = ground (arith, read, read', s, absent);
      seqnum = ground (arith, read, read', here');
      holds = ground (arith, read, read', here');
      awaits = ground (arith, read, read', here');
      pdu_index = ground (arith, read, read', here');
      pdu_seqnum = ground (arith, read, read', here');
      size = ground arith;
      completed = ground arith;
    }

handle_size :
    (a b : Inverter) (index : ℕ)
    → a.num_reqs ≡ b.num_reqs
    → handle_index_to_wrapper a index ≡ handle_index_to_wrapper b index
unfolding handle_index_to_wrapper
handle_size a b index same = rw same

timeout_awaiting :
    (inv : Inverter) (req i : ℕ)
    → handle_index_to_wrapper inv (inv.blk.pdu req).handle_index ≡ some i
    → (wrapper_at inv i).item.handle_seqnum ≡ (inv.blk.pdu req).handle_seqnum
    → (wrapper_at inv i).state ≡ ReqState.awaiting_get
    → timeout_request inv req ≡ some (TimerReturn.eh_done, to_free inv i etimedout etimedout)
unfolding timeout_request timeout_wrapper
timeout_awaiting inv req i found same awaits = ground arith

to_free_awaiting :
    (inv : Inverter) (i : ℕ) (a b : ℤ)
    → (wrapper_at inv i).state ≡ ReqState.awaiting_get
    → ((to_free inv i a b).reqs_free ≡ i ∷ remove i inv.reqs_free)
      × ((to_free inv i a b).reqs_awaiting_get ≡ remove i inv.reqs_awaiting_get)
      × ((to_free inv i a b).blk.completed ≡ (wrapper_at inv i).item.req ∷ inv.blk.completed)
      × (((to_free inv i a b).blk.pdu (wrapper_at inv i).item.req).error ≡ a)
unfolding to_free
to_free_awaiting inv i a b awaits = (ground arith, ground arith, ground arith, ground arith)

-- A request of a supported type that is submitted to a valid inverter, while there is a free
-- wrapper and the inverter is not terminated, enters the queue at its tail. If its timer fires
-- before a thread gets it, it is completed with ETIMEDOUT, and both lists are as they were.
pub timeout_request-submit_request :
    (inv : Inverter) (req : ℕ) (r : Request) (i : ℕ) (rest : List ℕ)
    → IsValid inv
    → inv.flags.terminated ≡ false
    → req_is_supported inv (req_to_item_type r) ≡ true
    → inv.reqs_free ≡ i ∷ rest
    → (mid end : Inverter) × (submit_request inv req r ≡ some (pos 0, mid))
      × (mid.reqs_free ≡ rest)
      × (mid.reqs_awaiting_get ≡ inv.reqs_awaiting_get ++ i ∷ [])
      × (timeout_request mid req ≡ some (TimerReturn.eh_done, end))
      × (end.reqs_free ≡ inv.reqs_free)
      × (end.reqs_awaiting_get ≡ inv.reqs_awaiting_get)
      × (end.blk.completed ≡ req ∷ inv.blk.completed)
      × ((end.blk.pdu req).error ≡ etimedout)
unfolding submit_request
timeout_request-submit_request inv req r i rest v running supported e =
    let t = req_to_item_type r in
    let (w, at, s) = first_free inv i rest v e in
    let mid = submit_to_wrapper inv req t i in
    let end = to_free mid i etimedout etimedout in
    let unlisted : count i inv.reqs_awaiting_get ≡ 0 =
      ground (arith, v.lists.awaiting_list i, at, s) in
    let m = submit_to_wrapper-Submitted inv req i t rest w e at s unlisted in
    let absent = remove_absent i rest (ground (arith, v.lists.free_list i, at, s)) in
    let (freed, dequeued, done, told) = to_free_awaiting mid i etimedout etimedout m.awaits in
    (
      mid,
      end,
      ground arith,
      m.free_rest,
      m.at_tail,
      timeout_awaiting mid req i
          (ap (handle_index_to_wrapper mid) m.pdu_index
            ∙ handle_size mid inv w.item.handle_index m.size
            ∙ (handle_index_to_wrapper_of inv i w v at).0)
          (ground (arith, m.seqnum, m.pdu_seqnum)) m.awaits,
      ground (arith, m.free_rest, e, freed, absent),
      dequeued ∙ ap (remove i) m.at_tail ∙ remove-append_last i inv.reqs_awaiting_get unlisted,
      ground (arith, done, m.holds, m.completed),
      ground (arith, told, m.holds),
    )
