-- ===== src/Inverter/Samples.antt =====
-- Small inverters (kbdus/src/inverter.c), and the steps between them.
use bdus.Base.{
  ℕ, zero, suc, ◌≡◌, refl, subst, ◌==◌, if◌then◌else◌, true, false, List, [], ◌∷◌, some, get_elem?,
  count, remove, arith,
}
use bdus.Base.Int.{pos}
use bdus.Inverter.State.{
  ItemType, ReqState, Wrapper, ItemRef, Pdu, BlockLayer, Flags, Inverter, uint_max,
}
use bdus.Inverter.Wrappers.{
  ReqOp, Request, req_to_item_type, req_is_supported, to_awaiting_get, to_being_gotten,
  to_awaiting_completion, to_being_completed, handle_index_to_wrapper,
}
use bdus.Inverter.Requests.{submit_request, submit_to_wrapper, initialize}
use bdus.Inverter.Items.{
  get_round, get_pass, item_of, commit_item_get, commit_get_of_wrapper, begin_item_completion,
  begin_completion_of_wrapper,
}
use bdus.Inverter.Lifecycle.{terminate, for_range, fail_if_awaiting}
use bdus.Inverter.Valid.{held, well_formed, Everywhere, IsValid}
use bdus.Inverter.Operations.Terminate.{terminate-IsValid}
use bdus.Inverter.Operations.Destroy.{unheld}
use bdus.Inverter.History.{Step, Reach, Reach-IsValid}

abbrev quiet : Flags
quiet = record {
  deactivated = false;
  deactivated_not_flushed = false;
  terminated = false;
  send_device_available = false;
  supports_read = true;
  supports_write = true;
  supports_flush = true;
  supports_ioctl = false;
}

abbrev no_pdu : Pdu
no_pdu = record { handle_seqnum = 0; handle_index = 0; error = pos 0; error_ioctl = pos 0 }

abbrev idle_blk : BlockLayer
idle_blk = record { pdu = λ r. no_pdu; started = []; completed = [] }

abbrev free_at : ℕ → Wrapper
free_at i = record {
  item = record { handle_index = i; handle_seqnum = 0; type = ItemType.device_available; req = 0 };
  state = ReqState.free;
}

-- Two free wrappers.
abbrev pub two : Inverter
two = record {
  flags = quiet;
  num_reqs = 2;
  item_is_awaiting_get = 0;
  reqs_free = 0 ∷ 1 ∷ [];
  reqs_awaiting_get = [];
  reqs_all = free_at 1 ∷ free_at 2 ∷ [];
  blk = idle_blk;
}

two-free : (j : ℕ) → count j two.reqs_free ≡ held ReqState.free (get_elem? two.reqs_all j)
two-free zero = refl
two-free (suc zero) = refl
two-free (suc (suc j)) = ground arith

two-awaiting :
    (j : ℕ) → count j two.reqs_awaiting_get ≡ held ReqState.awaiting_get (get_elem? two.reqs_all j)
two-awaiting zero = refl
two-awaiting (suc zero) = refl
two-awaiting (suc (suc j)) = refl

two-well_formed : Everywhere well_formed two.reqs_all
two-well_formed zero w h = ground arith
two-well_formed (suc zero) w h = ground arith
two-well_formed (suc (suc j)) w h = cc

pub two-IsValid : IsValid two
two-IsValid = record {
  core = record {
    size = refl;
    small = omega arith;
    lists = record { free_list = two-free; awaiting_list = two-awaiting };
    wrappers = two-well_formed;
    balanced = λ r. refl;
  };
  at_rest = λ h. cc;
  wakeups = record {
    enough = omega arith;
    endless = λ h. cc;
    bounded = omega arith;
    flush_pending = λ h. cc;
  };
}

abbrev pub a_read : Request
a_read = record { op = ReqOp.read; fua = false; nounmap = false }

-- The wrapper of request 7, in each of its states.
abbrev pub busy : ReqState → Wrapper
busy s = record {
  item = record { handle_index = 1; handle_seqnum = 0; type = ItemType.read; req = 7 };
  state = s;
}

abbrev started_blk : BlockLayer
started_blk = record {
  pdu = λ r.
      if r == 7
      then record { handle_seqnum = 0; handle_index = 1; error = pos 0; error_ioctl = pos 0 }
      else no_pdu;
  started = 7 ∷ [];
  completed = [];
}

abbrev carrying : ReqState → ℕ → List ℕ → Inverter
carrying s wakeups queue = record {
  flags = quiet;
  num_reqs = 2;
  item_is_awaiting_get = wakeups;
  reqs_free = 1 ∷ [];
  reqs_awaiting_get = queue;
  reqs_all = busy s ∷ free_at 2 ∷ [];
  blk = started_blk;
}

abbrev pub queued : Inverter
queued = carrying ReqState.awaiting_get 1 (0 ∷ [])

abbrev gotten : Inverter
gotten = carrying ReqState.being_gotten 0 []

abbrev pub pending : Inverter
pending = carrying ReqState.awaiting_completion 0 []

abbrev pub completing : Inverter
completing = carrying ReqState.being_completed 0 []

submits_read : submit_request two 7 a_read ≡ some (pos 0, queued)
unfolding submit_request submit_to_wrapper initialize to_awaiting_get req_to_item_type remove
    req_is_supported
submits_read = refl

gets_read : get_round queued ≡ (gotten, some (ItemRef.of_wrapper 0))
unfolding get_round get_pass to_being_gotten remove
gets_read = refl

commits_read : commit_item_get gotten (ItemRef.of_wrapper 0) ≡ pending
unfolding commit_item_get commit_get_of_wrapper to_awaiting_completion item_of
commits_read = refl

begins_read : (begin_item_completion pending 1 0).1 ≡ completing
unfolding begin_item_completion begin_completion_of_wrapper to_being_completed
    handle_index_to_wrapper
begins_read = refl

to_queued : Reach two queued
to_queued = Reach.next Reach.here (Step.submits 7 a_read (pos 0) submits_read)

to_pending : Reach two pending
to_pending =
    Reach.next
      (Reach.next to_queued (Step.gets (some (ItemRef.of_wrapper 0)) (omega arith) gets_read))
      (Step.commits_get 0 (busy ReqState.being_gotten, refl, refl) commits_read)

pub queued_to_pending : Reach queued pending
queued_to_pending =
    Reach.next
      (Reach.next Reach.here (Step.gets (some (ItemRef.of_wrapper 0)) (omega arith) gets_read))
      (Step.commits_get 0 (busy ReqState.being_gotten, refl, refl) commits_read)

pub to_completing : Reach two completing
to_completing = Reach.next to_pending (Step.begins_completion 1 0 begins_read)

pub queued-IsValid : IsValid queued
queued-IsValid = Reach-IsValid two-IsValid to_queued

pub pending-IsValid : IsValid pending
pending-IsValid = Reach-IsValid two-IsValid to_pending

pub read_is_supported : req_is_supported two (req_to_item_type a_read) ≡ true
unfolding req_is_supported req_to_item_type
read_is_supported = refl

-- `two`, terminated.
abbrev pub over : Inverter
over = record two { flags = record quiet { terminated = true }; item_is_awaiting_get = uint_max }

terminates_two : terminate two ≡ over
unfolding terminate for_range fail_if_awaiting
terminates_two = refl

pub over-IsValid : IsValid over
over-IsValid = subst IsValid terminates_two (terminate-IsValid two two-IsValid)

pub over-unheld : Everywhere unheld over.reqs_all
over-unheld zero w h = ground arith
over-unheld (suc zero) w h = ground arith
over-unheld (suc (suc j)) w h = cc

-- No thread holds a request that awaits its completion.
pub pending-unheld : Everywhere unheld pending.reqs_all
pending-unheld zero w h = ground arith
pending-unheld (suc zero) w h = ground arith
pending-unheld (suc (suc j)) w h = cc
