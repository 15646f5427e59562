-- ===== src/Inverter/Tests.antt =====
-- The code of kbdus/src/inverter.c on small inputs.
use bdus.Base.{count, ◌≡◌, refl, true, false, [], ◌∷◌, some, arith}
use bdus.Base.Int.{pos}
use bdus.Base.Errno.{etimedout, ok}
use bdus.Inverter.State.{ReqState, ItemRef, Inverter, wrapper_at}
use bdus.Inverter.Requests.{submit_request, timeout_request, TimerReturn}
use bdus.Inverter.Items.{
  get_round, begin_item_get, GetResult, abort_item_get, begin_item_completion,
  begin_completion_of_wrapper,
}
use bdus.Inverter.Lifecycle.{terminate, destroy_checks}
use bdus.Inverter.Valid.{IsValid}
use bdus.Inverter.Operations.Get.{begin_item_get_lem}
use bdus.Inverter.Operations.Destroy.{destroy_checks-terminate}
use bdus.Inverter.Queue.{abort_item_get-get_round}
use bdus.Inverter.Timer.{timeout_request-submit_request}
use bdus.Inverter.History.{Reach-IsValid}
use bdus.Inverter.Wrappers.{handle_index_to_wrapper}
use bdus.Inverter.Pending
use bdus.Inverter.Reuse.{begin_item_completion-Reach}
use bdus.Inverter.Refinement.{Follows, Reach-Follows}
use bdus.Inverter.Samples.{
  two, two-IsValid, a_read, busy, queued, pending, completing, to_completing, queued_to_pending,
  queued-IsValid, pending-IsValid, read_is_supported, pending-unheld,
}

Reach-IsValid_example : IsValid completing
Reach-IsValid_example = Reach-IsValid two-IsValid to_completing

begin_item_get_lem_example :
    (inv' : Inverter) × (begin_item_get 5 false queued
      ≡ some (GetResult.got (ItemRef.of_wrapper 0), inv'))
    × IsValid inv'
begin_item_get_lem_example =
    begin_item_get_lem 5 false queued queued-IsValid (λ h. cc) (omega arith)

abort_item_get-get_round_example :
    (inv' : Inverter) × (get_round queued ≡ (inv', some (ItemRef.of_wrapper 0)))
    × (abort_item_get inv' (ItemRef.of_wrapper 0) ≡ queued)
abort_item_get-get_round_example =
    abort_item_get-get_round queued 0 [] queued-IsValid refl refl refl (omega arith)

timeout_request-submit_request_example :
    (mid end : Inverter) × (submit_request two 7 a_read ≡ some (pos 0, mid))
    × (mid.reqs_free ≡ 1 ∷ [])
    × (mid.reqs_awaiting_get ≡ 0 ∷ [])
    × (timeout_request mid 7 ≡ some (TimerReturn.eh_done, end))
    × (end.reqs_free ≡ 0 ∷ 1 ∷ [])
    × (end.reqs_awaiting_get ≡ [])
    × (end.blk.completed ≡ 7 ∷ [])
    × ((end.blk.pdu 7).error ≡ etimedout)
timeout_request-submit_request_example =
    timeout_request-submit_request two 7 a_read 0 (1 ∷ []) two-IsValid refl read_is_supported refl

destroy_checks-terminate_example :
    ((terminate pending).blk.started ≡ pending.blk.started)
    × (count 7 (terminate pending).blk.completed ≡ count 7 pending.blk.started)
    × (destroy_checks (terminate pending) ≡ true)
destroy_checks-terminate_example = destroy_checks-terminate pending 7 pending-IsValid pending-unheld

Reach-Follows_example : Follows to_completing (Pending.pending two) (Pending.pending completing)
Reach-Follows_example = Reach-Follows two-IsValid to_completing

finds : (begin_item_completion pending 1 0).0 ≡ ok (some (ItemRef.of_wrapper 0))
unfolding begin_item_completion begin_completion_of_wrapper handle_index_to_wrapper
finds = refl

-- The handle is given out with the submission, and used once the item was received.
begin_item_completion-Reach_example :
    (ItemRef.of_wrapper 0 ≡ ItemRef.of_wrapper 0) × ((wrapper_at pending 0).item.req ≡ 7)
begin_item_completion-Reach_example =
    begin_item_completion-Reach 0 (busy ReqState.awaiting_get) (ItemRef.of_wrapper 0) queued-IsValid
      queued_to_pending refl refl (omega arith) finds
