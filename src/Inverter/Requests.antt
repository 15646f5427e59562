-- ===== src/Inverter/Requests.antt =====
-- `kbdus_inverter_submit_request` and `kbdus_inverter_timeout_request` of kbdus/src/inverter.c, which
-- the block layer calls.
use bdus.Base.{ℕ, ◌==◌, if◌then◌else◌, not, [], ◌∷◌, Option, none, some, set}
use bdus.Base.Int.{ℤ, pos}
use bdus.Base.Errno.{eio, enodev, eopnotsupp, enotty, etimedout}
use bdus.Inverter.State.{ItemType, ReqState, Inverter, wrapper_at, update_pdu}
use bdus.Inverter.Wrappers.{
  Request, req_to_item_type, req_is_supported, handle_index_to_wrapper, to_awaiting_get, to_free,
}

-- A request refused before it was started: no handle, and two errors.
unfoldable pub refuse : Inverter → ℕ → ℤ → ℤ → Inverter
refuse inv req error error_ioctl = record inv {
  blk =
      update_pdu req
        (λ p. record {
          handle_seqnum = 0;
          handle_index = 0;
          error = error;
          error_ioctl = error_ioctl;
        })
        inv.blk;
}

-- The request is put into the wrapper.
unfoldable pub initialize : Inverter → ℕ → ItemType → ℕ → Inverter
initialize inv req item_type i =
    let w = wrapper_at inv i in
    record inv {
      reqs_all =
          set inv.reqs_all i (record w { item = record (w.item) { type = item_type; req = req } });
    }

-- What is done with the first free wrapper. The handle is read after the lock is released, and is
-- that of the wrapper at the time of the call if no other thread has freed it meanwhile.
unfoldable pub submit_to_wrapper : Inverter → ℕ → ItemType → ℕ → Inverter
unfolding initialize
submit_to_wrapper inv req item_type i =
    let queued = to_awaiting_get (initialize inv req item_type i) i in
    let item = (wrapper_at queued i).item in
    record queued {
      blk =
          record (update_pdu req
            (λ p. record p { handle_index = item.handle_index; handle_seqnum = item.handle_seqnum })
            queued.blk) { started = req ∷ queued.blk.started };
    }

-- `req` is the pointer and `r` the request that it points to. `none` stands for the undefined
-- behaviour of `list_first_entry` on an empty list.
unfoldable pub submit_request : Inverter → ℕ → Request → Option (ℤ × Inverter)
unfolding refuse submit_to_wrapper
submit_request inv req r =
    let item_type = req_to_item_type r in
    if inv.flags.terminated
    then some (eio, refuse inv req eio enodev)
    else if not (req_is_supported inv item_type)
    then some (eopnotsupp, refuse inv req eopnotsupp enotty)
    else elim inv.reqs_free [
      | [] ↦ none
      | i ∷ rest ↦ some (pos 0, submit_to_wrapper inv req item_type i)
    ]

-- `enum blk_eh_timer_return`, with the name that the file gives to the first.
pub data TimerReturn : Type 0 where
  eh_done eh_reset_timer : TimerReturn

unfoldable pub timeout_wrapper : Inverter → ℕ → TimerReturn × Inverter
timeout_wrapper inv i = elim (wrapper_at inv i).state [
  | ReqState.being_gotten ↦ (eh_reset_timer, inv)
  | ReqState.being_completed ↦ (eh_reset_timer, inv)
  | ReqState.awaiting_get ↦ (eh_done, to_free inv i etimedout etimedout)
  | ReqState.awaiting_completion ↦ (eh_done, to_free inv i etimedout etimedout)
  | ReqState.free ↦ (eh_done, inv)
]

-- `none` is the null pointer that is followed where the handle index is not valid.
unfoldable pub timeout_request : Inverter → ℕ → Option (TimerReturn × Inverter)
unfolding timeout_wrapper
timeout_request inv req =
    let p = inv.blk.pdu req in
    elim (handle_index_to_wrapper inv p.handle_index) [
      | none ↦ none
      | some i ↦
          if (wrapper_at inv i).item.handle_seqnum == p.handle_seqnum
          then some (timeout_wrapper inv i)
          else some (eh_done, inv)
    ]
