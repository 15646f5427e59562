-- ===== src/Inverter/Wrappers.antt =====
-- The static functions of kbdus/src/inverter.c: the classification of requests, and the five
-- transitions of a wrapper. All but the first two run with `reqs_lock` held.
use bdus.Base.{
  ℕ, ◌+◌, ◌-◌, ◌^◌, ◌%◌, ltb, if◌then◌else◌, Bool, true, [], ◌∷◌, ◌++◌, Option, none, some, set,
  remove,
}
use bdus.Base.Int.{ℤ}
use bdus.Base.Errno.{eio, enodev}
use bdus.Inverter.State.{
  ItemType, ReqState, Wrapper, Inverter, BlockLayer, same_state, complete, wrapper_at, set_state,
  update_pdu,
}

-- `req_op(req)`, with `other` for the operations that the switch does not list.
pub data ReqOp : Type 0 where
  read write write_same write_zeroes flush discard secure_erase drv_in other : ReqOp

-- What the inverter reads of a `struct request`: its operation and two bits of `cmd_flags`.
pub record Request : Type 0 where
  pub op : ReqOp
  pub fua : Bool
  pub nounmap : Bool

-- For Linux 4.12 and later.
unfoldable pub req_to_item_type : Request → ItemType
req_to_item_type req = elim req.op [
  | read ↦ ItemType.read
  | write ↦ if req.fua then ItemType.fua_write else ItemType.write
  | write_same ↦ ItemType.write_same
  | write_zeroes ↦
      if req.nounmap then ItemType.write_zeros_no_unmap else ItemType.write_zeros_may_unmap
  | flush ↦ ItemType.flush
  | discard ↦ ItemType.discard
  | secure_erase ↦ ItemType.secure_erase
  | drv_in ↦ ItemType.ioctl
  | other ↦ ItemType.invalid
]

-- Without KBDUS_DEBUG.
unfoldable pub req_is_supported : Inverter → ItemType → Bool
req_is_supported inv ItemType.read = inv.flags.supports_read
req_is_supported inv ItemType.write = inv.flags.supports_write
req_is_supported inv ItemType.ioctl = inv.flags.supports_ioctl
req_is_supported inv _ = true

-- `index -= 1` wraps in a `u16`; the result is the position of the wrapper, if there is one.
unfoldable pub handle_index_to_wrapper : Inverter → ℕ → Option ℕ
handle_index_to_wrapper inv index =
    let index' = (index + 2 ^ 16 - 1) % 2 ^ 16 in
    if ltb index' inv.num_reqs then some index' else none

-- `list_del`: a node is unlinked from whichever list it is on.
abbrev pub list_del : Inverter → ℕ → Inverter
list_del inv i = record inv {
  reqs_free = remove i inv.reqs_free;
  reqs_awaiting_get = remove i inv.reqs_awaiting_get;
}

-- A free wrapper goes to the tail of the queue, one that comes back to its head.
unfoldable pub to_awaiting_get : Inverter → ℕ → Inverter
to_awaiting_get inv i =
    let unlinked =
      if same_state (wrapper_at inv i).state ReqState.free then list_del inv i else inv in
    let awaiting = unlinked.reqs_awaiting_get in
    record (set_state inv i ReqState.awaiting_get) {
      reqs_free = unlinked.reqs_free;
      reqs_awaiting_get =
          if same_state (wrapper_at inv i).state ReqState.free
          then awaiting ++ i ∷ []
          else i ∷ awaiting;
      item_is_awaiting_get = complete inv.item_is_awaiting_get;
    }

unfoldable pub to_being_gotten : Inverter → ℕ → Inverter
to_being_gotten inv i = set_state (list_del inv i) i ReqState.being_gotten

unfoldable pub to_awaiting_completion : Inverter → ℕ → Inverter
to_awaiting_completion inv i = set_state inv i ReqState.awaiting_completion

unfoldable pub to_being_completed : Inverter → ℕ → Inverter
to_being_completed inv i = set_state inv i ReqState.being_completed

-- `pdu->error` and `pdu->error_ioctl`, then `blk_mq_complete_request`.
abbrev pub complete_request : ℕ → ℤ → ℤ → BlockLayer → BlockLayer
complete_request req neg_errno neg_errno_ioctl b =
    record (update_pdu req (λ p. record p { error = neg_errno; error_ioctl = neg_errno_ioctl }) b) {
      completed = req ∷ b.completed;
    }

-- The sequence number is a `u64` and wraps.
abbrev pub freed_wrapper : Wrapper → Wrapper
freed_wrapper w = record w {
  item = record (w.item) { handle_seqnum = (w.item.handle_seqnum + 1) % 2 ^ 64 };
  state = ReqState.free;
}

unfoldable pub to_free : Inverter → ℕ → ℤ → ℤ → Inverter
to_free inv i neg_errno neg_errno_ioctl =
    let w = wrapper_at inv i in
    let unlinked = if same_state w.state ReqState.awaiting_get then list_del inv i else inv in
    record inv {
      reqs_free = i ∷ unlinked.reqs_free;
      reqs_awaiting_get = unlinked.reqs_awaiting_get;
      reqs_all = set inv.reqs_all i (freed_wrapper w);
      blk = complete_request w.item.req neg_errno neg_errno_ioctl inv.blk;
    }

unfoldable pub cancel_due_to_termination : Inverter → ℕ → Inverter
unfolding to_free
cancel_due_to_termination inv i = to_free inv i eio enodev
