-- ===== src/Inverter/Items.antt =====
-- The functions of kbdus/src/inverter.c that the transceiver calls: an item is gotten, then the get
-- is committed or aborted; a request is completed, then the completion is committed or aborted.
use bdus.Base.{
  ℕ, zero, suc, ◌==◌, if◌then◌else◌, Bool, true, false, not, ◌&&◌, ◌||◌, [], ◌∷◌, Option, none,
  some,
}
use bdus.Base.Int.{ℤ, pos, neg, ◌==ℤ◌, ltb_ℤ}
use bdus.Base.Errno.{eio, einval, enolink, enospc, enosys, etimedout, Result, ok, err}
use bdus.Inverter.State.{
  ItemType, ReqState, Item, ItemRef, Inverter, is_notification, same_state, consume, wrapper_at,
}
use bdus.Inverter.Wrappers.{
  handle_index_to_wrapper, to_awaiting_get, to_being_gotten, to_awaiting_completion,
  to_being_completed, to_free, cancel_due_to_termination,
}
use bdus.Inverter.Lifecycle.{submit_device_available_notification}

abbrev notification : ItemType → Item
notification t = record { handle_index = 0; handle_seqnum = 0; type = t; req = 0 }

-- The item that a pointer refers to.
unfoldable pub item_of : Inverter → ItemRef → Item
item_of inv (ItemRef.of_wrapper i) = (wrapper_at inv i).item
item_of inv ItemRef.req_dev_available = notification ItemType.device_available
item_of inv ItemRef.req_terminate = notification ItemType.terminate
item_of inv ItemRef.req_flush_terminate = notification ItemType.flush_and_terminate

-- `container_of`, where the item is not one of the static ones.
abbrev pub with_container : ItemRef → Inverter → (ℕ → Inverter) → Inverter
with_container (ItemRef.of_wrapper i) inv f = f i
with_container _ inv f = inv

-- The body of the loop of `begin_item_get` after the wait: `none` is the end of the body.
unfoldable pub get_pass : Inverter → Inverter × Option ItemRef
get_pass inv =
    if inv.flags.deactivated_not_flushed
    then (
      record inv { flags = record (inv.flags) { deactivated_not_flushed = false } },
      some ItemRef.req_flush_terminate,
    )
    else if inv.flags.deactivated || inv.flags.terminated
    then (inv, some ItemRef.req_terminate)
    else if inv.flags.send_device_available
    then (
      record inv { flags = record (inv.flags) { send_device_available = false } },
      some ItemRef.req_dev_available,
    )
    else elim inv.reqs_awaiting_get [
      | [] ↦ (inv, none)
      | i ∷ rest ↦ (to_being_gotten inv i, some (ItemRef.of_wrapper i))
    ]

-- From the wait that succeeds to the end of the body.
unfoldable pub get_round : Inverter → Inverter × Option ItemRef
unfolding get_pass
get_round inv = get_pass (record inv { item_is_awaiting_get = consume inv.item_is_awaiting_get })

-- `blocked`: the thread sleeps on the completion. `restart`: it returns -ERESTARTSYS.
pub data GetResult : Type 0 where
  got : ItemRef → GetResult
  restart blocked : GetResult

-- One call with no other thread at work; `signal` says whether a signal is pending. The first
-- argument bounds the rounds of the loop, and `none` says that they did not suffice.
unfoldable pub begin_item_get : ℕ → Bool → Inverter → Option (GetResult × Inverter)
begin_item_get zero signal inv = none
begin_item_get (suc rounds) signal inv = elim (inv.item_is_awaiting_get == 0) [
  | true ↦ some ((if signal then restart else blocked), inv)
  | false ↦
      let (inv', result) = get_round inv in
      elim result [ some ref ↦ some (got ref, inv') | none ↦ begin_item_get rounds signal inv' ]
]

unfoldable pub commit_get_of_wrapper : Inverter → ℕ → Inverter
commit_get_of_wrapper inv i =
    if inv.flags.terminated then cancel_due_to_termination inv i else to_awaiting_completion inv i

unfoldable pub commit_item_get : Inverter → ItemRef → Inverter
unfolding commit_get_of_wrapper item_of
commit_item_get inv item =
    if is_notification (item_of inv item).type
    then inv
    else with_container item inv (commit_get_of_wrapper inv)

unfoldable pub abort_get_of_wrapper : Inverter → ℕ → Inverter
abort_get_of_wrapper inv i =
    if inv.flags.terminated then cancel_due_to_termination inv i else to_awaiting_get inv i

unfoldable pub abort_item_get : Inverter → ItemRef → Inverter
unfolding abort_get_of_wrapper item_of
abort_item_get inv item = elim (item_of inv item).type [
  | ItemType.device_available ↦ submit_device_available_notification inv
  | ItemType.terminate ↦ inv
  | ItemType.flush_and_terminate ↦ record inv {
    flags = record (inv.flags) { deactivated_not_flushed = true };
  }
  | _ ↦ with_container item inv (abort_get_of_wrapper inv)
]

-- What follows the check of the handle index. `ok none` is the null pointer, `err e` is `ERR_PTR(e)`.
unfoldable pub begin_completion_of_wrapper : Inverter → ℕ → ℕ → Result (Option ItemRef) × Inverter
begin_completion_of_wrapper inv request_handle_seqnum i =
    let w = wrapper_at inv i in
    if not (w.item.handle_seqnum == request_handle_seqnum)
    then (ok none, inv)
    else if not (same_state w.state ReqState.awaiting_completion)
    then (err einval, inv)
    else (ok (some (ItemRef.of_wrapper i)), to_being_completed inv i)

unfoldable pub begin_item_completion : Inverter → ℕ → ℕ → Result (Option ItemRef) × Inverter
begin_item_completion inv request_handle_index request_handle_seqnum =
    elim (handle_index_to_wrapper inv request_handle_index) [
      | none ↦ (err einval, inv)
      | some i ↦ begin_completion_of_wrapper inv request_handle_seqnum i
    ]

-- The error that the block layer is given.
unfoldable pub block_error : ℤ → ℤ
block_error neg_errno =
    if not (neg_errno ==ℤ pos 0)
      && not (neg_errno ==ℤ enolink)
      && not (neg_errno ==ℤ enospc)
      && not (neg_errno ==ℤ etimedout)
    then eio
    else neg_errno

-- The error that the caller of an ioctl is given.
unfoldable pub ioctl_error : ℤ → ℤ
ioctl_error neg_errno =
    if ltb_ℤ neg_errno (neg 133) || ltb_ℤ (pos 0) neg_errno || (neg_errno ==ℤ enosys)
    then eio
    else neg_errno

unfoldable pub commit_completion_of_wrapper : Inverter → ℤ → ℕ → Inverter
commit_completion_of_wrapper inv neg_errno i =
    if inv.flags.terminated
    then cancel_due_to_termination inv i
    else to_free inv i (block_error neg_errno) (ioctl_error neg_errno)

unfoldable pub commit_item_completion : Inverter → ItemRef → ℤ → Inverter
unfolding commit_completion_of_wrapper
commit_item_completion inv item neg_errno =
    with_container item inv (commit_completion_of_wrapper inv neg_errno)

unfoldable pub abort_completion_of_wrapper : Inverter → ℕ → Inverter
abort_completion_of_wrapper inv i =
    if inv.flags.terminated then cancel_due_to_termination inv i else to_awaiting_completion inv i

unfoldable pub abort_item_completion : Inverter → ItemRef → Inverter
unfolding abort_completion_of_wrapper
abort_item_completion inv item = with_container item inv (abort_completion_of_wrapper inv)
