-- ===== src/Inverter/State.antt =====
-- The types of kbdus/src/inverter.c and kbdus/include-private/kbdus/inverter.h, and what the file
-- uses of the kernel: `struct completion` as its count, the intrusive lists as lists of positions
-- in `reqs_all`, and the block layer as the requests that were started and completed.
use bdus.Base.{ℕ, ◌+◌, ◌-◌, ◌^◌, ◌==◌, if◌then◌else◌, Bool, true, false, List, get_or, set}
use bdus.Base.Int.{ℤ}

-- `enum kbdus_item_type`; `invalid` is the -1 that `req_to_item_type` returns for other operations.
pub data ItemType : Type 0 where
  device_available terminate flush_and_terminate : ItemType
  read write write_same write_zeros_no_unmap write_zeros_may_unmap : ItemType
  fua_write flush discard secure_erase ioctl invalid : ItemType

-- The case labels of the switches that treat notifications apart.
abbrev pub is_notification : ItemType → Bool
is_notification ItemType.device_available = true
is_notification ItemType.terminate = true
is_notification ItemType.flush_and_terminate = true
is_notification _ = false

-- The anonymous enum of `KBDUS_REQ_STATE_*_`.
pub data ReqState : Type 0 where
  free awaiting_get being_gotten awaiting_completion being_completed : ReqState

-- The comparisons of states.
abbrev pub same_state : ReqState → ReqState → Bool
same_state ReqState.free ReqState.free = true
same_state ReqState.awaiting_get ReqState.awaiting_get = true
same_state ReqState.being_gotten ReqState.being_gotten = true
same_state ReqState.awaiting_completion ReqState.awaiting_completion = true
same_state ReqState.being_completed ReqState.being_completed = true
same_state _ _ = false

-- `req` is the pointer to the block layer's request.
pub record Item : Type 0 where
  pub handle_index : ℕ
  pub handle_seqnum : ℕ
  pub type : ItemType
  pub req : ℕ

pub record Wrapper : Type 0 where
  pub item : Item
  pub state : ReqState

-- What a pointer to an item refers to: the item of a wrapper, by its position, or one of the
-- three static notifications.
pub data ItemRef : Type 0 where
  of_wrapper : ℕ → ItemRef
  req_dev_available req_terminate req_flush_terminate : ItemRef

pub record Pdu : Type 0 where
  pub handle_seqnum : ℕ
  pub handle_index : ℕ
  pub error : ℤ
  pub error_ioctl : ℤ

-- The block layer: the private data of each request, and the requests on which
-- `blk_mq_start_request` and `blk_mq_complete_request` were called, latest first.
pub record BlockLayer : Type 0 where
  pub pdu : ℕ → Pdu
  pub started : List ℕ
  pub completed : List ℕ

abbrev pub update_pdu : ℕ → (Pdu → Pdu) → BlockLayer → BlockLayer
update_pdu req f b = record b { pdu = λ r. if r == req then f (b.pdu r) else b.pdu r }

-- The bits of `flags` that the build without KBDUS_DEBUG reads.
pub record Flags : Type 0 where
  pub deactivated : Bool
  pub deactivated_not_flushed : Bool
  pub terminated : Bool
  pub send_device_available : Bool
  pub supports_read : Bool
  pub supports_write : Bool
  pub supports_flush : Bool
  pub supports_ioctl : Bool

pub record Inverter : Type 0 where
  pub flags : Flags
  pub num_reqs : ℕ
  pub item_is_awaiting_get : ℕ
  pub reqs_free : List ℕ
  pub reqs_awaiting_get : List ℕ
  pub reqs_all : List Wrapper
  pub blk : BlockLayer

-- UINT_MAX as the count of a completion: every wait succeeds, and the count stays.
abbrev pub uint_max : ℕ
uint_max = 2 ^ 32 - 1

abbrev pub complete : ℕ → ℕ
complete done = if done == uint_max then done else done + 1

-- A wait that succeeds.
abbrev pub consume : ℕ → ℕ
consume done = if done == uint_max then done else done - 1

-- What a dangling pointer would read; no operation follows one.
abbrev pub no_wrapper : Wrapper
no_wrapper = record {
  item = record { handle_index = 0; handle_seqnum = 0; type = ItemType.invalid; req = 0 };
  state = ReqState.free;
}

-- The wrapper at a position, and a write to it.
abbrev pub wrapper_at : Inverter → ℕ → Wrapper
wrapper_at inv i = get_or inv.reqs_all i no_wrapper

abbrev pub set_state : Inverter → ℕ → ReqState → Inverter
set_state inv i s = record inv {
  reqs_all = set inv.reqs_all i (record (wrapper_at inv i) { state = s });
}
