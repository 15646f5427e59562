-- ===== src/Transceiver/Calls.antt =====
-- The ioctls of kbdus/src/transceiver.c: items are received, replies are sent.
use bdus.Base.{ℕ, ◌+◌, ◌-◌, ◌^◌, ◌==◌, if◌then◌else◌, Bool, not, Option, none, some}
use bdus.Base.Int.{ℤ, pos, negsuc, neg, ◌==ℤ◌}
use bdus.Base.Errno.{erestartsys, ok, err}
use bdus.Inverter.State.{ItemType, ItemRef, Inverter}
use bdus.Inverter.Items.{
  item_of, GetResult, begin_item_get, commit_item_get, abort_item_get, begin_item_completion,
  commit_item_completion, abort_item_completion,
}
use bdus.Transceiver.Layout.{Transceiver}
use bdus.Transceiver.Payload.{Memory}
use bdus.Transceiver.Copies.{
  Payload, UserItem, copy_req_to_item_and_user_buffer, copy_req_to_item_and_preallocated_buffer,
  copy_reply_data_from_user_buffer, copy_reply_data_from_preallocated_buffer,
}

-- `struct kbdus_reply`
pub record Reply : Type 0 where
  pub user_ptr_or_buffer_index : ℕ
  pub handle_seqnum : ℕ
  pub handle_index : ℕ
  pub use_preallocated_buffer : Bool
  pub error : ℤ

-- The inverter, the shared memory, and the requests behind their pointers.
pub record Shared : Type 0 where
  pub inverter : Inverter
  pub memory : Memory
  pub requests : ℕ → Payload

-- `-error` as an `int`: the least one is its own negation.
unfoldable pub negate : ℤ → ℤ
negate (pos n) = neg n
negate (negsuc n) = if n == 2 ^ 31 - 1 then negsuc n else pos (n + 1)

-- The answer of the kernel to a copy from the memory of a process: whether it succeeds, and the request
-- as it leaves it.
pub record UserCopy : Type 0 where
  pub copied : Bool
  pub left : Payload

unfoldable pub copy_reply_data :
    Transceiver → Reply → UserCopy → ItemType → Payload → Memory → ℤ × Payload
copy_reply_data t reply copy type p mem =
    if not (reply.error ==ℤ pos 0)
    then (pos 0, p)
    else if not reply.use_preallocated_buffer
    then copy_reply_data_from_user_buffer type p copy.copied copy.left
    else copy_reply_data_from_preallocated_buffer t type p reply.user_ptr_or_buffer_index mem

-- From the completion that has begun on: it is committed if the copy succeeds, and aborted else.
unfoldable pub finish_reply : Transceiver → Reply → UserCopy → ItemRef → Shared → ℤ × Shared
finish_reply t reply copy ref s =
    let item = item_of s.inverter ref in
    let (ret, p) = copy_reply_data t reply copy item.type (s.requests item.req) s.memory in
    (
      ret,
      record s {
        inverter =
            if ret ==ℤ pos 0
            then commit_item_completion s.inverter ref (negate reply.error)
            else abort_item_completion s.inverter ref;
        requests = λ r. if r == item.req then p else s.requests r;
      },
    )

unfoldable pub send_reply : Transceiver → Reply → UserCopy → Shared → ℤ × Shared
send_reply t reply copy s =
    if reply.handle_index == 0
    then (pos 0, s)
    else (let (found, begun) =
          begin_item_completion s.inverter reply.handle_index reply.handle_seqnum in
        elim found [
          | err e ↦ (e, record s { inverter = begun })
          | ok ref ↦ elim ref [
            | none ↦ (pos 0, record s { inverter = begun })
            | some item ↦ finish_reply t reply copy item (record s { inverter = begun })
          ]
        ])

-- What `receive_item` does with the item that it was given.
unfoldable pub deliver_item :
    Transceiver → Bool → ItemRef → UserItem → Shared → ℤ × UserItem × Shared
deliver_item t copied ref item s =
    let source = item_of s.inverter ref in
    let p = s.requests source.req in
    let named : UserItem = record item {
      handle_seqnum = source.handle_seqnum;
      handle_index = source.handle_index;
      type = source.type;
    } in
    let by_user = copy_req_to_item_and_user_buffer source.type p copied named in
    let by_buffer = copy_req_to_item_and_preallocated_buffer t source.type p named s.memory in
    let (ret, filled, memory) =
      if not item.use_preallocated_buffer then (by_user.0, by_user.1, s.memory) else by_buffer in
    (
      ret,
      filled,
      record s {
        memory = memory;
        inverter =
            if ret ==ℤ pos 0 then commit_item_get s.inverter ref else abort_item_get s.inverter ref;
      },
    )

-- `sleeps`: no item is there and the thread waits.
pub data Received : Type 0 where
  returns : ℤ → UserItem → Shared → Received
  sleeps : Shared → Received

-- The number bounds the rounds of the wait, as in `begin_item_get`.
unfoldable pub receive_item : Transceiver → ℕ → Bool → Bool → UserItem → Shared → Option Received
receive_item t rounds signal copied item s = elim (begin_item_get rounds signal s.inverter) [
  | none ↦ none
  | some (result, begun) ↦ some (elim result [
    | GetResult.got ref ↦
        let (ret, filled, s') = deliver_item t copied ref item (record s { inverter = begun }) in
        Received.returns ret filled s'
    | GetResult.restart ↦ Received.returns erestartsys item (record s { inverter = begun })
    | GetResult.blocked ↦ Received.sleeps (record s { inverter = begun })
  ])
]

-- The item is received only if the reply was sent without an error.
unfoldable pub send_reply_and_receive_item :
    Transceiver → ℕ → Bool → Bool → UserCopy → Reply → UserItem → Shared → Option Received
unfolding receive_item
send_reply_and_receive_item t rounds signal copied copy reply item s =
    let (ret, s') = send_reply t reply copy s in
    if ret ==ℤ pos 0
    then receive_item t rounds signal copied item s'
    else some (Received.returns ret item s')
