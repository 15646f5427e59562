-- ===== src/Transceiver/Dispatch.antt =====
-- The ioctls that control.c leaves to the transceiver of a file description
-- (kbdus_transceiver_handle_control_ioctl of kbdus/src/transceiver.c and kbdus_control_ioctl_unknown_ of
-- kbdus/src/control.c).
use bdus.Base.{ℕ, ◌≡◌, if◌then◌else◌, Bool, not, Option, none, some, arith}
use bdus.Base.Int.{ℤ}
use bdus.Base.Errno.{einval, enotty}
use bdus.Transceiver.Layout.{Transceiver, get_rai}
use bdus.Transceiver.Copies.{UserItem}
use bdus.Transceiver.Calls.{
  Reply, Shared, UserCopy, Received, receive_item, send_reply, send_reply_and_receive_item,
}

-- The three commands, and any other.
pub data Command : Type 0 where
  receives sends sends_and_receives other : Command

-- What the kernel answers to the copies and the wait of one call, and the structure at the index.
pub record Call : Type 0 where
  pub rounds : ℕ
  pub signal : Bool
  pub copied : Bool
  pub copy : UserCopy
  pub reply : Reply
  pub item : UserItem

unfoldable pub handle_control_ioctl : Transceiver → Command → ℕ → Call → Shared → Option Received
handle_control_ioctl t command argument c s =
    let at_structure : Option Received = elim command [
      | receives ↦ receive_item t c.rounds c.signal c.copied c.item s
      | sends ↦
          let (ret, s') = send_reply t c.reply c.copy s in some (Received.returns ret c.item s')
      | sends_and_receives ↦
          send_reply_and_receive_item t c.rounds c.signal c.copied c.copy c.reply c.item s
      | other ↦ some (Received.returns enotty c.item s)
    ] in
    let checked : Option Received = elim (get_rai t argument) [
      | none ↦ some (Received.returns einval c.item s)
      | some address ↦ at_structure
    ] in
    elim command [ other ↦ some (Received.returns enotty c.item s) | _ ↦ checked ]

-- `attached` is the flag of the file description.
unfoldable pub control_ioctl_unknown :
    Bool → Transceiver → Command → ℕ → Call → Shared → Option Received
unfolding handle_control_ioctl
control_ioctl_unknown attached t command argument c s =
    if not attached
    then some (Received.returns enotty c.item s)
    else handle_control_ioctl t command argument c s

-- A file description that is not attached, and an index without structure, change nothing.
control_ioctl_unknown_refused :
    (attached : Bool) (t : Transceiver) (command : Command) (argument : ℕ) (c : Call) (s : Shared)
    → get_rai t argument ≡ none
    → (ret : ℤ) × (control_ioctl_unknown attached t command argument c s
        ≡ some (Received.returns ret c.item s))
unfolding control_ioctl_unknown
control_ioctl_unknown_refused attached t other argument c s h = (enotty, ground (arith, h))
control_ioctl_unknown_refused attached t command argument c s h =
    (if attached then einval else enotty, ground (arith, h))
