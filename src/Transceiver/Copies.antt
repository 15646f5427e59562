-- ===== src/Transceiver/Copies.antt =====
-- The four copies of kbdus/src/transceiver.c between a request and the buffer of its payload. What the
-- kernel answers to a copy from or to the memory of a process is an argument.
use bdus.Base.{ℕ, ◌*◌, ◌/◌, ◌%◌, ◌^◌, ◌==◌, if◌then◌else◌, Bool, not, ◌&&◌, List, none, some}
use bdus.Base.Int.{ℤ, pos}
use bdus.Base.Errno.{efault, einval}
use bdus.Inverter.State.{ItemType}
use bdus.Transceiver.Layout.{Transceiver, get_preallocated_buffer}
use bdus.Transceiver.Payload.{
  Memory, write_bytes, read_bytes, segments_to_buffer, buffer_to_segments,
}

-- What is read of a request of the block layer: the position in sectors, the size, the segments of its
-- pages, and the command and the argument of an ioctl.
pub record Payload : Type 0 where
  pub position : ℕ
  pub bytes : ℕ
  pub segments : List (List ℕ)
  pub ioctl_command : ℕ
  pub ioctl_argument : List ℕ

-- `struct kbdus_item`
pub record UserItem : Type 0 where
  pub user_ptr_or_buffer_index : ℕ
  pub handle_seqnum : ℕ
  pub handle_index : ℕ
  pub use_preallocated_buffer : Bool
  pub type : ItemType
  pub arg32 : ℕ
  pub arg64 : ℕ

-- `_IOC_DIR`, tested for `_IOC_READ` and for `_IOC_WRITE`, and `_IOC_SIZE` (asm-generic/ioctl.h).
unfoldable pub ioc_reads : ℕ → Bool
ioc_reads command = command / 2 ^ 31 % 2 == 1

unfoldable pub ioc_writes : ℕ → Bool
ioc_writes command = command / 2 ^ 30 % 2 == 1

unfoldable pub ioc_size : ℕ → ℕ
ioc_size command = command / 2 ^ 16 % 2 ^ 14

abbrev pub with_position : Payload → UserItem → UserItem
with_position p item = record item { arg64 = 512 * p.position % 2 ^ 64; arg32 = p.bytes % 2 ^ 32 }

abbrev pub with_command : Payload → UserItem → UserItem
with_command p item = record item { arg32 = p.ioctl_command % 2 ^ 32 }

unfoldable pub copy_req_to_item_and_user_buffer :
    ItemType → Payload → Bool → UserItem → ℤ × UserItem
copy_req_to_item_and_user_buffer type p copied item = elim type [
  | ItemType.write ↦ if copied then (pos 0, with_position p item) else (efault, item)
  | ItemType.write_same ↦ if copied then (pos 0, with_position p item) else (efault, item)
  | ItemType.fua_write ↦ if copied then (pos 0, with_position p item) else (efault, item)
  | ItemType.read ↦ (pos 0, with_position p item)
  | ItemType.write_zeros_no_unmap ↦ (pos 0, with_position p item)
  | ItemType.write_zeros_may_unmap ↦ (pos 0, with_position p item)
  | ItemType.discard ↦ (pos 0, with_position p item)
  | ItemType.secure_erase ↦ (pos 0, with_position p item)
  | ItemType.ioctl ↦
      ((if ioc_reads p.ioctl_command && not copied then efault else pos 0), with_command p item)
  | _ ↦ (pos 0, item)
]

-- What follows the check of the buffer index.
unfoldable pub fill_preallocated_buffer :
    ItemType → Payload → ℕ → UserItem → Memory → UserItem × Memory
fill_preallocated_buffer type p buffer item mem = elim type [
  | ItemType.write ↦ (with_position p item, segments_to_buffer buffer p.segments mem)
  | ItemType.write_same ↦ (with_position p item, segments_to_buffer buffer p.segments mem)
  | ItemType.fua_write ↦ (with_position p item, segments_to_buffer buffer p.segments mem)
  | ItemType.read ↦ (with_position p item, mem)
  | ItemType.write_zeros_no_unmap ↦ (with_position p item, mem)
  | ItemType.write_zeros_may_unmap ↦ (with_position p item, mem)
  | ItemType.discard ↦ (with_position p item, mem)
  | ItemType.secure_erase ↦ (with_position p item, mem)
  | ItemType.ioctl ↦ (
    with_command p item,
    if ioc_reads p.ioctl_command then write_bytes buffer p.ioctl_argument mem else mem,
  )
  | _ ↦ (item, mem)
]

unfoldable pub copy_req_to_item_and_preallocated_buffer :
    Transceiver → ItemType → Payload → UserItem → Memory → ℤ × UserItem × Memory
copy_req_to_item_and_preallocated_buffer t type p item mem =
    elim (get_preallocated_buffer t item.user_ptr_or_buffer_index) [
      | none ↦ (einval, item, mem)
      | some buffer ↦
          let (filled, mem') = fill_preallocated_buffer type p buffer item mem in
          (pos 0, filled, mem')
    ]

-- `left` is the request as the kernel leaves it after the copy from the memory of the process.
unfoldable pub copy_reply_data_from_user_buffer : ItemType → Payload → Bool → Payload → ℤ × Payload
copy_reply_data_from_user_buffer type p copied left = elim type [
  | ItemType.read ↦ ((if copied then pos 0 else efault), left)
  | ItemType.ioctl ↦
      if ioc_writes p.ioctl_command then ((if copied then pos 0 else efault), left) else (pos 0, p)
  | _ ↦ (pos 0, p)
]

unfoldable pub copy_reply_data_from_preallocated_buffer :
    Transceiver → ItemType → Payload → ℕ → Memory → ℤ × Payload
copy_reply_data_from_preallocated_buffer t type p index mem =
    elim (get_preallocated_buffer t index) [
      | none ↦ (einval, p)
      | some buffer ↦ elim type [
        | ItemType.read ↦ (pos 0, record p { segments = buffer_to_segments buffer mem p.segments })
        | ItemType.ioctl ↦ (
          pos 0,
          if ioc_writes p.ioctl_command
              then record p { ioctl_argument = read_bytes buffer (ioc_size p.ioctl_command) mem }
              else p,
        )
        | _ ↦ (pos 0, p)
      ]
    ]
