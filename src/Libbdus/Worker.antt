-- ===== src/Libbdus/Worker.antt =====
-- The worker threads of libbdus/src/backend.c: the loop that sends a reply and receives an item,
-- with the retries of `bdus_ioctl_arg_retry_` (libbdus/src/utilities.c). What the kernel answers to
-- each ioctl of a thread is a list. The memory and the state of the driver may change from one
-- ioctl to the next, since there are other threads.
use bdus.Base.{
  ℕ, ◌-◌, ◌%◌, ◌^◌, ltb, if◌then◌else◌, Bool, true, false, List, [], ◌∷◌, Option, none, some,
}
use bdus.Base.Int.{ℤ, pos, neg, ltb_ℤ, ◌==ℤ◌}
use bdus.Inverter.State.{ItemType}
use bdus.Transceiver.Copies.{UserItem}
use bdus.Transceiver.Calls.{Reply}
use bdus.Libbdus.Driver.{World, Ops}
use bdus.Libbdus.Requests.{process_flush_request, process_request}

-- The message of `error_message`.
pub data Message : Type 0 where
  ioctl_failed available_again flush_failed unknown_item driver_aborted : Message

-- `status`, `error_errno` and `error_message` of `struct bdus_thread_ctx_`; the first is also the
-- value before anything is written. Errors are positive, as `errno` has them.
pub data Status : Type 0 where
  device_available terminate : Status
  error : ℤ → Message → Status

abbrev pub is_error : Status → Bool
is_error (error e m) = true
is_error _ = false

-- The members of `struct bdus_thread_ctx_` that change nothing while the thread runs.
pub record Thread (S : Type 0) : Type 0 where
  pub ops : Ops S
  pub thread_index : ℕ
  pub payload : ℕ
  pub allow_device_available : Bool

-- The answer to one ioctl: a signal interrupts it, it fails, or an item lies in the shared structure.
pub data Answer (S : Type 0) : Type 0 where
  interrupted : Answer S
  failed : ℤ → Answer S
  item : UserItem → World S → Answer S

-- What an item leads to: the loop ends, or goes on with a reply.
pub data Step (S : Type 0) : Type 0 where
  ends : Status → World S → Step S
  replies : ℤ → World S → Step S

-- `bdus_abort`
abbrev pub abort : ℤ
abort = neg (2 ^ 31)

-- The 32 bits of an item that those of the error of a reply lie over.
abbrev pub as_int : ℕ → ℤ
as_int n = if ltb n (2 ^ 31) then pos n else neg (2 ^ 32 - n)

-- `EIO` and `EINVAL` of user space.
abbrev errno_eio : ℤ
errno_eio = pos 5

abbrev errno_einval : ℤ
errno_einval = pos 22

module _ {S : Type 0} where
  unfoldable pub flush_and_terminate : Thread S → World S → Option (Step S)
  flush_and_terminate t world = elim (process_flush_request t.ops world) [
    | none ↦ none
    | some (e, after) ↦
        some (ends (if e ==ℤ pos 0 then terminate else error errno_eio flush_failed) after)
  ]

  unfoldable pub process_other_item : Thread S → UserItem → World S → Option (Step S)
  process_other_item t i world =
      elim (process_request t.ops t.payload i.type i.arg64 i.arg32 (as_int i.arg32) world) [
        | none ↦ none
        | some served ↦ some (
            if ltb_ℤ served.payload_size (pos 0)
            then ends (error errno_einval unknown_item) served.world
            else if served.error ==ℤ abort
            then ends (error errno_eio driver_aborted) served.world
            else replies served.error served.world)
      ]

  -- `none` is the call of a null pointer.
  unfoldable pub process_item : Thread S → UserItem → World S → Option (Step S)
  unfolding flush_and_terminate process_other_item
  process_item t i world = elim i.type [
    | ItemType.device_available ↦ some (
        ends
          (if t.allow_device_available
            then device_available
            else error errno_einval available_again)
          world)
    | ItemType.terminate ↦ some (ends terminate world)
    | ItemType.flush_and_terminate ↦ flush_and_terminate t world
    | _ ↦ process_other_item t i world
  ]

-- The reply lies where the item did: the handle and the buffer are those of the item.
unfoldable pub reply_to : UserItem → ℤ → Reply
reply_to i e = record {
  user_ptr_or_buffer_index = i.user_ptr_or_buffer_index;
  handle_seqnum = i.handle_seqnum;
  handle_index = i.handle_index;
  use_preallocated_buffer = i.use_preallocated_buffer;
  error = e;
}

-- What the loop writes before its first ioctl; index 0 is no handle.
unfoldable pub first_reply : ℕ → ℕ → ℤ → Reply
first_reply thread_index seqnum e = record {
  user_ptr_or_buffer_index = thread_index % 2 ^ 32;
  handle_seqnum = seqnum;
  handle_index = 0;
  use_preallocated_buffer = true;
  error = e;
}

-- How the loop ends: by a status, where a status with an error issues KBDUS_IOCTL_TERMINATE, in the
-- call of a null pointer, or not, in an ioctl that has no answer.
pub data End (S : Type 0) : Type 0 where
  finished : Status → Bool → World S → End S
  crashed : End S
  waits : End S

module _ {S : Type 0} where
  abbrev pub finish : Status → World S → End S
  finish status world = finished status (is_error status) world

  -- Where a thread stops, and the replies that it sent, each with an ioctl of its own.
  unfoldable pub loop : Thread S → Reply → World S → List (Answer S) → End S × List Reply
  loop t reply world [] = (waits, reply ∷ [])
  loop t reply world (interrupted ∷ answers) =
      let rest = loop t reply world answers in (rest.0, reply ∷ rest.1)
  loop t reply world (failed e ∷ answers) = (finish (error e ioctl_failed) world, reply ∷ [])
  loop t reply world (item i current ∷ answers) = elim (process_item t i current) [
    | none ↦ (crashed, reply ∷ [])
    | some (ends status after) ↦ (finish status after, reply ∷ [])
    | some (replies e after) ↦
        let rest = loop t (reply_to i e) after answers in (rest.0, reply ∷ rest.1)
  ]

  -- The first two arguments are what the shared structure holds of before.
  unfoldable pub work_loop : ℕ → ℤ → Thread S → World S → List (Answer S) → End S × List Reply
  unfolding loop first_reply
  work_loop seqnum e t world answers = loop t (first_reply t.thread_index seqnum e) world answers
