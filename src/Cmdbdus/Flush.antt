-- ===== src/Cmdbdus/Flush.antt =====
-- `flush_timeout_fn` and `flush_dev_with_timeout_message` of cmdbdus/bdus.c.
use bdus.Base.{
  ℕ, zero, suc, ◌==◌, if◌then◌else◌, Bool, not, ◌&&◌, List, [], ◌∷◌, ◌++◌, Option, none, some,
}
use bdus.Base.Int.{ℤ, pos, ◌==ℤ◌}
use bdus.Base.Errno.{Result, ok, err}
use bdus.Libbdus.Manage.{
  Version, Reason, Outcome, success, failure, check_privileges, check_version_compatibility,
  flush_dev,
}
use bdus.Cmdbdus.Output.{
  Event, stdout, flushes, unless, unresponsive_flush_message, flushing_device, no_longer_exists,
}

-- A system call that is made again while a signal interrupts it: how often, and the last answer.
pub record Retried {ℓ} (A : Type ℓ) : Type ℓ where
  pub interruptions : ℕ
  pub last : Result A

-- What the system answers to the calls of `bdus_flush_dev`; the last depends on the id.
pub record FlushCalls : Type 0 where
  pub is_root : Bool
  pub opened : Retried ℕ
  pub kbdus_version : Retried Version
  pub flushed : ℕ → Retried (Unit {0})

abbrev pub flush_outcome : Version → FlushCalls → ℕ → Outcome (Unit {0})
flush_outcome libbdus c id =
    flush_dev libbdus
      (record { is_root = c.is_root; opened = c.opened.last; kbdus_version = c.kbdus_version.last })
      (c.flushed id).last

abbrev pub interrupted : FlushCalls → ℕ → Bool
interrupted c id = not (
    c.opened.interruptions == 0
    && c.kbdus_version.interruptions == 0
    && (c.flushed id).interruptions == 0)

-- `errno` after so many calls that a signal interrupts: each sets EINTR, which is 4.
unfoldable pub interrupt : ℕ → ℤ → ℤ
interrupt zero errno = errno
interrupt (suc n) errno = interrupt n (pos 4)

-- `errno` after `bdus_open_retry_` or `bdus_ioctl_arg_retry_`, from what it is before: a call that
-- fails sets it, one that succeeds leaves it.
unfoldable pub retry_errno {ℓ} : {A : Type ℓ} → Retried A → ℤ → ℤ
unfolding interrupt
retry_errno call errno = elim call.last [
  | err e ↦ e
  | ok answer ↦ interrupt call.interruptions errno
]

-- `errno` after `bdus_flush_dev`, where it was 0 before. Loading the module and closing the control
-- device restore it, and `bdus_set_error_` sets it.
unfoldable pub flush_errno : Version → FlushCalls → ℕ → ℤ
unfolding retry_errno
flush_errno libbdus c id =
    let opened = retry_errno c.opened (pos 0) in
    let checked = retry_errno c.kbdus_version opened in
    elim (check_privileges c.is_root) [
      | failure e r ↦ e
      | success root ↦ elim c.opened.last [
        | err e ↦ opened
        | ok fd ↦ elim (check_version_compatibility libbdus c.kbdus_version.last) [
          | failure e r ↦ e
          | success compatible ↦ retry_errno (c.flushed id) checked
        ]
      ]
    ]

-- The message that `bdus_get_error_message` has for it.
unfoldable pub flush_reason : Version → FlushCalls → ℕ → Option Reason
flush_reason libbdus c id = elim (flush_outcome libbdus c id) [
  | failure e r ↦ some r
  | success done ↦ none
]

-- One return of `pthread_cond_timedwait`: its result, and `done` once the mutex is held again.
pub record Wakeup : Type 0 where
  pub err : ℤ
  pub done : Bool

-- The loop of the thread, from `done` and the latest `err`; `none` while it waits for another wake-up.
unfoldable pub wait_loop : Bool → ℤ → List Wakeup → Option ℤ
wait_loop done last [] = if not done && last ==ℤ pos 0 then none else some last
wait_loop done last (w ∷ wakeups) =
    let more = wait_loop w.done w.err wakeups in
    if not done && last ==ℤ pos 0 then more else some last

-- What the thread prints: `done` is what it finds when it first holds the mutex. ETIMEDOUT is 110.
unfoldable pub flush_timeout_fn : Bool → List Wakeup → List Event
unfolding wait_loop
flush_timeout_fn done wakeups = elim (wait_loop done (pos 0) wakeups) [
  | none ↦ []
  | some last ↦ if last ==ℤ pos 110 then stdout unresponsive_flush_message ∷ [] else []
]

-- The thread prints while the flush goes on; it is joined before the function goes on. ENODEV is 19.
unfoldable pub flush_dev_with_timeout_message :
    Version → FlushCalls → Bool → List Wakeup → Bool → ℕ → ℤ × List Event
unfolding flush_errno flush_timeout_fn
flush_dev_with_timeout_message libbdus c done wakeups quiet id =
    let result = flush_errno libbdus c id in
    let gone = if result ==ℤ pos 19 then unless quiet (stdout no_longer_exists ∷ []) else [] in
    (
      result,
      unless quiet (stdout flushing_device ∷ [])
          ++ flushes id ∷ flush_timeout_fn done wakeups
          ++ gone,
    )
