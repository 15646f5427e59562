-- ===== src/Cmdbdus/Destroying.antt =====
-- When `bdus destroy` (cmdbdus/bdus.c) flushes and destroys a device, and with what it exits.
use bdus.Base.{
  ℕ, zero, suc, ◌==◌, ◌≡◌, refl, Option-cases, inl, inr, if◌then◌else◌, Bool, true, not, ◌&&◌, List,
  [], ◌∷◌, ◌++◌, none, some, arith,
}
use bdus.Base.Int.{ℤ, pos, ◌==ℤ◌}
use bdus.Base.Errno.{Result-cases}
use bdus.Libbdus.Manage.{
  Version, Outcome-cases, success, failure, check_privileges, check_version_compatibility,
  open_control, flush_dev, destroy_dev,
}
use bdus.Cmdbdus.Output.{
  Event, Run, help_destroy, usage_destroy, stdout, stderr, flushes, destroys, done,
  no_longer_exists, error,
}
use bdus.Cmdbdus.Flush.{
  Wakeup, flush_outcome, flush_errno, flush_reason, flush_timeout_fn, wait_loop, FlushCalls,
  interrupt, retry_errno, flush_dev_with_timeout_message, interrupted,
}
use bdus.Cmdbdus.Destroy.{
  Options, Answers, get_dev_id, flush_if_asked, destroy, flush_and_destroy, run_destroy,
  subcommand_destroy, take_args, defaults,
}
use bdus.Cmdbdus.Arguments.{is_help, options_of, take_args-options_of}
use Prim.Native.String.{String}

-- The calls among the events.
abbrev pub calls : List Event → List Event
calls [] = []
calls (stdout m ∷ events) = calls events
calls (stderr m ∷ events) = calls events
calls (flushes id ∷ events) = flushes id ∷ calls events
calls (destroys id ∷ events) = destroys id ∷ calls events

-- A destruction without error, or of a device that is gone.
abbrev pub destroyed : Answers → ℕ → Bool
destroyed a id = elim (destroy_dev a.libbdus a.destroy_control (a.triggered id) (a.waited id)) [
  | success t ↦ true
  | failure e r ↦ e ==ℤ pos 19
]

-- The calls that are due for a device, and the status.
abbrev pub calls_due : Answers → Options → ℕ → List Event
calls_due a o id =
    if not o.flush_dev
    then destroys id ∷ []
    else if flush_errno a.libbdus a.flush_calls id ==ℤ pos 0
    then flushes id ∷ destroys id ∷ []
    else flushes id ∷ []

abbrev pub status_due : Answers → Options → ℕ → ℕ
status_due a o id =
    let e = flush_errno a.libbdus a.flush_calls id in
    if o.flush_dev && e ==ℤ pos 19
    then 0
    else if o.flush_dev && not (e ==ℤ pos 0)
    then 1
    else if destroyed a id
    then 0
    else 1

calls-flush_timeout_fn :
    (is_done : Bool) (wakeups : List Wakeup) (more : List Event)
    → calls (flush_timeout_fn is_done wakeups ++ more) ≡ calls more
unfolding flush_timeout_fn
calls-flush_timeout_fn is_done wakeups more =
    elim (Option-cases (wait_loop is_done (pos 0) wakeups)) [
      | inl h ↦ ground (arith, h)
      | inr (e, h) ↦ ground (arith, h)
    ]

-- What the flush prints is no call.
calls-flushing :
    (a : Answers) (quiet : Bool) (id : ℕ) (more : List Event)
    → calls (
        (flush_dev_with_timeout_message a.libbdus a.flush_calls a.done a.wakeups quiet id).1
        ++ more)
      ≡ flushes id ∷ calls more
unfolding flush_dev_with_timeout_message
calls-flushing a quiet id more = ground (
  arith,
  calls-flush_timeout_fn a.done a.wakeups more,
  calls-flush_timeout_fn a.done a.wakeups (stdout no_longer_exists ∷ more),
)

calls-flush_and_destroy :
    (a : Answers) (o : Options) (id : ℕ) → calls (flush_and_destroy a o id).1 ≡ calls_due a o id
unfolding flush_and_destroy flush_if_asked
calls-flush_and_destroy a o id =
    ground (arith, calls-flushing a o.quiet id [], calls-flushing a o.quiet id (stdout done ∷ []))

status-flush_and_destroy :
    (a : Answers) (o : Options) (id : ℕ) → (flush_and_destroy a o id).0 ≡ status_due a o id
unfolding flush_and_destroy flush_if_asked flush_dev_with_timeout_message destroy
status-flush_and_destroy a o id = ground arith

-- The same for a run, with the path or id that it was given.
abbrev pub due_on : Answers → Options → ℕ × List Event
due_on a o = elim o.dev_path_or_id [
  | none ↦ (2, [])
  | some s ↦ elim (get_dev_id a s) [
    | failure e r ↦ (1, [])
    | success id ↦ (status_due a o id, calls_due a o id)
  ]
]

-- What `bdus destroy` exits with, and the calls that it makes.
abbrev pub due : Answers → List String → ℕ × List Event
due a args =
    if is_help args
    then (0, [])
    else elim (options_of defaults args) [ none ↦ (2, []) | some o ↦ due_on a o ]

abbrev pub status_and_calls : Run → ℕ × List Event
status_and_calls (status, events) = (status, calls events)

run_destroy-due_on : (a : Answers) (o : Options) → status_and_calls (run_destroy a o) ≡ due_on a o
unfolding run_destroy
run_destroy-due_on a o = elim (Option-cases o.dev_path_or_id) [
  | inl h ↦ ground (arith, h)
  | inr (s, h) ↦ elim (Outcome-cases (get_dev_id a s)) [
    | inl (id, found) ↦
        ground (arith, h, found, status-flush_and_destroy a o id, calls-flush_and_destroy a o id)
    | inr (e, r, missing) ↦ ground (arith, h, missing)
  ]
]

subcommand_destroy_lem :
    (a : Answers) (args : List String)
    → subcommand_destroy a args ≡ (
        if is_help args then (0, stdout help_destroy ∷ []) else elim (take_args args defaults) [
          | none ↦ (2, stderr usage_destroy ∷ [])
          | some o ↦ run_destroy a o
        ])
unfolding subcommand_destroy
subcommand_destroy_lem a [] = refl
subcommand_destroy_lem a (arg ∷ []) = refl
subcommand_destroy_lem a (arg ∷ second ∷ args) = refl

-- `bdus destroy` exits with 0 after its help, 2 on wrong arguments and 1 if the path names no device.
-- Given a device, it flushes it unless told not to, destroys it exactly if that left no `errno`, and
-- exits with 0 exactly if the flush found that the device is gone or the destruction that it is gone
-- or destroyed.
pub subcommand_destroy-due :
    (a : Answers) (args : List String) → status_and_calls (subcommand_destroy a args) ≡ due a args
subcommand_destroy-due a args = elim (Option-cases (take_args args defaults)) [
  | inl h ↦ ground (arith, h, take_args-options_of args defaults, subcommand_destroy_lem a args)
  | inr (o, h) ↦ ground (
    arith,
    h,
    take_args-options_of args defaults,
    subcommand_destroy_lem a args,
    run_destroy-due_on a o,
  )
]

interrupt_lem : (n : ℕ) (errno : ℤ) → interrupt n errno ≡ (if n == 0 then errno else pos 4)
unfolding interrupt
interrupt_lem zero errno = refl
interrupt_lem (suc n) errno = ground (arith, interrupt_lem n (pos 4))

-- A flush that succeeds leaves the `errno` of the latest call that was interrupted, or 0.
flush_errno_of_success :
    (libbdus : Version) (c : FlushCalls) (id : ℕ)
    → flush_outcome libbdus c id ≡ success tt
    → flush_errno libbdus c id ≡ (if interrupted c id then pos 4 else pos 0)
unfolding flush_errno retry_errno flush_dev open_control
flush_errno_of_success libbdus c id h = elim (Outcome-cases (check_privileges c.is_root)) [
  | inr (e, r, refused) ↦ ground (arith, refused, h)
  | inl (root, allowed) ↦ elim (Result-cases c.opened.last) [
    | inr (e, closed) ↦ ground (arith, allowed, closed, h)
    | inl (fd, open') ↦
        elim (Outcome-cases (check_version_compatibility libbdus c.kbdus_version.last)) [
          | inr (e, r, other) ↦ ground (arith, allowed, open', other, h)
          | inl (same, compatible) ↦ elim (Result-cases c.kbdus_version.last) [
            | inr (e, unknown) ↦ ground (arith, compatible, unknown)
            | inl (version, known) ↦ elim (Result-cases (c.flushed id).last) [
              | inr (e, failed) ↦ ground (arith, allowed, open', compatible, failed, h)
              | inl (done', flushed') ↦ ground (
                arith,
                allowed,
                open',
                compatible,
                known,
                flushed',
                interrupt_lem c.opened.interruptions (pos 0),
                interrupt_lem c.kbdus_version.interruptions (retry_errno c.opened (pos 0)),
                interrupt_lem (c.flushed id).interruptions
                    (retry_errno c.kbdus_version (retry_errno c.opened (pos 0))),
              )
            ]
          ]
        ]
  ]
]

-- If a flush succeeds after a signal has interrupted one of its system calls, the device is flushed
-- and not destroyed, and the process exits with 1, the last that it prints being the line for an error
-- with no error to name.
pub flush_and_destroy_of_interrupted :
    (a : Answers) (o : Options) (id : ℕ)
    → o.flush_dev ≡ true
    → flush_outcome a.libbdus a.flush_calls id ≡ success tt
    → interrupted a.flush_calls id ≡ true
    → (before : List Event) × (flush_and_destroy a o id ≡ (1, before ++ stderr (error none) ∷ []))
      × (calls (flush_and_destroy a o id).1 ≡ flushes id ∷ [])
unfolding flush_and_destroy flush_if_asked flush_dev_with_timeout_message flush_reason
flush_and_destroy_of_interrupted a o id h succeeds signal =
    let errno = flush_errno_of_success a.libbdus a.flush_calls id succeeds in
    (
      (flush_dev_with_timeout_message a.libbdus a.flush_calls a.done a.wakeups o.quiet id).1,
      ground (arith, h, succeeds, signal, errno),
      ground (arith, h, signal, errno, calls-flush_and_destroy a o id),
    )
