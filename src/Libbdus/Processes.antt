-- ===== src/Libbdus/Processes.antt =====
-- System calls and processes in libbdus/src/utilities.c. What the system answers is an argument.
use bdus.Base.{
  ℕ, ◌==◌, if◌then◌else◌, Bool, true, false, not, ◌||◌, List, [], ◌∷◌, Option, none, some,
}
use bdus.Base.Int.{ℤ}
use bdus.Base.Errno.{Result, ok, err}

-- One answer to a system call.
pub data SystemAnswer : Type 0 where
  interrupted : SystemAnswer
  failed : ℤ → SystemAnswer
  returned : ℕ → SystemAnswer

-- The loop of `bdus_open_retry_`, `bdus_ioctl_retry_` and `bdus_ioctl_arg_retry_`: `none` where the
-- answers end before it does.
unfoldable pub retry : List SystemAnswer → Option (Result ℕ)
retry [] = none
retry (interrupted ∷ answers) = retry answers
retry (failed e ∷ answers) = some (err e)
retry (returned n ∷ answers) = some (ok n)

-- Whether it succeeds, and the descriptors that it closes.
unfoldable pub redirect_to_dev_null : ℕ → Result ℕ → Bool → Bool × List ℕ
redirect_to_dev_null fd opened duplicated = elim opened [
  | err e ↦ (false, [])
  | ok new_fd ↦ if not (new_fd == fd) then (duplicated, new_fd ∷ []) else (true, [])
]

-- How a process leaves the function: it returns, or exits with a status.
pub data Fate : Type 0 where
  returns : Bool → Fate
  exits : ℕ → Fate

-- `killed`: the first child ends by a signal.
pub record Daemonizing : Type 0 where
  pub flushed : Bool
  pub first_fork : Bool
  pub new_session : Bool
  pub redirected_in : Bool
  pub redirected_out : Bool
  pub redirected_err : Bool
  pub second_fork : Bool
  pub waited : Bool
  pub killed : Bool

-- The first child, and the second where there is one.
unfoldable pub first_child : Daemonizing → Fate × Option Fate
first_child d =
    if not d.new_session
    then (exits 1, none)
    else if not d.redirected_in
    then (exits 1, none)
    else if not d.redirected_out
    then (exits 1, none)
    else if not d.redirected_err
    then (exits 1, none)
    else if not d.second_fork
    then (exits 1, none)
    else (exits 0, some (returns true))

abbrev pub exit_status : Fate → ℕ
exit_status (exits n) = n
exit_status (returns b) = 0

-- The process that calls, and the last child.
unfoldable pub daemonize : Daemonizing → Fate × Option Fate
unfolding first_child
daemonize d =
    let (first, second) = first_child d in
    if not d.flushed
    then (returns false, none)
    else if not d.first_fork
    then (returns false, none)
    else if not d.waited || d.killed
    then (returns false, second)
    else if not (exit_status first == 0)
    then (returns false, second)
    else (exits 0, second)
