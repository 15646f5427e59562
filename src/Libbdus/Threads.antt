-- ===== src/Libbdus/Threads.antt =====
-- `bdus_run_3_` and `bdus_run_2_` of libbdus/src/backend.c: the threads are started, run and
-- joined. What `pthread_create` answers, and the status with which the loop of each thread ends,
-- are arguments. The process aborts where a join or KBDUS_IOCTL_TERMINATE fails, which is left out.
use bdus.Base.{ℕ, zero, suc, ◌+◌, ◌-◌, if◌then◌else◌, Bool, not, List, [], ◌∷◌, Option, none, some}
use bdus.Base.Int.{ℤ, pos, ◌==ℤ◌}
use bdus.Libbdus.Worker.{Message, Status, device_available, terminate, error}

-- What the main thread does with the others, by their index.
pub data Act : Type 0 where
  creates joins : ℕ → Act
  terminates works : Act

-- The error that a run leaves: of `pthread_create` or of a thread, or of the callback
-- `on_device_available` and of turning the process into a daemon.
pub data RunError : Type 0 where
  create_failed : ℤ → RunError
  thread_failed : ℤ → Message → RunError
  callback_failed : ℤ → RunError
  daemonize_failed : RunError

pub record Run : Type 0 where
  pub acts : List Act
  pub result : Option RunError

-- The two loops that join: of the threads from `i` on, and of those below `i` but the first, the
-- last first.
unfoldable pub join_from : ℕ → ℕ → List Act
join_from zero i = []
join_from (suc rounds) i = joins i ∷ join_from rounds (i + 1)

unfoldable pub join_below : ℕ → List Act
join_below zero = []
join_below (suc zero) = []
join_below (suc (suc i)) = joins (suc i) ∷ join_below (suc i)

-- The first thread that failed.
unfoldable pub first_error : ℕ → ℕ → (ℕ → Status) → Option RunError
first_error zero i status = none
first_error (suc rounds) i status =
    let rest = first_error rounds (i + 1) status in
    elim (status i) [ error e m ↦ some (thread_failed e m) | _ ↦ rest ]

-- The loop that creates threads, from thread `i` on.
unfoldable pub create_from : ℕ → ℕ → ℕ → (ℕ → ℤ) → (ℕ → Status) → Run
unfolding join_from join_below first_error
create_from num_threads zero i created status = record {
  acts = works ∷ join_from (num_threads - 1) 1;
  result = first_error num_threads 0 status;
}
create_from num_threads (suc rounds) i created status =
    let rest = create_from num_threads rounds (i + 1) created status in
    if not (created i ==ℤ pos 0)
    then record { acts = terminates ∷ join_below i; result = some (create_failed (created i)) }
    else record rest { acts = creates i ∷ rest.acts }

unfoldable pub run_3 : ℕ → (ℕ → ℤ) → (ℕ → Status) → Run
unfolding create_from
run_3 num_threads created status = create_from num_threads (num_threads - 1) 1 created status

-- `bdus_backend_on_device_available_` after the callback, the default one included, which returned
-- the error; the last argument says whether the process became a daemon.
unfoldable pub on_device_available : ℤ → Bool → Bool → Option RunError
on_device_available returned dont_daemonize daemonized =
    if not (returned ==ℤ pos 0)
    then some (callback_failed returned)
    else if not dont_daemonize
    then (if not daemonized then some daemonize_failed else none)
    else none

-- `first` is the status of the first thread after its loop, run alone.
unfoldable pub run_2 : ℕ → Status → ℤ → Bool → Bool → (ℕ → ℤ) → (ℕ → Status) → Run
unfolding on_device_available run_3
run_2 num_threads first returned dont_daemonize daemonized created status = elim first [
  | device_available ↦ elim (on_device_available returned dont_daemonize daemonized) [
    | some e ↦ record { acts = works ∷ []; result = some e }
    | none ↦ let rest = run_3 num_threads created status in record rest { acts = works ∷ rest.acts }
  ]
  | terminate ↦ record { acts = works ∷ []; result = none }
  | error e m ↦ record { acts = works ∷ []; result = some (thread_failed e m) }
]
