-- ===== src/Libbdus/Sessions.antt =====
-- When a session of libbdus/src/bdus.c succeeds, and what it has done by then.
use bdus.Base.{ℕ, ◌+◌, ◌≡◌, if◌then◌else◌, Bool, true, false, not, ◌&&◌, List, [], ◌∷◌, arith}
use bdus.Base.Int.{ℤ, pos, ◌==ℤ◌}
use bdus.Libbdus.Driver.{World, Ops}
use bdus.Libbdus.Attrs.{is_set}
use bdus.Libbdus.Session.{
  Call, initializes, runs_backend, terminates, marks, invoke, finish_driver, execute_driver,
}

abbrev pub same_call : Call → Call → Bool
same_call initializes initializes = true
same_call runs_backend runs_backend = true
same_call terminates terminates = true
same_call marks marks = true
same_call _ _ = false

abbrev pub times_called : Call → List Call → ℕ
times_called c [] = 0
times_called c (d ∷ calls) = (if same_call c d then 1 else 0) + times_called c calls

abbrev pub once_if : Bool → ℕ
once_if b = if b then 1 else 0

-- For any driver and whatever the backend and kbdus do: `initialize` is tried once; the backend
-- runs and `terminate` is called once if `initialize` succeeded, and not at all else; the device is
-- marked as successful once if these all succeeded, and not at all else; and there is no error
-- exactly if the mark succeeded as well.
pub execute_driver_lem :
    {S : Type 0} (ops : Ops S) (backend : World S → Bool × World S) (marked : ℤ) (world : World S)
    → let (e1, ready) = invoke ops.initialize world in
      let (served, after) = backend ready in
      let (e2, end) = invoke ops.terminate after in
      let started = e1 ==ℤ pos 0 in
      let completed = started && served && (e2 ==ℤ pos 0) in
      let session = execute_driver ops backend marked world in
      (times_called initializes session.calls ≡ 1)
      × (times_called runs_backend session.calls ≡ once_if started)
      × (times_called terminates session.calls ≡ once_if started)
      × (times_called marks session.calls ≡ once_if completed)
      × (not (is_set session.error) ≡ (completed && (marked ==ℤ pos 0)))
unfolding execute_driver finish_driver
execute_driver_lem ops backend marked world =
    (ground arith, ground arith, ground arith, ground arith, ground arith)
