-- ===== src/Libbdus/Session.antt =====
-- `bdus_execute_driver_`, `bdus_run_impl_` and `bdus_rerun_impl_` of libbdus/src/bdus.c. What kbdus
-- answers, and how the backend ends, are arguments. Logging is left out, and so is the path of the
-- device, of at most 30 characters.
use bdus.Base.{ℕ, if◌then◌else◌, Bool, not, ◌&&◌, List, [], ◌∷◌, Option, none, some}
use bdus.Base.Int.{ℤ, pos, ◌==ℤ◌}
use bdus.Base.Errno.{Result, ok, err}
use bdus.Device.Config.{DeviceConfig}
use bdus.Transceiver.Layout.{FdConfig}
use bdus.Libbdus.Driver.{World, Callback, Ops, Attrs}
use bdus.Libbdus.Attrs.{
  validate_ops_run, validate_attrs_run, run_device_config, fd_config, default_concurrency,
  adjust_attrs_run, adjust_attrs_rerun,
}
use bdus.Libbdus.Rerun.{Complaint, validate_ops_rerun, validate_attrs_rerun}

-- The message of the error that a session leaves, with its `errno`.
pub data SessionError : Type 0 where
  initialize_failed terminate_failed mark_failed : ℤ → SessionError
  backend_failed bad_ops bad_attrs : SessionError
  too_many_devices interrupted not_available already_attaching : ℤ → SessionError
  no_longer_exists does_not_exist ioctl_failed : ℤ → SessionError

-- What is done, in its order: the callbacks, the backend, and KBDUS_IOCTL_MARK_AS_SUCCESSFUL.
pub data Call : Type 0 where
  initializes runs_backend terminates marks : Call

pub record Session (S : Type 0) : Type 0 where
  pub error : Option SessionError
  pub calls : List Call
  pub world : World S

-- The errors of the two ioctls: ENODEV and EINVAL, then EINTR, ENODEV, EBUSY and EINPROGRESS.
unfoldable pub config_error : ℤ → SessionError
config_error e =
    if e ==ℤ pos 19
    then no_longer_exists e
    else if e ==ℤ pos 22
    then does_not_exist e
    else ioctl_failed e

unfoldable pub attach_error : ℤ → SessionError
attach_error e =
    if e ==ℤ pos 4
    then interrupted e
    else if e ==ℤ pos 19
    then no_longer_exists e
    else if e ==ℤ pos 16
    then not_available e
    else if e ==ℤ pos 115
    then already_attaching e
    else ioctl_failed e

module _ {S : Type 0} where
  -- A callback that may be missing.
  abbrev pub invoke : Option (Callback S) → World S → ℤ × World S
  invoke none world = (pos 0, world)
  invoke (some f) world = f world

  -- What follows the backend. `marked` is the error of KBDUS_IOCTL_MARK_AS_SUCCESSFUL, 0 for none.
  unfoldable pub finish_driver : Ops S → Bool → ℤ → World S → Session S
  finish_driver ops success marked world =
      let (ret, after) = invoke ops.terminate world in
      if success && not (ret ==ℤ pos 0)
      then record { error = some (terminate_failed ret); calls = terminates ∷ []; world = after }
      else if success
      then (if not (marked ==ℤ pos 0)
          then record {
            error = some (mark_failed marked);
            calls = terminates ∷ marks ∷ [];
            world = after;
          }
          else record { error = none; calls = terminates ∷ marks ∷ []; world = after })
      else record { error = some backend_failed; calls = terminates ∷ []; world = after }

  -- `backend` is what the threads make of the world, and whether they succeed.
  unfoldable pub execute_driver : Ops S → (World S → Bool × World S) → ℤ → World S → Session S
  unfolding finish_driver
  execute_driver ops backend marked world =
      let (ret, ready) = invoke ops.initialize world in
      let (success, served) = backend ready in
      let rest = finish_driver ops success marked served in
      if not (ret ==ℤ pos 0)
      then record { error = some (initialize_failed ret); calls = initializes ∷ []; world = ready }
      else record rest { calls = initializes ∷ runs_backend ∷ rest.calls }

  abbrev pub refused : SessionError → World S → Session S
  refused e world = record { error = some e; calls = []; world = world }

  -- kbdus creates the device, or answers with a (positive) `errno`. The backend is given the
  -- attributes as adjusted, and the number of outstanding requests.
  unfoldable pub run_impl :
      ℕ
      → Ops S
      → Attrs
      → (DeviceConfig → FdConfig → Result (DeviceConfig × FdConfig))
      → (Attrs → ℕ → World S → Bool × World S)
      → ℤ
      → World S
      → Session S
  unfolding execute_driver
  run_impl page_size ops attrs create backend marked world =
      let asked = default_concurrency attrs in
      if not (validate_ops_run ops)
      then refused bad_ops world
      else if not (validate_attrs_run page_size attrs)
      then refused bad_attrs world
      else elim (create (run_device_config ops asked) (fd_config asked)) [
        | err e ↦ refused (if e ==ℤ pos 28 then too_many_devices e else ioctl_failed e) world
        | ok (device, fd) ↦
            execute_driver ops
              (backend (adjust_attrs_run device fd asked) device.max_outstanding_reqs) marked world
      ]

  unfoldable pub rerun_impl :
      Ops S
      → Attrs
      → Result DeviceConfig
      → (DeviceConfig → FdConfig → Result (DeviceConfig × FdConfig))
      → (Attrs → ℕ → World S → Bool × World S)
      → ℤ
      → Option Complaint
      → World S
      → Session S
  unfolding config_error attach_error execute_driver
  rerun_impl ops attrs existing attach backend marked last world =
      let asked = default_concurrency attrs in
      elim existing [
        | err e ↦ refused (config_error e) world
        | ok device ↦
            if not (validate_ops_rerun ops device last).0
            then refused bad_ops world
            else if not (validate_attrs_rerun asked device last).0
            then refused bad_attrs world
            else elim (attach device (fd_config asked)) [
              | err e ↦ refused (attach_error e) world
              | ok (device', fd) ↦
                  execute_driver ops
                    (backend (adjust_attrs_rerun device' fd asked) device'.max_outstanding_reqs)
                    marked world
            ]
      ]
