-- ===== src/Cmdbdus/Destroy.antt =====
-- `subcommand_destroy` of cmdbdus/bdus.c.
use bdus.Base.{
  ℕ, if◌then◌else◌, Bool, true, false, not, ◌||◌, List, [], ◌∷◌, ◌++◌, Option, none, some,
}
use bdus.Base.Int.{pos, ◌==ℤ◌}
use bdus.Base.Errno.{Result}
use bdus.Libbdus.Manage.{
  Version, Reason, Outcome, success, failure, Control, get_dev_id_from_path, destroy_dev,
}
use bdus.Cmdbdus.Numbers.{codes, parse_dev_id}
use bdus.Cmdbdus.Output.{
  Event, Run, stdout, stderr, destroys, unless, streq, help_destroy, usage_destroy,
  destroying_device, done, error,
}
use bdus.Cmdbdus.Flush.{FlushCalls, Wakeup, flush_dev_with_timeout_message, flush_reason}
use Prim.Native.String.{String}

-- The variables that the loop over the arguments sets.
pub record Options : Type 0 where
  pub dev_path_or_id : Option String
  pub quiet : Bool
  pub flush_dev : Bool

abbrev pub defaults : Options
defaults = record { dev_path_or_id = none; quiet = false; flush_dev = true }

unfoldable pub take_arg : String → Options → Option Options
take_arg arg o =
    if streq arg "-q" || streq arg "--quiet"
    then some (record o { quiet = true })
    else if streq arg "--no-flush"
    then some (record o { flush_dev = false })
    else elim o.dev_path_or_id [
      | none ↦ some (record o { dev_path_or_id = some arg })
      | some first ↦ none
    ]

-- `none` where the usage is printed.
unfoldable pub take_args : List String → Options → Option Options
unfolding take_arg
take_args [] o = some o
take_args (arg ∷ args) o = elim (take_arg arg o) [ none ↦ none | some o' ↦ take_args args o' ]

-- What the system answers to each of the functions of libbdus that are called.
pub record Answers : Type 0 where
  pub libbdus : Version
  pub path_control : Control
  pub path_to_id : String → Result ℕ
  pub flush_calls : FlushCalls
  pub done : Bool
  pub wakeups : List Wakeup
  pub destroy_control : Control
  pub triggered : ℕ → Result (Unit {0})
  pub waited : ℕ → Result (Unit {0})

unfoldable pub get_dev_id : Answers → String → Outcome ℕ
unfolding parse_dev_id get_dev_id_from_path
get_dev_id a s = elim (parse_dev_id (codes s)) [
  | some id ↦ success id
  | none ↦ get_dev_id_from_path a.libbdus a.path_control (a.path_to_id s)
]

-- `success` and `destroy_dev` after the flush.
pub data Flushed : Type 0 where
  to_destroy gone : Flushed
  not_flushed : Option Reason → Flushed

unfoldable pub flush_if_asked : Answers → Options → ℕ → Flushed × List Event
unfolding flush_dev_with_timeout_message flush_reason
flush_if_asked a o id =
    let (result, events) =
      flush_dev_with_timeout_message a.libbdus a.flush_calls a.done a.wakeups o.quiet id in
    if not o.flush_dev
    then (to_destroy, [])
    else if result ==ℤ pos 19
    then (gone, events)
    else if not (result ==ℤ pos 0)
    then (not_flushed (flush_reason a.libbdus a.flush_calls id), events)
    else (to_destroy, events)

-- `success` after the destruction, or the message of `bdus_destroy_dev`.
unfoldable pub destroy : Answers → ℕ → Option Reason
unfolding destroy_dev
destroy a id = elim (destroy_dev a.libbdus a.destroy_control (a.triggered id) (a.waited id)) [
  | success t ↦ none
  | failure e r ↦ if e ==ℤ pos 19 then none else some r
]

abbrev pub finish : Options → List Event → Run
finish o events = (0, events ++ unless o.quiet (stdout done ∷ []))

abbrev pub fail : Option Reason → List Event → Run
fail r events = (1, events ++ stderr (error r) ∷ [])

unfoldable pub flush_and_destroy : Answers → Options → ℕ → Run
unfolding flush_if_asked destroy
flush_and_destroy a o id =
    let (flushed, events) = flush_if_asked a o id in
    let all = events ++ unless o.quiet (stdout destroying_device ∷ []) ++ destroys id ∷ [] in
    elim flushed [
      | not_flushed r ↦ fail r events
      | gone ↦ finish o events
      | to_destroy ↦ elim (destroy a id) [ none ↦ finish o all | some r ↦ fail (some r) all ]
    ]

unfoldable pub run_destroy : Answers → Options → Run
unfolding get_dev_id flush_and_destroy
run_destroy a o = elim o.dev_path_or_id [
  | none ↦ (2, stderr usage_destroy ∷ [])
  | some s ↦ elim (get_dev_id a s) [
    | failure e r ↦ fail (some r) []
    | success id ↦ flush_and_destroy a o id
  ]
]

unfoldable pub subcommand_destroy : Answers → List String → Run
unfolding run_destroy take_args
subcommand_destroy a args =
    let run : Run = elim (take_args args defaults) [
      | none ↦ (2, stderr usage_destroy ∷ [])
      | some o ↦ run_destroy a o
    ] in
    elim args [
      | arg ∷ [] ↦ if streq arg "--help" then (0, stdout help_destroy ∷ []) else run
      | _ ↦ run
    ]
