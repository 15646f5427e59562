-- ===== src/Cmdbdus/Version.antt =====
-- `subcommand_version` and `main` of cmdbdus/bdus.c.
use bdus.Base.{if◌then◌else◌, Bool, true, false, not, ◌&&◌, List, [], ◌∷◌, ◌++◌, Option, none, some}
use bdus.Libbdus.Manage.{Version, Control, success, failure, get_kbdus_version}
use bdus.Cmdbdus.Output.{
  Event, Run, stdout, stderr, streq, help, usage, help_version, usage_version, cmdbdus_version,
  libbdus_version, kbdus_version, failed_to_get_kbdus_version,
}
use bdus.Cmdbdus.Destroy
use bdus.Cmdbdus.Destroy.{subcommand_destroy}
use Prim.Native.String.{String}

pub record Printed : Type 0 where
  pub cmdbdus : Bool
  pub libbdus : Bool
  pub kbdus : Bool

unfoldable pub take_version_args : List String → Printed → Option Printed
take_version_args [] p = some p
take_version_args (arg ∷ args) p =
    let step : Option Printed =
      if streq arg "--cmdbdus"
      then some (record p { cmdbdus = true })
      else if streq arg "--libbdus"
      then some (record p { libbdus = true })
      else if streq arg "--kbdus"
      then some (record p { kbdus = true })
      else none in
    elim step [ none ↦ none | some p' ↦ take_version_args args p' ]

unfoldable pub or_all : Printed → Printed
or_all p =
    if not p.cmdbdus && not p.libbdus && not p.kbdus
    then record { cmdbdus = true; libbdus = true; kbdus = true }
    else p

-- The versions in the header of the tool and in the library that it is linked with.
pub record Installed : Type 0 where
  pub cmdbdus_header : Version
  pub libbdus_linked : Version
  pub version_control : Control

unfoldable pub print_versions : Installed → Printed → Run
unfolding get_kbdus_version
print_versions i p =
    let own : List Event =
      if p.cmdbdus then stdout (cmdbdus_version i.cmdbdus_header) ∷ [] else [] in
    let linked : List Event =
      if p.libbdus then stdout (libbdus_version i.libbdus_linked) ∷ [] else [] in
    if not p.kbdus
    then (0, own ++ linked)
    else elim (get_kbdus_version i.libbdus_linked i.version_control) [
      | failure e r ↦ (1, own ++ linked ++ stderr (failed_to_get_kbdus_version r) ∷ [])
      | success v ↦ (0, own ++ linked ++ stdout (kbdus_version v) ∷ [])
    ]

unfoldable pub subcommand_version : Installed → List String → Run
unfolding take_version_args or_all print_versions
subcommand_version i args =
    let run : Run =
      elim (take_version_args args (record { cmdbdus = false; libbdus = false; kbdus = false })) [
        | none ↦ (2, stderr usage_version ∷ [])
        | some p ↦ print_versions i (or_all p)
      ] in
    elim args [
      | arg ∷ [] ↦ if streq arg "--help" then (0, stdout help_version ∷ []) else run
      | _ ↦ run
    ]

-- `argv` without the name of the program.
unfoldable pub main : Destroy.Answers → Installed → List String → Run
unfolding subcommand_destroy subcommand_version
main a i [] = (2, stderr usage ∷ [])
main a i (arg ∷ args) =
    let other : Run =
      if streq arg "destroy"
      then subcommand_destroy a args
      else if streq arg "version"
      then subcommand_version i args
      else (2, stderr usage ∷ []) in
    elim args [ [] ↦ if streq arg "--help" then (0, stdout help ∷ []) else other | _ ↦ other ]
