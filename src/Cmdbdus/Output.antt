-- ===== src/Cmdbdus/Output.antt =====
-- What cmdbdus/bdus.c prints and which of the functions of libbdus that change a device it calls.
use bdus.Base.{ℕ, Bool, Option, List, [], if◌then◌else◌}
use bdus.Libbdus.Manage.{Reason, Version}
use Prim.Native.String.{String}
use text.Mathlib.Text

-- `strcmp(s, t) == 0`
unfoldable pub streq : String → String → Bool
streq s t = Text.◌==◌ s t

-- `error` carries the message of the last function of libbdus that failed, or none.
pub data Message : Type 0 where
  help usage : Message
  help_destroy usage_destroy unresponsive_flush_message : Message
  flushing_device no_longer_exists destroying_device done : Message
  help_version usage_version : Message
  cmdbdus_version libbdus_version kbdus_version : Version → Message
  failed_to_get_kbdus_version : Reason → Message
  error : Option Reason → Message

-- `flushes` and `destroys` are calls of `bdus_flush_dev` and `bdus_destroy_dev`, with the id.
pub data Event : Type 0 where
  stdout stderr : Message → Event
  flushes destroys : ℕ → Event

-- The status that the process exits with, and what it has done.
abbrev pub Run : Type 0
Run = ℕ × List Event

abbrev pub unless : Bool → List Event → List Event
unless quiet events = if quiet then [] else events
