-- ===== src/Cmdbdus/Tests.antt =====
-- The code of cmdbdus/bdus.c on small inputs.
use bdus.Base.{◌≡◌, refl, true, false, List, [], ◌∷◌, ◌++◌, none, some, arith}
use bdus.Base.Int.{pos}
use bdus.Libbdus.Manage.{flush_dev, destroy_dev, get_kbdus_version}
use bdus.Cmdbdus.Numbers.{codes, parse_dev_id, print_number, is_space, is_digit, digits}
use bdus.Cmdbdus.Numerals.{parse_dev_id-numeral, parse_dev_id-print_number}
use bdus.Cmdbdus.Output.{
  Event, error, stdout, stderr, flushes, destroys, usage_version, cmdbdus_version, kbdus_version,
  unresponsive_flush_message, streq,
}
use bdus.Cmdbdus.Flush.{flush_timeout_fn, flush_errno}
use bdus.Cmdbdus.Destroy.{
  Options, get_dev_id, take_args, defaults, subcommand_destroy, flush_and_destroy,
}
use bdus.Cmdbdus.Version.{main}
use bdus.Cmdbdus.Arguments.{take_args-options_of, options_of}
use bdus.Cmdbdus.Destroying.{
  subcommand_destroy-due, flush_and_destroy_of_interrupted, status_and_calls, calls,
}
use bdus.Cmdbdus.Samples.{all_succeed, signalled, flushing, installed, version_0_1_1}

parse_dev_id-numeral_example : parse_dev_id (codes "042") ≡ some 42
unfolding is_digit
parse_dev_id-numeral_example = parse_dev_id-numeral (codes "042")

rejects_signs :
    (parse_dev_id (codes "+1") ≡ none)
    × (parse_dev_id (codes "1x") ≡ none)
    × (parse_dev_id [] ≡ none)
unfolding parse_dev_id is_space is_digit digits
rejects_signs = (refl, refl, refl)

-- ULLONG_MAX stands for a number that is too large.
rejects_max : parse_dev_id (codes "18446744073709551615") ≡ none
unfolding parse_dev_id is_space is_digit digits
rejects_max = refl

reads_printed : parse_dev_id (print_number 1024) ≡ some 1024
reads_printed = parse_dev_id-print_number 1024 (omega arith)

prints : print_number 1024 ≡ codes "1024"
unfolding print_number
prints = refl

abbrev quick : Options
quick = record { dev_path_or_id = some "7"; quiet = true; flush_dev = false }

takes_options : take_args ("--no-flush" ∷ "7" ∷ "-q" ∷ []) defaults ≡ some quick
unfolding options_of streq
takes_options = take_args-options_of ("--no-flush" ∷ "7" ∷ "-q" ∷ []) defaults

subcommand_destroy-due_example :
    status_and_calls (subcommand_destroy all_succeed ("/dev/bdus-7" ∷ []))
    ≡ (0, flushes 7 ∷ destroys 7 ∷ [])
unfolding options_of streq flush_errno flush_dev destroy_dev get_dev_id is_space is_digit
subcommand_destroy-due_example = subcommand_destroy-due all_succeed ("/dev/bdus-7" ∷ [])

flush_and_destroy_of_interrupted_example :
    (before : List Event) × (flush_and_destroy signalled flushing 7
      ≡ (1, before ++ stderr (error none) ∷ []))
    × (calls (flush_and_destroy signalled flushing 7).1 ≡ flushes 7 ∷ [])
unfolding flush_dev
flush_and_destroy_of_interrupted_example =
    flush_and_destroy_of_interrupted signalled flushing 7 refl refl refl

-- The flush ends while the timer fires: the message is printed although nothing is left to wait for.
prints_late :
    flush_timeout_fn false (record { err = pos 110; done = true } ∷ [])
    ≡ stdout unresponsive_flush_message ∷ []
unfolding flush_timeout_fn
prints_late = refl

runs_version :
    main all_succeed installed ("version" ∷ "--kbdus" ∷ "--cmdbdus" ∷ [])
    ≡ (0, stdout (cmdbdus_version version_0_1_1) ∷ stdout (kbdus_version version_0_1_1) ∷ [])
unfolding main streq get_kbdus_version
runs_version = refl

rejects_other :
    main all_succeed installed ("version" ∷ "--all" ∷ []) ≡ (2, stderr usage_version ∷ [])
unfolding main streq
rejects_other = refl
