-- ===== src/Cmdbdus/Arguments.antt =====
-- The arguments of `bdus destroy` (cmdbdus/bdus.c).
use bdus.Base.{
  ◌≡◌, refl, if◌then◌else◌, Bool, true, false, not, ◌&&◌, ◌||◌, inl, inr, subst, sym, Bool-cases,
  Option-cases, List, [], ◌∷◌, Option, none, some, arith,
}
use bdus.Cmdbdus.Output.{streq}
use bdus.Cmdbdus.Destroy.{Options, take_arg, take_args}
use text.Mathlib.TextEquality.{eq_iff}
use Prim.Native.String.{String}

abbrev pub is_quiet : String → Bool
is_quiet arg = streq arg "-q" || streq arg "--quiet"

abbrev pub is_no_flush : String → Bool
is_no_flush arg = streq arg "--no-flush"

abbrev pub holds_some : (String → Bool) → List String → Bool
holds_some p [] = false
holds_some p (arg ∷ args) = p arg || holds_some p args

-- The arguments that are no options.
abbrev pub others : List String → List String
others [] = []
others (arg ∷ args) = if is_quiet arg || is_no_flush arg then others args else arg ∷ others args

-- The path or id, given the one that was found before.
abbrev pub only_one : Option String → List String → Option (Option String)
only_one first [] = some first
only_one none (arg ∷ []) = some (some arg)
only_one _ _ = none

unfoldable pub options_of : Options → List String → Option Options
options_of o args = elim (only_one o.dev_path_or_id (others args)) [
  | none ↦ none
  | some one ↦ some (record {
    dev_path_or_id = one;
    quiet = o.quiet || holds_some is_quiet args;
    flush_dev = o.flush_dev && not (holds_some is_no_flush args);
  })
]

only_one_of_first :
    (s : String) (rest : List String) → only_one none (s ∷ rest) ≡ only_one (some s) rest
only_one_of_first s [] = refl
only_one_of_first s (t ∷ rest) = refl

only_one_of_two : (s t : String) (rest : List String) → only_one (some s) (t ∷ rest) ≡ none
only_one_of_two s t rest = refl

quiet_or_no_flush : (arg : String) → is_quiet arg ≡ true → is_no_flush arg ≡ false
unfolding streq
quiet_or_no_flush arg h = elim (Bool-cases (streq arg "-q")) [
  | inl e ↦ subst (λ s. is_no_flush s ≡ false) (sym ((eq_iff arg "-q").0 e)) refl
  | inr n ↦
      subst (λ s. is_no_flush s ≡ false) (sym ((eq_iff arg "--quiet").0 (ground (arith, n, h))))
        refl
]

pub take_args-options_of : (args : List String) (o : Options) → take_args args o ≡ options_of o args
unfolding take_args take_arg options_of
take_args-options_of [] o = ground arith
take_args-options_of (arg ∷ args) o = elim (Option-cases o.dev_path_or_id) [
  | inl h ↦ ground (
    arith,
    h,
    quiet_or_no_flush arg,
    only_one_of_first arg (others args),
    take_args-options_of args (record o { quiet = true }),
    take_args-options_of args (record o { flush_dev = false }),
    take_args-options_of args (record o { dev_path_or_id = some arg }),
  )
  | inr (s, h) ↦ ground (
    arith,
    h,
    quiet_or_no_flush arg,
    only_one_of_two s arg (others args),
    take_args-options_of args (record o { quiet = true }),
    take_args-options_of args (record o { flush_dev = false }),
  )
]

abbrev pub is_help : List String → Bool
is_help (arg ∷ []) = streq arg "--help"
is_help _ = false
