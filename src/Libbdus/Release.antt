-- ===== src/Libbdus/Release.antt =====
-- Everything that `bdus_backend_run_` (libbdus/src/backend.c) maps and allocates is released.
use bdus.Base.{
  ℕ, zero, suc, ◌+◌, ◌≡◌, refl, ◌∙◌, ◌==◌, if◌then◌else◌, Bool, Bool-cases, if_intro, inl, inr,
  true, false, ◌&&◌, List, [], ◌∷◌, ◌++◌, Option, Option-cases, none, some, arith,
}
use bdus.Libbdus.Driver.{Ops, Attrs}
use bdus.Libbdus.Mappings.{
  Layout, Mapping, Event, allocates_contexts, frees_contexts, runs, maps, unmaps, System,
  map_payloads, unmap_payloads, release_all, map_and_run, backend_run, payload_mapping, rai_mapping,
  layout_of,
}

-- What is held: the mappings, the latest first, and whether the contexts are allocated.
pub record Resources : Type 0 where
  pub mapped : List Mapping
  pub contexts : Bool

abbrev pub same_mapping : Mapping → Mapping → Bool
same_mapping a b = (a.offset == b.offset) && (a.length == b.length)

unmap_top : List Mapping → Bool → Mapping → Option Resources
unmap_top [] contexts m = none
unmap_top (top ∷ rest) contexts m =
    if same_mapping top m then some (record { mapped = rest; contexts = contexts }) else none

abbrev pub same_mappings : List Mapping → List Mapping → Bool
same_mappings [] [] = true
same_mappings (a ∷ rest) (b ∷ others) = same_mapping a b && same_mappings rest others
same_mappings _ _ = false

same_mappings_refl : (ms : List Mapping) → same_mappings ms ms ≡ true
same_mappings_refl [] = refl
same_mappings_refl (m ∷ ms) = ground (arith, same_mappings_refl ms)

-- The payloads of the threads below `i`, the last first, over the structures.
unfoldable pub payloads_below : Layout → ℕ → List Mapping
payloads_below l zero = rai_mapping l ∷ []
payloads_below l (suc i) = payload_mapping l i ∷ payloads_below l i

-- What the threads need to run: the structures and, unless payloads are empty, one for each thread.
abbrev pub needed : Layout → ℕ → List Mapping
needed l num_threads =
    if l.max_payload_size == 0 then rai_mapping l ∷ [] else payloads_below l num_threads

abbrev pub nothing_held : Resources
nothing_held = record { mapped = []; contexts = false }

abbrev holding : List Mapping → Resources
holding ms = record { mapped = ms; contexts = true }

module _ (wanted : List Mapping) where
  -- An event is possible only where its resource is there: what is unmapped is the latest mapping, the
  -- contexts are freed once, and the threads run with the contexts and exactly the wanted mappings.
  unfoldable pub happens : Event → Resources → Option Resources
  unfolding unmap_top
  happens allocates_contexts r = if r.contexts then none else some (record r { contexts = true })
  happens frees_contexts r = if r.contexts then some (record r { contexts = false }) else none
  happens runs r = if r.contexts && same_mappings r.mapped wanted then some r else none
  happens (maps m) r = some (record r { mapped = m ∷ r.mapped })
  happens (unmaps m) r = unmap_top r.mapped r.contexts m

  unfoldable pub all_happen : List Event → Resources → Option Resources
  all_happen [] r = some r
  all_happen (e ∷ es) r = elim (happens e r) [ none ↦ none | some r' ↦ all_happen es r' ]

  all_happen-append :
      (es fs : List Event) (r : Resources) {s : Resources}
      → all_happen es r ≡ some s
      → all_happen (es ++ fs) r ≡ all_happen fs s
  unfolding all_happen
  all_happen-append [] fs r h = ground arith
  all_happen-append (e ∷ es) fs r {s} h = elim (Option-cases (happens e r)) [
    | inl n ↦ ground arith
    | inr (r', there) ↦ ground (arith, all_happen-append es fs r' {s = s})
  ]

module _ (wanted : List Mapping) (l : Layout) where
  map_payloads-holding :
      (rounds i : ℕ) (mapped : ℕ → Bool)
      → (l.max_payload_size == 0) ≡ false
      → all_happen wanted (map_payloads l rounds i mapped).1 (holding (payloads_below l i))
        ≡ some (holding (payloads_below l (map_payloads l rounds i mapped).2))
  unfolding all_happen happens map_payloads payloads_below
  map_payloads-holding zero i mapped h = refl
  map_payloads-holding (suc rounds) i mapped h =
      ground (arith, map_payloads-holding rounds (i + 1) mapped h)

  unmap_payloads-holding :
      (i : ℕ)
      → all_happen wanted (unmap_payloads l i) (holding (payloads_below l i))
        ≡ some (holding (rai_mapping l ∷ []))
  unfolding all_happen happens unmap_payloads payloads_below
  unmap_payloads-holding zero = refl
  unmap_payloads-holding (suc i) = ground (arith, unmap_payloads-holding i)

  map_payloads_of_none :
      (rounds i : ℕ) (mapped : ℕ → Bool)
      → (l.max_payload_size == 0) ≡ true
      → ((map_payloads l rounds i mapped).0 ≡ true) × ((map_payloads l rounds i mapped).1 ≡ [])
  unfolding map_payloads
  map_payloads_of_none zero i mapped h = (refl, refl)
  map_payloads_of_none (suc rounds) i mapped h =
      ground (arith, map_payloads_of_none rounds (i + 1) mapped h)

  -- The thread at which the loop stops is the number of threads where all payloads are mapped.
  map_payloads_last :
      (rounds i : ℕ) (mapped : ℕ → Bool)
      → (map_payloads l rounds i mapped).0 ≡ true
      → (map_payloads l rounds i mapped).2 ≡ i + rounds
  unfolding map_payloads
  map_payloads_last zero i mapped h = omega arith
  map_payloads_last (suc rounds) i mapped h =
      ground (arith, map_payloads_last rounds (i + 1) mapped)

  abbrev last_events : List Event
  last_events = unmaps (rai_mapping l) ∷ frees_contexts ∷ []

  last_events_lem : all_happen wanted last_events (holding (rai_mapping l ∷ [])) ≡ some nothing_held
  unfolding all_happen happens
  last_events_lem = ground arith

  -- From all payloads below a thread, everything is released.
  unmap_payloads_released :
      (i : ℕ)
      → all_happen wanted (unmap_payloads l i ++ last_events) (holding (payloads_below l i))
        ≡ some nothing_held
  unmap_payloads_released i =
      all_happen-append wanted (unmap_payloads l i) last_events (holding (payloads_below l i))
        (unmap_payloads-holding i)
      ∙ last_events_lem

  runs_lem :
      (es : List Event) (ms : List Mapping)
      → ms ≡ wanted
      → all_happen wanted (runs ∷ es) (holding ms) ≡ all_happen wanted es (holding ms)
  unfolding all_happen happens
  runs_lem es ms e = ground (arith, e, same_mappings_refl wanted)

  map_and_run_released :
      (sys : System) (num_threads : ℕ)
      → needed l num_threads ≡ wanted
      → all_happen wanted (map_and_run l sys num_threads).1 (holding (rai_mapping l ∷ []))
        ≡ some nothing_held
  unfolding map_and_run release_all payloads_below
  map_and_run_released sys num_threads e =
      let mapping = map_payloads l num_threads 0 sys.payload_mapped in
      let reached : mapping.0 ≡ true → mapping.2 ≡ num_threads =
        λ all. omega (arith, map_payloads_last num_threads 0 sys.payload_mapped all) in
      let holds = map_payloads-holding num_threads 0 sys.payload_mapped in
      elim (Bool-cases (l.max_payload_size == 0)) [
        | inl empty ↦ ground (
          arith,
          map_payloads_of_none num_threads 0 sys.payload_mapped empty,
          runs_lem last_events (rai_mapping l ∷ []) (ground (arith, e, empty)),
          last_events_lem,
        )
        | inr used ↦
            if_intro
              (λ (r : Bool × List Event).
                all_happen wanted r.1 (holding (rai_mapping l ∷ [])) ≡ some nothing_held)
              mapping.0 _ _
              (λ all.
                all_happen-append wanted mapping.1 _ _ (holds used)
                ∙ rw (reached all, used)
                    (runs_lem _ _ (ground (arith, e, used)) ∙ unmap_payloads_released num_threads))
              (λ _.
                all_happen-append wanted mapping.1 _ _ (holds used)
                ∙ unmap_payloads_released mapping.2)
      ]

-- Whatever the system answers, and on every path: each memory that is mapped is unmapped once, in
-- the reverse order, the contexts are freed once where they were allocated, and the threads run only
-- while the contexts are there and exactly the structures and, unless payloads are empty, the payload
-- of each thread are mapped.
pub backend_run_released :
    {S : Type 0} (sys : System) (ops : Ops S) (attrs : Attrs) (max_outstanding_reqs : ℕ)
    → let l = layout_of sys.page_size ops attrs max_outstanding_reqs in
      all_happen
        (needed l attrs.max_concurrent_callbacks)
        (backend_run sys ops attrs max_outstanding_reqs).1
        nothing_held
      ≡ some nothing_held
unfolding backend_run all_happen happens
backend_run_released sys ops attrs max_outstanding_reqs =
    let l = layout_of sys.page_size ops attrs max_outstanding_reqs in
    let wanted = needed l attrs.max_concurrent_callbacks in
    ground (arith, map_and_run_released wanted l sys attrs.max_concurrent_callbacks refl)
