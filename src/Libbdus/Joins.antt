-- ===== src/Libbdus/Joins.antt =====
-- Every thread that `bdus_run_3_` of libbdus/src/backend.c creates is joined.
use bdus.Base.{
  ℕ, zero, suc, ◌+◌, ◌-◌, ◌<◌, ◌≤◌, ◌≡◌, refl, ◌==◌, ltb, leb, if◌then◌else◌, Bool-cases, inl, inr,
  true, false, not, ◌&&◌, ◌||◌, List, [], ◌∷◌, none, arith,
}
use bdus.Base.Int.{ℤ}
use bdus.Libbdus.Attrs.{is_set}
use bdus.Libbdus.Worker.{Status, is_error}
use bdus.Libbdus.Threads.{
  Act, creates, joins, join_from, join_below, first_error, create_from, run_3,
}

-- How often a thread is created, and how often it is joined.
abbrev pub creations : ℕ → List Act → ℕ
creations j [] = 0
creations j (creates i ∷ acts) = (if i == j then 1 else 0) + creations j acts
creations j (_ ∷ acts) = creations j acts

abbrev pub joinings : ℕ → List Act → ℕ
joinings j [] = 0
joinings j (joins i ∷ acts) = (if i == j then 1 else 0) + joinings j acts
joinings j (_ ∷ acts) = joinings j acts

abbrev within : ℕ → ℕ → ℕ → ℕ
within lo hi j = if leb lo j && ltb j hi then 1 else 0

joinings-join_from : (rounds i j : ℕ) → joinings j (join_from rounds i) ≡ within i (i + rounds) j
unfolding join_from
joinings-join_from zero i j = ground arith
joinings-join_from (suc rounds) i j = ground (arith, joinings-join_from rounds (i + 1) j)

creations-join_from : (rounds i j : ℕ) → creations j (join_from rounds i) ≡ 0
unfolding join_from
creations-join_from zero i j = refl
creations-join_from (suc rounds) i j = creations-join_from rounds (i + 1) j

joinings-join_below : (i j : ℕ) → joinings j (join_below i) ≡ within 1 i j
unfolding join_below
joinings-join_below zero j = ground arith
joinings-join_below (suc zero) j = ground arith
joinings-join_below (suc (suc i)) j = ground (arith, joinings-join_below (suc i) j)

creations-join_below : (i j : ℕ) → creations j (join_below i) ≡ 0
unfolding join_below
creations-join_below zero j = refl
creations-join_below (suc zero) j = refl
creations-join_below (suc (suc i)) j = creations-join_below (suc i) j

-- The threads below `i` were created before.
joinings-create_from :
    (n rounds i j : ℕ) (created : ℕ → ℤ) (status : ℕ → Status)
    → 1 ≤ i
    → i + rounds ≡ n
    → joinings j (create_from n rounds i created status).acts
      ≡ creations j (create_from n rounds i created status).acts + within 1 i j
unfolding create_from
joinings-create_from n zero i j created status lo e =
    ground (arith, joinings-join_from (n - 1) 1 j, creations-join_from (n - 1) 1 j)
joinings-create_from n (suc rounds) i j created status lo e = ground (
  arith,
  joinings-join_below i j,
  creations-join_below i j,
  joinings-create_from n rounds (i + 1) j created status,
)

first_error-none :
    (rounds i j : ℕ) (status : ℕ → Status)
    → first_error rounds i status ≡ none
    → i ≤ j
    → j < i + rounds
    → is_error (status j) ≡ false
unfolding first_error
first_error-none zero i j status h lo hi = absurd (omega arith)
first_error-none (suc rounds) i j status h lo hi = elim (Bool-cases (i == j)) [
  | inl same ↦ ground arith
  | inr other ↦ ground (arith, first_error-none rounds (i + 1) j status)
]

create_from-none :
    (n rounds i j : ℕ) (created : ℕ → ℤ) (status : ℕ → Status)
    → (create_from n rounds i created status).result ≡ none
    → j < n
    → is_error (status j) ≡ false
unfolding create_from
create_from-none n zero i j created status h lt =
    first_error-none n 0 j status h (omega arith) (omega arith)
create_from-none n (suc rounds) i j created status h lt =
    ground (arith, create_from-none n rounds (i + 1) j created status)

-- Whatever `pthread_create` and the threads do, for each of the threads: it is joined as often as
-- it is created, and it did not fail or the run leaves an error.
pub joinings-run_3 :
    (n j : ℕ) (created : ℕ → ℤ) (status : ℕ → Status)
    → j < n
    → let run = run_3 n created status in
      (joinings j run.acts ≡ creations j run.acts)
      × ((not (is_error (status j)) || is_set run.result) ≡ true)
unfolding run_3
joinings-run_3 n j created status lt = (
  ground (arith, joinings-create_from n (n - 1) 1 j created status),
  ground (arith, create_from-none n (n - 1) 1 j created status),
)
