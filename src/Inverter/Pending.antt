-- ===== src/Inverter/Pending.antt =====
-- The requests in the queue of kbdus/src/inverter.c, in their order: what the lists of wrappers
-- stand for.
use bdus.Base.{
  ℕ, zero, suc, ◌≡◌, refl, ap, ◌==◌, ltb, if◌then◌else◌, Bool-cases, false, ◌&&◌, List, [], ◌∷◌,
  ◌++◌, map, inl, inr, ◌⊎◌, length, get_or, set, remove, remove_head, count, arith,
}
use bdus.Base.Int.{ℤ}
use bdus.Inverter.State.{ReqState, Wrapper, Inverter, same_state, wrapper_at, no_wrapper}
use bdus.Inverter.Wrappers.{
  to_awaiting_get, to_being_gotten, to_awaiting_completion, to_being_completed, to_free,
  freed_wrapper, cancel_due_to_termination,
}

abbrev pub request_of : List Wrapper → ℕ → ℕ
request_of ws i = (get_or ws i no_wrapper).item.req

abbrev pub requests_of : List Wrapper → List ℕ → List ℕ
requests_of ws is = map (request_of ws) is

unfoldable pub pending : Inverter → List ℕ
pending inv = requests_of inv.reqs_all inv.reqs_awaiting_get

pub get_or-set :
    (ws : List Wrapper) (i j : ℕ) (v : Wrapper)
    → get_or (set ws i v) j no_wrapper
      ≡ (if (i == j) && ltb i (length ws) then v else get_or ws j no_wrapper)
get_or-set [] i j v = ground arith
get_or-set (x ∷ ws) zero zero v = ground arith
get_or-set (x ∷ ws) zero (suc j) v = ground arith
get_or-set (x ∷ ws) (suc i) zero v = ground arith
get_or-set (x ∷ ws) (suc i) (suc j) v = ground (arith, get_or-set ws i j v)

-- A wrapper that keeps its request leaves the queue as it is.
requests_of-set_same :
    (ws : List Wrapper) (i : ℕ) (v : Wrapper) (is : List ℕ)
    → v.item.req ≡ request_of ws i
    → requests_of (set ws i v) is ≡ requests_of ws is
requests_of-set_same ws i v [] same = refl
requests_of-set_same ws i v (j ∷ is) same =
    ground (arith, get_or-set ws i j v, requests_of-set_same ws i v is same)

-- So does a wrapper that is not in the queue.
pub requests_of-set_absent :
    (ws : List Wrapper) (i : ℕ) (v : Wrapper) (is : List ℕ)
    → count i is ≡ 0
    → requests_of (set ws i v) is ≡ requests_of ws is
requests_of-set_absent ws i v [] absent = refl
requests_of-set_absent ws i v (j ∷ is) absent =
    ground (arith, get_or-set ws i j v, requests_of-set_absent ws i v is)

module _ (inv : Inverter) (i : ℕ) where
  pub pending-to_awaiting_completion : pending (to_awaiting_completion inv i) ≡ pending inv
  unfolding pending to_awaiting_completion
  pending-to_awaiting_completion = requests_of-set_same inv.reqs_all i _ inv.reqs_awaiting_get refl

  pub pending-to_being_completed : pending (to_being_completed inv i) ≡ pending inv
  unfolding pending to_being_completed
  pending-to_being_completed = requests_of-set_same inv.reqs_all i _ inv.reqs_awaiting_get refl

  pub pending-to_free :
      (a b : ℤ)
      → same_state (wrapper_at inv i).state ReqState.awaiting_get ≡ false
      → pending (to_free inv i a b) ≡ pending inv
  unfolding pending to_free
  pending-to_free a b other =
      rw other (requests_of-set_same inv.reqs_all i _ inv.reqs_awaiting_get refl)

  pub pending-cancel_due_to_termination :
      same_state (wrapper_at inv i).state ReqState.awaiting_get ≡ false
      → pending (cancel_due_to_termination inv i) ≡ pending inv
  unfolding cancel_due_to_termination
  pending-cancel_due_to_termination other = pending-to_free _ _ other

  -- A wrapper that comes back goes to the head.
  pub pending-to_awaiting_get :
      same_state (wrapper_at inv i).state ReqState.free ≡ false
      → pending (to_awaiting_get inv i) ≡ (wrapper_at inv i).item.req ∷ pending inv
  unfolding pending to_awaiting_get
  pending-to_awaiting_get other =
      rw other (requests_of-set_same inv.reqs_all i _ (i ∷ inv.reqs_awaiting_get) refl)

  -- The first wrapper leaves.
  pub pending-to_being_gotten :
      (rest : List ℕ)
      → inv.reqs_awaiting_get ≡ i ∷ rest
      → pending inv ≡ (wrapper_at inv i).item.req ∷ pending (to_being_gotten inv i)
  unfolding pending to_being_gotten
  pending-to_being_gotten rest first = ground (
    arith,
    first,
    remove_head i rest,
    requests_of-set_same inv.reqs_all i
        (record (wrapper_at inv i) { state = ReqState.being_gotten }) rest refl,
  )

-- One request leaves, from anywhere, or none does.
abbrev pub Expires : List ℕ → List ℕ → Type 0
Expires q q' =
    ((q' ≡ q)
      ⊎ ((before : List ℕ) × (r : ℕ) × (after : List ℕ) × (q ≡ before ++ r ∷ after)
          × (q' ≡ before ++ after)))

requests_of-remove :
    (ws : List Wrapper) (i : ℕ) (is : List ℕ)
    → Expires (requests_of ws is) (requests_of ws (remove i is))
unfolding remove
requests_of-remove ws i [] = inl refl
requests_of-remove ws i (j ∷ is) = elim (Bool-cases (j == i)) [
  | inl same ↦ inr ([], request_of ws j, requests_of ws is, refl, rw same refl)
  | inr other ↦ elim (requests_of-remove ws i is) [
    | inl e ↦ inl (rw other (ap (λ q. request_of ws j ∷ q) e))
    | inr (before, r, after, e, e') ↦ inr (
      request_of ws j ∷ before,
      r,
      after,
      ap (λ q. request_of ws j ∷ q) e,
      rw other (ap (λ q. request_of ws j ∷ q) e'),
    )
  ]
]

pub pending-to_free_awaiting :
    (inv : Inverter) (i : ℕ) (a b : ℤ) → Expires (pending inv) (pending (to_free inv i a b))
unfolding pending to_free
pending-to_free_awaiting inv i a b =
    let awaits = same_state (wrapper_at inv i).state ReqState.awaiting_get in
    elim (Bool-cases awaits) [
      | inl queued ↦ rw queued (
          rw
            (requests_of-set_same inv.reqs_all i
              (record (freed_wrapper (wrapper_at inv i)) { state = ReqState.free })
              (remove i inv.reqs_awaiting_get) refl)
            (requests_of-remove inv.reqs_all i inv.reqs_awaiting_get))
      | inr other ↦ inl (pending-to_free inv i a b other)
    ]
