-- ===== src/System/Gotten.antt =====
-- A request that a thread gets from the inverter and that is copied to it (kbdus/src/inverter.c and
-- kbdus/src/transceiver.c).
use bdus.Base.{
  ℕ, zero, suc, ◌≡◌, sym, ap, subst, ◌∙◌, ◌==◌, Bool, false, Bool-cases, Option-cases, List-cases,
  inl, inr, ◌∷◌, some, arith,
}
use bdus.Inverter.State.{ReqState, ItemRef, Wrapper, Inverter, wrapper_at}
use bdus.Inverter.Items.{get_round, get_pass, begin_item_get, GetResult}
use bdus.Inverter.Valid.{IsValid}
use bdus.Inverter.History.{Holds}
use bdus.Inverter.Pending.{pending, get_or-set}
use bdus.Inverter.Moves.{gets_same, gets_first}
use bdus.Inverter.Operations.Get.{get_round-IsValid}
use bdus.Inverter.Wrappers.{to_being_gotten}
use bdus.Transceiver.Receive.{Handed, get_round-Handed}

-- What a get leaves of a request that it hands out.
pub record Gotten (inv begun : Inverter) (i : ℕ) : Type 0 where
  pub valid : IsValid begun
  pub running : begun.flags.terminated ≡ false
  pub held : Holds begun i ReqState.being_gotten
  pub first : pending inv ≡ (wrapper_at begun i).item.req ∷ pending begun
  pub same_blk : begun.blk ≡ inv.blk

get_round-blk : (inv : Inverter) → (get_round inv).0.blk ≡ inv.blk
unfolding get_round get_pass to_being_gotten
get_round-blk inv = elim (List-cases inv.reqs_awaiting_get) [
  | inl e ↦ ground (arith, e)
  | inr (j, rest, e) ↦ ground (arith, e)
]

get_round-running :
    (inv : Inverter) (i : ℕ)
    → (get_round inv).1 ≡ some (ItemRef.of_wrapper i)
    → (get_round inv).0.flags.terminated ≡ false
unfolding get_round get_pass to_being_gotten
get_round-running inv i h = elim (List-cases inv.reqs_awaiting_get) [
  | inl e ↦ ground (arith, e, h)
  | inr (j, rest, e) ↦ ground (arith, e, h)
]

get_round-item :
    (inv : Inverter) (i : ℕ)
    → (get_round inv).1 ≡ some (ItemRef.of_wrapper i)
    → (wrapper_at (get_round inv).0 i).item ≡ (wrapper_at inv i).item
unfolding get_round get_pass to_being_gotten
get_round-item inv i h = elim (List-cases inv.reqs_awaiting_get) [
  | inl e ↦ absurd (ground (arith, e, h))
  | inr (j, rest, e) ↦
      let moved : Wrapper = record (wrapper_at inv j) { state = ReqState.being_gotten } in
      ground (arith, e, h, get_or-set inv.reqs_all j j moved)
]

get_round-Gotten :
    (inv : Inverter) (i : ℕ)
    → IsValid inv
    → (get_round inv).1 ≡ some (ItemRef.of_wrapper i)
    → Gotten inv (get_round inv).0 i
unfolding Handed
get_round-Gotten inv i v h =
    let held = get_round-Handed inv (ItemRef.of_wrapper i) v h in
    record {
      valid = get_round-IsValid inv v;
      running = get_round-running inv i h;
      held = held;
      first =
          gets_first inv i h
          ∙ ap (λ item. item.req ∷ pending (get_round inv).0) (sym (get_round-item inv i h));
      same_blk = get_round-blk inv;
    }

pub begin_item_get-Gotten :
    (rounds : ℕ) (signal : Bool) (inv begun : Inverter) (i : ℕ)
    → IsValid inv
    → begin_item_get rounds signal inv ≡ some (GetResult.got (ItemRef.of_wrapper i), begun)
    → Gotten inv begun i
unfolding begin_item_get
begin_item_get-Gotten zero signal inv begun i v h = cc
begin_item_get-Gotten (suc rounds) signal inv begun i v h =
    elim (Bool-cases (inv.item_is_awaiting_get == 0)) [
      | inl empty ↦ absurd (ground (arith, empty, h))
      | inr more ↦ elim (Option-cases (get_round inv).1) [
        | inr (found, e) ↦
            let same : (get_round inv).0 ≡ begun = ground (arith, more, e, h) in
            let this : found ≡ ItemRef.of_wrapper i = ground (arith, more, e, h) in
            subst (λ x. Gotten inv x i) same (get_round-Gotten inv i v (e ∙ ap some this))
        | inl e ↦
            let g =
              begin_item_get-Gotten rounds signal (get_round inv).0 begun i
                (get_round-IsValid inv v) (ground (arith, more, e, h)) in
            record {
              valid = g.valid;
              running = g.running;
              held = g.held;
              first = sym (gets_same inv (ground (arith, e))) ∙ g.first;
              same_blk = g.same_blk ∙ get_round-blk inv;
            }
      ]
    ]
