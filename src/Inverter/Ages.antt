-- ===== src/Inverter/Ages.antt =====
-- How the changes of a wrapper in kbdus/src/inverter.c bear on the sequence number of a handle.
pub mod Steps
pub mod Loops
pub mod Blocks
use bdus.Base.{
  ℕ, ◌+◌, ◌^◌, ◌%◌, ◌≤◌, ◌≡◌, refl, ◌∙◌, ◌==◌, ltb, Bool, true, false, not, ◌&&◌, List, ◌∷◌, length,
  set, Bool-cases, inl, inr, arith,
}
use bdus.Base.Int.{ℤ}
use bdus.Inverter.State.{ReqState, Wrapper, Inverter, same_state, wrapper_at, set_state, no_wrapper}
use bdus.Inverter.Wrappers.{to_free, freed_wrapper}
use bdus.Inverter.Pending.{get_or-set}

module _ (i : ℕ) where
  abbrev pub seqnum_at : Inverter → ℕ
  seqnum_at inv = (wrapper_at inv i).item.handle_seqnum

  abbrev pub req_at : Inverter → ℕ
  req_at inv = (wrapper_at inv i).item.req

  abbrev pub in_use : Inverter → Bool
  in_use inv = not (same_state (wrapper_at inv i).state ReqState.free)

  -- Between the two, `completions` of the requests that were completed have been the wrapper's; without
  -- one the wrapper still holds its request.
  pub record Tracks (inv inv' : Inverter) : Type 0 where
    pub completions : ℕ
    pub counted : seqnum_at inv' % 2 ^ 64 ≡ (seqnum_at inv + completions) % 2 ^ 64
    pub among : length inv.blk.completed + completions ≤ length inv'.blk.completed
    pub same :
        completions ≡ 0 → in_use inv ≡ true → (in_use inv' ≡ true) × (req_at inv' ≡ req_at inv)

  pub Tracks-trans : (a b c : Inverter) → Tracks a b → Tracks b c → Tracks a c
  Tracks-trans a b c p q = record {
    completions = p.completions + q.completions;
    counted = omega (arith, p.counted, q.counted);
    among = omega (arith, p.among, q.among);
    same = λ none_done used.
        let first = p.same (omega (arith, none_done)) used in
        let second = q.same (omega (arith, none_done)) first.0 in (second.0, second.1 ∙ first.1);
  }

  pub Tracks-kept :
      (inv inv' : Inverter)
      → inv'.reqs_all ≡ inv.reqs_all
      → inv'.blk.completed ≡ inv.blk.completed
      → Tracks inv inv'
  Tracks-kept inv inv' all done = record {
    completions = 0;
    counted = ground (arith, all);
    among = ground (arith, done);
    same = λ none_done used. (ground (arith, all, used), ground (arith, all));
  }

  pub Tracks-set_state :
      (inv inv' : Inverter) (j : ℕ) (s : ReqState)
      → same_state s ReqState.free ≡ false
      → inv'.reqs_all ≡ (set_state inv j s).reqs_all
      → inv'.blk.completed ≡ inv.blk.completed
      → Tracks inv inv'
  Tracks-set_state inv inv' j s used all done =
      let now = get_or-set inv.reqs_all j i (record (wrapper_at inv j) { state = s }) in
      record {
        completions = 0;
        counted = ground (arith, all, now);
        among = ground (arith, done);
        same = λ none_done was. (ground (arith, all, now, was, used), ground (arith, all, now));
      }

  pub Tracks-to_free : (inv : Inverter) (j : ℕ) (a b : ℤ) → Tracks inv (to_free inv j a b)
  unfolding to_free
  Tracks-to_free inv j a b =
      let now = get_or-set inv.reqs_all j i (freed_wrapper (wrapper_at inv j)) in
      elim (Bool-cases ((j == i) && ltb j (length inv.reqs_all))) [
        | inl own ↦ record {
          completions = 1;
          counted = ground (arith, now, own);
          among = omega arith;
          same = λ none_done was. absurd (omega (arith, none_done));
        }
        | inr other ↦ record {
          completions = 0;
          counted = ground (arith, now, other);
          among = omega arith;
          same = λ none_done was. (ground (arith, now, other, was), ground (arith, now, other));
        }
      ]
