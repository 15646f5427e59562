-- ===== src/Inverter/Operations/Activate.antt =====
-- `kbdus_inverter_activate` (kbdus/src/inverter.c).
use bdus.Base.{
  ℕ, zero, suc, ◌+◌, ◌≤◌, ◌<◌, ◌≡◌, refl, List, [], ◌∷◌, some, true, false, get_elem?,
  get_elem?_of_lt, get_or_of_some, subst, ◌∙◌, length, drop, set, arith, if_intro, if◌then◌else◌,
  Bool-cases, inl, inr,
}
use native.Mathlib.Numerals.{add-one}
use bdus.Inverter.State.{ReqState, Wrapper, Flags, Inverter, same_state, no_wrapper, wrapper_at}
use bdus.Inverter.Wrappers.{to_awaiting_get}
use bdus.Inverter.Lifecycle.{reawait, reawait_in, activate, for_range}
use bdus.Inverter.Valid.{Core, IsValid}
use bdus.Inverter.Sizes.{length-lists, count_state}
use bdus.Inverter.Transitions.Valid.{to_awaiting_get-Core}
use bdus.Inverter.Operations.Range.{for_range_inv}

-- The wrappers from a position on that are queued.
abbrev queued_from : ℕ → List Wrapper → ℕ
queued_from n ws = count_state ReqState.awaiting_get (drop n ws)

queued_from-suc :
    (ws : List Wrapper) (j : ℕ) {w : Wrapper}
    → get_elem? ws j ≡ some w
    → queued_from j ws
      ≡ (if same_state w.state ReqState.awaiting_get then 1 else 0) + queued_from (suc j) ws
queued_from-suc [] j e = cc
queued_from-suc (x ∷ ws) zero e = ground arith
queued_from-suc (x ∷ ws) (suc j) e = queued_from-suc ws j e

queued_from-set :
    (ws : List Wrapper) (j : ℕ) (v : Wrapper)
    → queued_from (suc j) (set ws j v) ≡ queued_from (suc j) ws
queued_from-set [] j v = refl
queued_from-set (x ∷ ws) zero v = refl
queued_from-set (x ∷ ws) (suc j) v = queued_from-set ws j v

queued_from-end : (ws : List Wrapper) → queued_from (length ws) ws ≡ 0
queued_from-end [] = refl
queued_from-end (w ∷ ws) = queued_from-end ws

-- Up to a position every queued wrapper has had its wake-up.
record Woken (flags : Flags) (num n : ℕ) (s : Inverter) : Type 0 where
  core : Core s
  enough : length s.reqs_awaiting_get ≤ s.item_is_awaiting_get + queued_from n s.reqs_all
  few : s.item_is_awaiting_get ≤ n
  same_flags : s.flags ≡ flags
  same_num : s.num_reqs ≡ num

module _ (flags : Flags) (num j : ℕ) (s : Inverter) (w : Wrapper) (lt : j < num)
    (f : Woken flags num j s) (at : get_elem? s.reqs_all j ≡ some w) where
  idle_round : same_state w.state ReqState.awaiting_get ≡ false → Woken flags num (suc j) s
  idle_round h = record {
    core = f.core;
    enough = ground (arith, f.enough, queued_from-suc s.reqs_all j at);
    few = omega (arith, f.few);
    same_flags = f.same_flags;
    same_num = f.same_num;
  }

  reawait_in-Woken : (st : ReqState) → w.state ≡ st → Woken flags num (suc j) (reawait_in s j st)
  unfolding reawait_in to_awaiting_get
  reawait_in-Woken ReqState.awaiting_get e = record {
    core = record {
      size = f.core.size;
      small = f.core.small;
      lists = record {
        free_list = f.core.lists.free_list;
        awaiting_list = f.core.lists.awaiting_list;
      };
      wrappers = f.core.wrappers;
      balanced = f.core.balanced;
    };
    enough =
        ground (arith, f.enough, f.few, f.core.small, f.same_num, queued_from-suc s.reqs_all j at);
    few = ground (arith, f.few);
    same_flags = f.same_flags;
    same_num = f.same_num;
  }
  reawait_in-Woken ReqState.awaiting_completion e = record {
    core = to_awaiting_get-Core s j w f.core at (ground arith) (ground arith);
    enough = ground (
      arith,
      f.enough,
      f.few,
      f.core.small,
      f.same_num,
      get_or_of_some s.reqs_all j no_wrapper at,
      queued_from-suc s.reqs_all j at,
      queued_from-set s.reqs_all j (record w { state = ReqState.awaiting_get }),
    );
    few = ground (arith, f.few);
    same_flags = f.same_flags;
    same_num = f.same_num;
  }
  reawait_in-Woken ReqState.free e = idle_round (ground arith)
  reawait_in-Woken ReqState.being_gotten e = idle_round (ground arith)
  reawait_in-Woken ReqState.being_completed e = idle_round (ground arith)

reawait-Woken :
    (flags : Flags) (num j : ℕ) (s : Inverter)
    → j < num
    → Woken flags num j s
    → Woken flags num (j + 1) (reawait s j)
unfolding reawait
reawait-Woken flags num j s lt f =
    let (w, at) = get_elem?_of_lt s.reqs_all j (ground (arith, f.core.size, f.same_num)) in
    rw add-one (
      reawait_in-Woken flags num j s w lt f at (wrapper_at s j).state
        (ground (arith, get_or_of_some s.reqs_all j no_wrapper at)))

abbrev active_flags : Inverter → Flags
active_flags inv = record (inv.flags) { deactivated = false; deactivated_not_flushed = false }

loop_Woken :
    (inv : Inverter)
    → Core inv
    → Woken (active_flags inv) inv.num_reqs inv.num_reqs (
        for_range inv.num_reqs 0 reawait
          (record inv { flags = active_flags inv; item_is_awaiting_get = 0 }))
loop_Woken inv v =
    for_range_inv (Woken _ inv.num_reqs) reawait inv.num_reqs (reawait-Woken _ inv.num_reqs)
      inv.num_reqs 0 (omega arith) _
      (record {
        core = record {
          size = v.size;
          small = v.small;
          lists = record { free_list = v.lists.free_list; awaiting_list = v.lists.awaiting_list };
          wrappers = v.wrappers;
          balanced = v.balanced;
        };
        enough = rw ((length-lists inv v.lists).1) (omega arith);
        few = omega arith;
        same_flags = refl;
        same_num = refl;
      })

-- Activation keeps the inverter valid: each queued request has its wake-up again.
pub activate-IsValid :
    (inv : Inverter) → IsValid inv → inv.flags.terminated ≡ false → IsValid (activate inv)
unfolding activate
activate-IsValid inv v running =
    if_intro IsValid inv.flags.deactivated _ _
      (λ _.
        if_intro IsValid requeued.flags.send_device_available _ _
          (λ sent. record {
            core = record {
              size = f.core.size;
              small = f.core.small;
              lists = record {
                free_list = f.core.lists.free_list;
                awaiting_list = f.core.lists.awaiting_list;
              };
              wrappers = f.core.wrappers;
              balanced = f.core.balanced;
            };
            at_rest = λ t. absurd (stopped t);
            wakeups = ground (arith, f.enough, f.few, f.same_flags, v.small, all_woken);
          })
          (λ unsent. record {
            core = f.core;
            at_rest = λ t. absurd (stopped t);
            wakeups = ground (arith, f.enough, f.few, f.same_flags, v.small, all_woken);
          }))
      (λ _. v)
  where
    requeued : Inverter
    requeued =
        for_range inv.num_reqs 0 reawait
          (record inv { flags = active_flags inv; item_is_awaiting_get = 0 })

    f : Woken (active_flags inv) inv.num_reqs inv.num_reqs requeued
    f = loop_Woken inv v.core

    stopped : ¬ (requeued.flags.terminated ≡ true)
    stopped t = ground (arith, f.same_flags)

    all_woken : queued_from inv.num_reqs requeued.reqs_all ≡ 0
    all_woken =
        subst (λ n. queued_from n requeued.reqs_all ≡ 0) (f.core.size ∙ f.same_num)
          (queued_from-end requeued.reqs_all)

-- An activated inverter is not deactivated, and is terminated only if it was.
pub flags-activate :
    (inv : Inverter)
    → IsValid inv
    → ((activate inv).flags.deactivated ≡ false)
      × ((activate inv).flags.terminated ≡ inv.flags.terminated)
unfolding activate
flags-activate inv v = elim (Bool-cases inv.flags.deactivated) [
  | inl d ↦ (
    ground (arith, (loop_Woken inv v.core).same_flags),
    ground (arith, (loop_Woken inv v.core).same_flags),
  )
  | inr a ↦ (ground arith, ground arith)
]
