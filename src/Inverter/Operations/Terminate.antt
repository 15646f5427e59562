-- ===== src/Inverter/Operations/Terminate.antt =====
-- `kbdus_inverter_terminate` (kbdus/src/inverter.c).
use bdus.Base.{
  ℕ, ◌+◌, ◌<◌, ◌≡◌, refl, leb, ◌||◌, Bool, inl, inr, true, get_elem?_of_lt, get_or_of_some,
  get_elem?-set, get_elem?-lt, arith, if_intro, Bool-cases,
}
use bdus.Base.Errno.{eio, enodev}
use bdus.Inverter.State.{ReqState, Wrapper, Flags, Inverter, same_state, no_wrapper, wrapper_at}
use bdus.Inverter.Wrappers.{to_free, cancel_due_to_termination, freed_wrapper}
use bdus.Inverter.Lifecycle.{fail_if_awaiting, terminate, for_range}
use bdus.Inverter.Valid.{Core, IsValid, Everywhere, settled}
use bdus.Inverter.Sizes.{length-le-size}
use bdus.Inverter.Transitions.Valid.{to_free-Core}
use bdus.Inverter.Operations.Range.{for_range_inv}

-- The wrappers below the bound are settled.
abbrev settled_below : ℕ → ℕ → Wrapper → Bool
settled_below n j w = leb n j || settled j w

record Failed (flags : Flags) (num : ℕ) (n : ℕ) (s : Inverter) : Type 0 where
  core : Core s
  done_below : Everywhere (settled_below n) s.reqs_all
  same_flags : s.flags ≡ flags
  same_num : s.num_reqs ≡ num

fail_if_awaiting-Failed :
    (flags : Flags) (num j : ℕ) (s : Inverter)
    → j < num
    → Failed flags num j s
    → Failed flags num (j + 1) (fail_if_awaiting s j)
unfolding fail_if_awaiting cancel_due_to_termination to_free
fail_if_awaiting-Failed flags num j s lt f =
    let (w, at) = get_elem?_of_lt s.reqs_all j (ground (arith, f.core.size, f.same_num)) in
    let at' = get_or_of_some s.reqs_all j no_wrapper at in
    if_intro (Failed flags num (j + 1))
      (same_state (wrapper_at s j).state ReqState.awaiting_get
        || same_state (wrapper_at s j).state ReqState.awaiting_completion)
      _ _
      (λ waiting. record {
        core = to_free-Core s j w f.core at eio enodev (ground (arith, at'));
        done_below = λ k x e.
            ground
              (arith, at', f.done_below k x, get_elem?-set s.reqs_all j k (freed_wrapper w) at);
        same_flags = f.same_flags;
        same_num = f.same_num;
      })
      (λ idle. record {
        core = f.core;
        done_below = λ k x e. ground (arith, at', f.done_below k x e);
        same_flags = f.same_flags;
        same_num = f.same_num;
      })

-- The loop starts with the flag set, and ends with every wrapper settled.
loop_Failed :
    (inv : Inverter)
    → Core inv
    → let flags' = record (inv.flags) { terminated = true } in
      Failed flags' inv.num_reqs inv.num_reqs
        (for_range inv.num_reqs 0 fail_if_awaiting (record inv { flags = flags' }))
loop_Failed inv v =
    for_range_inv (Failed _ inv.num_reqs) fail_if_awaiting inv.num_reqs
      (fail_if_awaiting-Failed _ inv.num_reqs) inv.num_reqs 0 (omega arith) _
      (record {
        core = record {
          size = v.size;
          small = v.small;
          lists = record { free_list = v.lists.free_list; awaiting_list = v.lists.awaiting_list };
          wrappers = v.wrappers;
          balanced = v.balanced;
        };
        done_below = λ k x e. ground arith;
        same_flags = refl;
        same_num = refl;
      })

-- Termination fails every request that waits, and leaves the inverter valid.
pub terminate-IsValid : (inv : Inverter) → IsValid inv → IsValid (terminate inv)
unfolding terminate
terminate-IsValid inv v =
    if_intro IsValid inv.flags.terminated _ _ (λ _. v)
      (λ _.
        let f = loop_Failed inv v.core in
        record {
          core = record {
            size = f.core.size;
            small = f.core.small;
            lists = record {
              free_list = f.core.lists.free_list;
              awaiting_list = f.core.lists.awaiting_list;
            };
            wrappers = f.core.wrappers;
            balanced = f.core.balanced;
          };
          at_rest = λ t k x e.
              ground (arith, f.done_below k x e, get_elem?-lt _ k e, f.core.size, f.same_num);
          wakeups = ground (
            arith,
            v.wakeups,
            f.same_flags,
            f.core.size,
            f.core.small,
            length-le-size ReqState.awaiting_get _ _ f.core.lists.awaiting_list,
          );
        })

pub terminated-terminate : (inv : Inverter) → IsValid inv → (terminate inv).flags.terminated ≡ true
unfolding terminate
terminated-terminate inv v = elim (Bool-cases inv.flags.terminated) [
  | inl t ↦ ground arith
  | inr f ↦ ground (arith, (loop_Failed inv v.core).same_flags)
]
