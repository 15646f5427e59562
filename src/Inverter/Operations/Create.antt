-- ===== src/Inverter/Operations/Create.antt =====
-- `kbdus_inverter_create` and the checks of `kbdus_inverter_destroy` (kbdus/src/inverter.c).
use bdus.Base.{
  ℕ, zero, suc, ◌+◌, ◌%◌, ◌^◌, ◌≤◌, ◌<◌, ◌≡◌, refl, ◌∙◌, ◌==◌, ltb, leb, ◌||◌, ◌&&◌, Bool, List, [],
  ◌∷◌, inl, inr, some, true, false, get_elem?, get_elem?_of_lt, get_or_of_some, get_elem?-set,
  get_elem?-lt, length, length-set, count, count-append, arith, if◌then◌else◌, Option-cases, sym,
  get_elem?-none,
}
use bdus.Base.Sums.{sum_below-eq, sum_below-ltb, length-eq-sum_below}
use bdus.Base.Errno.{ok}
use bdus.Device.Config.{DeviceConfig}
use bdus.Inverter.State.{ReqState, Wrapper, Flags, Inverter, BlockLayer, same_state, no_wrapper}
use bdus.Inverter.Lifecycle.{init_wrapper, zeroed_wrappers, create, for_range}
use bdus.Inverter.Valid.{IsValid, Everywhere, in_flight}
use bdus.Inverter.Operations.Range.{for_range_inv}

length-zeroed_wrappers : (n : ℕ) → length (zeroed_wrappers n) ≡ n
unfolding zeroed_wrappers
length-zeroed_wrappers zero = refl
length-zeroed_wrappers (suc n) = omega (arith, length-zeroed_wrappers n)

-- Every wrapper is free, and those below the bound are numbered.
abbrev fresh_to : ℕ → ℕ → Wrapper → Bool
fresh_to n j w = same_state w.state ReqState.free && (leb n j || (w.item.handle_index == j + 1))

zeroed-fresh : (n : ℕ) → Everywhere (fresh_to 0) (zeroed_wrappers n)
unfolding zeroed_wrappers
zeroed-fresh zero j w e = cc
zeroed-fresh (suc n) zero w e = ground arith
zeroed-fresh (suc n) (suc j) w e = ground (arith, zeroed-fresh n j w e)

none_in_flight :
    (r : ℕ) (ws : List Wrapper)
    → ((j : ℕ) (w : Wrapper) → get_elem? ws j ≡ some w → same_state w.state ReqState.free ≡ true)
    → in_flight r ws ≡ 0
none_in_flight r [] h = refl
none_in_flight r (w ∷ ws) h = ground (arith, h 0 w refl, none_in_flight r ws (λ j. h (suc j)))

record Built (flags : Flags) (num : ℕ) (blk : BlockLayer) (n : ℕ) (s : Inverter) : Type 0 where
  size : length s.reqs_all ≡ num
  fresh : Everywhere (fresh_to n) s.reqs_all
  freed : (j : ℕ) → count j s.reqs_free ≡ (if ltb j n then 1 else 0)
  unqueued : s.reqs_awaiting_get ≡ []
  same_flags : s.flags ≡ flags
  same_num : s.num_reqs ≡ num
  same_blk : s.blk ≡ blk
  unwoken : s.item_is_awaiting_get ≡ 0

init_wrapper-Built :
    (flags : Flags) (num : ℕ) (blk : BlockLayer)
    → num ≤ 256
    → (j : ℕ) (s : Inverter) → j < num
    → Built flags num blk j s
    → Built flags num blk (j + 1) (init_wrapper s j)
unfolding init_wrapper
init_wrapper-Built flags num blk small j s lt b =
    let (w, at) = get_elem?_of_lt s.reqs_all j (ground (arith, b.size)) in
    let at' = get_or_of_some s.reqs_all j no_wrapper at in
    record {
      size = length-set s.reqs_all j _ ∙ b.size;
      fresh = λ k x e. ground (
        arith,
        at',
        b.fresh k x,
        get_elem?-set s.reqs_all j k
            (record w {
              state = ReqState.free;
              item = record (w.item) { handle_index = (j + 1) % 2 ^ 16; handle_seqnum = 0 };
            })
            at,
      );
      freed = λ k. ground (arith, b.freed k, count-append k s.reqs_free (j ∷ []));
      unqueued = b.unqueued;
      same_flags = b.same_flags;
      same_num = b.same_num;
      same_blk = b.same_blk;
      unwoken = b.unwoken;
    }

module _ (config : DeviceConfig) (blk : BlockLayer) where
  abbrev created_flags : Flags
  created_flags = record {
    deactivated = false;
    deactivated_not_flushed = false;
    terminated = false;
    send_device_available = false;
    supports_read = config.supports_read;
    supports_write = config.supports_write;
    supports_flush = config.supports_flush;
    supports_ioctl = config.supports_ioctl;
  }

  created : Inverter
  created = for_range config.max_outstanding_reqs 0 init_wrapper (record {
    flags = created_flags;
    num_reqs = config.max_outstanding_reqs;
    item_is_awaiting_get = 0;
    reqs_free = [];
    reqs_awaiting_get = [];
    reqs_all = zeroed_wrappers config.max_outstanding_reqs;
    blk = blk;
  })

  created-Built :
      config.max_outstanding_reqs ≤ 256
      → Built created_flags config.max_outstanding_reqs blk config.max_outstanding_reqs created
  unfolding created
  created-Built small =
      for_range_inv (Built created_flags config.max_outstanding_reqs blk) init_wrapper
        config.max_outstanding_reqs
        (init_wrapper-Built created_flags config.max_outstanding_reqs blk small)
        config.max_outstanding_reqs 0 (omega arith) _
        (record {
          size = length-zeroed_wrappers config.max_outstanding_reqs;
          fresh = zeroed-fresh config.max_outstanding_reqs;
          freed = λ j. ground arith;
          unqueued = refl;
          same_flags = refl;
          same_num = refl;
          same_blk = refl;
          unwoken = refl;
        })

  create-eq : create config true true blk ≡ ok created
  unfolding create created
  create-eq = refl

all_listed :
    (n : ℕ) (xs : List ℕ) → ((j : ℕ) → count j xs ≡ (if ltb j n then 1 else 0)) → length xs ≡ n
all_listed n xs h =
    length-eq-sum_below n xs (λ j le. ground (arith, h j))
    ∙ sum_below-eq n (λ j. count j xs) (λ j. if ltb j n then 1 else 0) h
    ∙ sum_below-ltb n

-- A created inverter is valid, and all its wrappers are free.
Built-IsValid :
    (flags : Flags) (num : ℕ) (blk : BlockLayer) (s : Inverter)
    → num ≤ 256
    → flags.terminated ≡ false
    → flags.deactivated ≡ false
    → flags.deactivated_not_flushed ≡ false
    → flags.send_device_available ≡ false
    → ((r : ℕ) → count r blk.started ≡ count r blk.completed)
    → Built flags num blk num s
    → IsValid s
Built-IsValid flags num blk s small t d n a bal b = record {
  core = record {
    size = b.size ∙ sym b.same_num;
    small = rw b.same_num small;
    lists = record {
      free_list = λ j. elim (Option-cases (get_elem? s.reqs_all j)) [
        | inl out ↦ ground (arith, b.freed j, out, get_elem?-none s.reqs_all j out, b.size)
        | inr (w, at) ↦
            ground (arith, b.freed j, b.fresh j w at, at, get_elem?-lt s.reqs_all j at, b.size)
      ];
      awaiting_list = λ j. elim (Option-cases (get_elem? s.reqs_all j)) [
        | inl out ↦ ground (arith, b.unqueued)
        | inr (w, at) ↦ ground (arith, b.unqueued, b.fresh j w at, at)
      ];
    };
    wrappers = λ j w e. ground (arith, b.fresh j w e, get_elem?-lt s.reqs_all j e, b.size);
    balanced = λ r. ground (
      arith,
      bal r,
      b.same_blk,
      none_in_flight r s.reqs_all (λ j w e. ground (arith, b.fresh j w e)),
    );
  };
  at_rest = λ t'. ground (arith, b.same_flags);
  wakeups = ground (arith, b.same_flags, b.unqueued, b.unwoken);
}

-- With both allocations, `create` returns a valid inverter whose wrappers are all free, if there
-- are at most 256 of them and the block layer is owed nothing.
pub create_lem :
    (config : DeviceConfig) (blk : BlockLayer)
    → config.max_outstanding_reqs ≤ 256
    → ((r : ℕ) → count r blk.started ≡ count r blk.completed)
    → (inv : Inverter) × (create config true true blk ≡ ok inv)
      × IsValid inv
      × (length inv.reqs_free ≡ config.max_outstanding_reqs)
create_lem config blk small bal =
    let b = created-Built config blk small in
    let valid : IsValid (created config blk) =
      Built-IsValid (created_flags config blk) config.max_outstanding_reqs blk (created config blk)
        small refl refl refl refl bal b in
    (
      created config blk,
      create-eq config blk,
      valid,
      all_listed config.max_outstanding_reqs (created config blk).reqs_free b.freed,
    )
