-- ===== src/Libbdus/Accept.antt =====
-- What `bdus_run()` (libbdus/src/bdus.c) accepts is what the driver (kbdus/src/device.c) accepts.
use bdus.Base.{
  ℕ, ◌*◌, ◌^◌, ◌%◌, ◌<◌, ◌≡◌, refl, ◌==◌, ltb, leb, if◌then◌else◌, Bool, true, false, not, ◌&&◌,
  ◌||◌, arith,
}
use bdus.Device.Validate.{validate_config, array_is_zero_filled}
use bdus.Libbdus.Driver.{Ops, Attrs}
use bdus.Libbdus.Attrs.{
  is_set, validate_ops_run, validate_attrs_run, run_device_config, default_concurrency,
}

-- A test that refuses, and the tests that follow it.
refuse_lem : (refused rest : Bool) → (if refused then false else rest) ≡ (not refused && rest)
refuse_lem true rest = refl
refuse_lem false rest = refl

and_true : (b : Bool) → (b && true) ≡ b
and_true true = refl
and_true false = refl

and_assoc : (a b c : Bool) → ((a && b) && c) ≡ (a && (b && c))
and_assoc true b c = refl
and_assoc false b c = refl

block_lem :
    (p : Bool) (block page_size : ℕ)
    → not (not p || ltb block 512 || ltb page_size block)
      ≡ (p && leb 512 block && leb block page_size)
block_lem p block page_size = ground arith

physical_lem :
    (p : Bool) (physical block page_size : ℕ)
    → not (not (physical == 0) && (not p || ltb physical block || ltb page_size physical))
      ≡ ((physical == 0) || (p && leb block physical && leb physical page_size))
physical_lem p physical block page_size = ground arith

least_lem :
    (size least : ℕ) → not (not (size == 0) && ltb size least) ≡ ((size == 0) || leb least size)
least_lem size least = ground arith

flush_lem : (fua flush : Bool) → (if fua && not flush then false else true) ≡ (not fua || flush)
flush_lem fua flush = ground arith

not-not : (b : Bool) → not (not b) ≡ b
not-not true = refl
not-not false = refl

ruleset tests = (refuse_lem, and_true, block_lem, physical_lem, least_lem, not-not, and_assoc)

-- There is at least one thread, and the doubled number of threads does not wrap.
outstanding_lem : (n : ℕ) → n < 2 ^ 31 → ltb 0 (2 * (if n == 0 then 1 else n) % 2 ^ 32) ≡ true
outstanding_lem n few = ground arith

readable : (page_size : ℕ) → 0 < page_size → (page_size == 0) ≡ false
readable page_size positive = ground arith

-- With a page size that can be read, and fewer threads than overflow the number of requests:
-- libbdus accepts a driver exactly when kbdus accepts the configuration that libbdus makes of it.
pub validate_run-validate_config :
    {S : Type 0} (page_size : ℕ) (ops : Ops S) (attrs : Attrs)
    → 0 < page_size
    → attrs.max_concurrent_callbacks < 2 ^ 31
    → (validate_ops_run ops && validate_attrs_run page_size attrs)
      ≡ validate_config page_size (run_device_config ops (default_concurrency attrs))
unfolding validate_ops_run validate_attrs_run validate_config run_device_config default_concurrency
    array_is_zero_filled
validate_run-validate_config page_size ops attrs positive few =
    let some_requests = outstanding_lem attrs.max_concurrent_callbacks few in
    let flush = flush_lem (is_set ops.fua_write) (is_set ops.flush) in
    rw (readable page_size positive, some_requests, flush) (simp tests)
