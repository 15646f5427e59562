-- ===== src/Libbdus/Mappings.antt =====
-- `bdus_backend_run_` of libbdus/src/backend.c: the memory that is shared with kbdus is mapped, the
-- threads run, and everything is released. What the system answers to each call is an argument.
use Prim.Native.Nat.{max}
use bdus.Base.{
  ℕ, zero, suc, ◌+◌, ◌-◌, ◌*◌, ◌/◌, ◌%◌, ◌^◌, ◌==◌, if◌then◌else◌, Bool, true, false, not, List, [],
  ◌∷◌, ◌++◌,
}
use bdus.Libbdus.Driver.{Ops, Attrs}
use bdus.Libbdus.Attrs.{is_set}

-- `bdus_round_up_`
abbrev pub round_up : ℕ → ℕ → ℕ
round_up x y = (x + (y - 1)) / y * y

unfoldable pub max_request_payload_size : {S : Type 0} → Ops S → Attrs → ℕ
max_request_payload_size ops attrs =
    let data_size = attrs.max_read_write_size in
    let same_size =
      if is_set ops.write_same then max data_size attrs.logical_block_size else data_size in
    if is_set ops.ioctl then max same_size (2 ^ 14) else same_size

-- Where the threads find their structures and payloads, as offsets in the memory of kbdus.
pub record Layout : Type 0 where
  pub max_payload_size : ℕ
  pub rai_memory_size : ℕ
  pub single_payload_memory_size : ℕ

unfoldable pub layout_of : {S : Type 0} → ℕ → Ops S → Attrs → ℕ → Layout
layout_of page_size ops attrs max_outstanding_reqs =
    let size = max_request_payload_size ops attrs in
    record {
      max_payload_size = size;
      rai_memory_size = round_up (max_outstanding_reqs * 64 % 2 ^ 32) page_size;
      single_payload_memory_size = round_up size page_size;
    }

abbrev pub rai_offset : ℕ → ℕ
rai_offset i = 64 * i

unfoldable pub payload_offset : Layout → ℕ → ℕ
payload_offset l i = l.rai_memory_size + l.single_payload_memory_size * i

pub record Mapping : Type 0 where
  pub offset : ℕ
  pub length : ℕ

pub data Event : Type 0 where
  allocates_contexts frees_contexts runs : Event
  maps unmaps : Mapping → Event

-- What the system answers: whether the contexts are allocated, the structures mapped, the payload of
-- each thread mapped, and what `bdus_run_2_` returns.
pub record System : Type 0 where
  pub page_size : ℕ
  pub contexts_allocated : Bool
  pub rais_mapped : Bool
  pub payload_mapped : ℕ → Bool
  pub run : Bool

module _ (l : Layout) where
  abbrev pub rai_mapping : Mapping
  rai_mapping = record { offset = 0; length = l.rai_memory_size }

  abbrev pub payload_mapping : ℕ → Mapping
  payload_mapping i = record { offset = payload_offset l i; length = l.single_payload_memory_size }

  -- The loop that maps payloads from thread `i` on: whether all are mapped, the calls that succeeded,
  -- and the thread at which it stops.
  unfoldable pub map_payloads : ℕ → ℕ → (ℕ → Bool) → Bool × List Event × ℕ
  map_payloads zero i mapped = (true, [], i)
  map_payloads (suc rounds) i mapped =
      let rest = map_payloads rounds (i + 1) mapped in
      if l.max_payload_size == 0
      then rest
      else if mapped i
      then (rest.0, maps (payload_mapping i) ∷ rest.1, rest.2)
      else (false, [], i)

  -- The loops that unmap the payloads of the threads below `i`, the last first.
  unfoldable pub unmap_payloads : ℕ → List Event
  unmap_payloads zero = []
  unmap_payloads (suc i) = unmaps (payload_mapping i) ∷ unmap_payloads i

  -- The end of the function where every mapping is made.
  unfoldable pub release_all : ℕ → List Event
  unfolding unmap_payloads
  release_all num_threads =
      (if l.max_payload_size == 0 then [] else unmap_payloads num_threads)
      ++ unmaps rai_mapping ∷ frees_contexts ∷ []

  unfoldable pub map_and_run : System → ℕ → Bool × List Event
  unfolding map_payloads release_all unmap_payloads
  map_and_run sys num_threads =
      let (all, events, last) = map_payloads num_threads 0 sys.payload_mapped in
      if all
      then (sys.run, events ++ (runs ∷ release_all num_threads))
      else (false, events ++ (unmap_payloads last ++ unmaps rai_mapping ∷ frees_contexts ∷ []))

-- Whether the run succeeded, and the calls in their order. A page size of 0 is that which could not
-- be read.
unfoldable pub backend_run : {S : Type 0} → System → Ops S → Attrs → ℕ → Bool × List Event
unfolding map_and_run layout_of
backend_run sys ops attrs max_outstanding_reqs =
    let l = layout_of sys.page_size ops attrs max_outstanding_reqs in
    let (success, events) = map_and_run l sys attrs.max_concurrent_callbacks in
    if sys.page_size == 0
    then (false, [])
    else if not sys.contexts_allocated
    then (false, [])
    else if not sys.rais_mapped
    then (false, allocates_contexts ∷ frees_contexts ∷ [])
    else (success, allocates_contexts ∷ maps (rai_mapping l) ∷ events)
