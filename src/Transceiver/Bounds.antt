-- ===== src/Transceiver/Bounds.antt =====
-- Where the structures and the buffers of a transceiver (kbdus/src/transceiver.c) lie.
use bdus.Base.{
  ℕ, ◌+◌, ◌*◌, ◌%◌, ◌^◌, ◌<◌, ◌≤◌, ◌≡◌, refl, ap, ◌⊎◌, inl, inr, Bool, Bool-cases, ltb, true,
  Option, some, arith,
}
use bdus.Base.Errno.{ok}
use bdus.Device.Config.{DeviceConfig}
use bdus.Device.Adjusted.{IsAdjusted, IsPageSize}
use bdus.Transceiver.Layout.{
  FdConfig, Transceiver, page_align, max_request_size, get_rai, get_preallocated_buffer,
  transceiver_create,
}

page_align-ge : (p n : ℕ) → 4096 ≤ p → p ≤ 65536 → n ≤ page_align p n
unfolding page_align
page_align-ge p n lo hi = grind arith

page_align-lt : (p n : ℕ) → 4096 ≤ p → page_align p n < n + p
unfolding page_align
page_align-lt p n lo = grind arith

-- A request of an adjusted configuration is at most 1 MiB.
max_request_size-le :
    (p : ℕ) (c : DeviceConfig) → IsPageSize p → IsAdjusted p c → max_request_size c ≤ 1048576
unfolding max_request_size
max_request_size-le p c page a = ground (arith, a.read_write, a.logical, page)

mul-suc-le : (s i j : ℕ) → i < j → s * i + s ≤ s * j
mul-suc-le s i j lt = grind arith

mul-le_bound : (n s m b : ℕ) → n ≤ m → s ≤ b → n * s ≤ m * b
mul-le_bound n s m b h k = grind arith

-- The parts of the shared memory follow one another, and a buffer holds the largest request.
record IsLaidOut (c : DeviceConfig) (fd : FdConfig) (t : Transceiver) : Type 0 where
  rais : t.num_rais ≡ c.max_outstanding_reqs
  buffers : t.num_preallocated_buffers ≡ fd.num_preallocated_buffers
  rais_fit : 64 * t.num_rais ≤ t.preallocated_buffers_start
  buffers_fit :
      t.preallocated_buffers_start + t.num_preallocated_buffers * t.preallocated_buffer_size
      ≤ t.shared_memory_size
  request_fits : max_request_size c ≤ t.preallocated_buffer_size

transceiver_create-IsLaidOut :
    (p : ℕ) (c : DeviceConfig) (fd : FdConfig)
    → IsPageSize p
    → IsAdjusted p c
    → fd.num_preallocated_buffers ≤ c.max_outstanding_reqs
    → (t : Transceiver) × (transceiver_create p c fd true true ≡ ok t) × IsLaidOut c fd t
unfolding transceiver_create
transceiver_create-IsLaidOut p c fd page a few =
    let size = page_align p (max_request_size c) in
    let small : size ≤ 1114112 = ground (
      arith,
      page_align-lt p (max_request_size c) page.at_least,
      max_request_size-le p c page a,
      page.at_most,
    ) in
    let rais = c.max_outstanding_reqs * 64 % 2 ^ 32 in
    let whole : rais ≡ 64 * c.max_outstanding_reqs = omega (arith, a.outstanding) in
    let total : fd.num_preallocated_buffers * size ≤ 256 * 1114112 =
      mul-le_bound fd.num_preallocated_buffers size 256 1114112 (omega (arith, few, a.outstanding))
        small in
    let start_small = page_align-lt p rais page.at_least in
    let start_ge = page_align-ge p rais page.at_least page.at_most in
    (
      _,
      refl,
      record {
        rais = refl;
        buffers = refl;
        rais_fit = omega (arith, start_ge, whole);
        buffers_fit = omega (arith, start_small, whole, total, a.outstanding, page.at_most);
        request_fits = page_align-ge p (max_request_size c) page.at_least page.at_most;
      },
    )

-- A structure or a buffer, by its index.
pub data Part : Type 0 where
  structure buffer : ℕ → Part

abbrev pub there_is : DeviceConfig → FdConfig → Part → Bool
there_is c fd (structure k) = ltb k c.max_outstanding_reqs
there_is c fd (buffer i) = ltb i fd.num_preallocated_buffers

abbrev pub place : Transceiver → Part → Option ℕ
place t (structure k) = get_rai t k
place t (buffer i) = get_preallocated_buffer t i

abbrev pub size_of : Transceiver → Part → ℕ
size_of t (structure k) = 64
size_of t (buffer i) = t.preallocated_buffer_size

abbrev pub asked : DeviceConfig → Part → ℕ
asked c (structure k) = 64
asked c (buffer i) = max_request_size c

-- Where a part begins.
start_of : Transceiver → Part → ℕ
start_of t (structure k) = 64 * k
start_of t (buffer i) = t.preallocated_buffers_start + t.preallocated_buffer_size * i

-- Two parts are one, or the first ends before the second begins, or the other way round.
abbrev pub Apart : Transceiver → Part → ℕ → Part → ℕ → Type 0
Apart t x a y b = ((x ≡ y) ⊎ ((a + size_of t x ≤ b) ⊎ (b + size_of t y ≤ a)))

ordered_cases : (i j : ℕ) → ((i ≡ j) ⊎ ((i < j) ⊎ (j < i)))
ordered_cases i j = elim (Bool-cases (ltb i j)) [
  | inl lt ↦ inr (inl (ground arith))
  | inr ge ↦ elim (Bool-cases (ltb j i)) [
    | inl lt ↦ inr (inr (ground arith))
    | inr le ↦ inl (ground arith)
  ]
]

module _ (c : DeviceConfig) (fd : FdConfig) (t : Transceiver) (l : IsLaidOut c fd t) where
  place_lem : (x : Part) → there_is c fd x ≡ true → place t x ≡ some (start_of t x)
  unfolding get_rai get_preallocated_buffer start_of
  place_lem (structure k) h = ground (arith, l.rais)
  place_lem (buffer i) h = ground (arith, l.buffers)

  start_of_within :
      (x : Part) → there_is c fd x ≡ true → start_of t x + size_of t x ≤ t.shared_memory_size
  unfolding start_of
  start_of_within (structure k) h = ground (arith, l.rais, l.rais_fit, l.buffers_fit)
  start_of_within (buffer i) h =
      let size = t.preallocated_buffer_size in
      let turned : size * fd.num_preallocated_buffers ≡ t.num_preallocated_buffers * size =
        grind (arith, l.buffers) in
      omega (
        arith,
        mul-suc-le size i fd.num_preallocated_buffers (ground (arith, h)),
        turned,
        l.buffers_fit,
      )

  start_of-Apart :
      (x y : Part)
      → there_is c fd x ≡ true
      → there_is c fd y ≡ true
      → Apart t x (start_of t x) y (start_of t y)
  unfolding start_of
  start_of-Apart (structure k) (structure m) h h' = elim (ordered_cases k m) [
    | inl e ↦ inl (ap structure e)
    | inr (inl lt) ↦ inr (inl (omega (arith, lt)))
    | inr (inr lt) ↦ inr (inr (omega (arith, lt)))
  ]
  start_of-Apart (structure k) (buffer j) h h' = inr (inl (ground (arith, l.rais, l.rais_fit)))
  start_of-Apart (buffer i) (structure m) h h' = inr (inr (ground (arith, l.rais, l.rais_fit)))
  start_of-Apart (buffer i) (buffer j) h h' = elim (ordered_cases i j) [
    | inl e ↦ inl (ap buffer e)
    | inr (inl lt) ↦ inr (inl (omega (arith, mul-suc-le t.preallocated_buffer_size i j lt)))
    | inr (inr lt) ↦ inr (inr (omega (arith, mul-suc-le t.preallocated_buffer_size j i lt)))
  ]

  asked-size_of : (x : Part) → asked c x ≤ size_of t x
  asked-size_of (structure k) = omega arith
  asked-size_of (buffer i) = l.request_fits

-- For an adjusted configuration, at most as many buffers as requests and a page size of Linux: of any
-- two of the structures and buffers that there are, both are found, they are one and the same or they
-- do not overlap, both lie within the shared memory, and a structure has 64 bytes and a buffer at least those of the
-- largest request.
pub get_preallocated_buffer_within :
    (p : ℕ) (c : DeviceConfig) (fd : FdConfig) (x y : Part)
    → IsPageSize p
    → IsAdjusted p c
    → fd.num_preallocated_buffers ≤ c.max_outstanding_reqs
    → there_is c fd x ≡ true
    → there_is c fd y ≡ true
    → (t : Transceiver) × (a b : ℕ) × (transceiver_create p c fd true true ≡ ok t)
      × (place t x ≡ some a)
      × (place t y ≡ some b)
      × Apart t x a y b
      × (a + size_of t x ≤ t.shared_memory_size)
      × (b + size_of t y ≤ t.shared_memory_size)
      × (asked c x ≤ size_of t x)
      × (asked c y ≤ size_of t y)
get_preallocated_buffer_within p c fd x y page adj few h h' =
    let (t, made, l) = transceiver_create-IsLaidOut p c fd page adj few in
    (
      t,
      start_of t x,
      start_of t y,
      made,
      place_lem c fd t l x h,
      place_lem c fd t l y h',
      start_of-Apart c fd t l x y h h',
      start_of_within c fd t l x h,
      start_of_within c fd t l y h',
      asked-size_of c fd t l x,
      asked-size_of c fd t l y,
    )
