-- ===== src/Transceiver/Payload.antt =====
-- The copies between the segments of a request and a payload buffer (kbdus/src/transceiver.c). A
-- memory gives the byte at each address.
use bdus.Base.{
  ℕ, zero, suc, ◌+◌, ◌<◌, ◌≤◌, ◌≡◌, refl, ◌∙◌, ◌==◌, if◌then◌else◌, List, [], ◌∷◌, length, arith,
}

abbrev pub Memory : Type 0
Memory = ℕ → ℕ

-- `memcpy` into the memory, and out of it.
unfoldable pub write_bytes : ℕ → List ℕ → Memory → Memory
write_bytes address [] mem = mem
write_bytes address (b ∷ bs) mem =
    write_bytes (address + 1) bs (λ a. if a == address then b else mem a)

unfoldable pub read_bytes : ℕ → ℕ → Memory → List ℕ
read_bytes address zero mem = []
read_bytes address (suc n) mem = mem address ∷ read_bytes (address + 1) n mem

-- The loop over the segments of a request that writes each of them into the buffer.
unfoldable pub segments_to_buffer : ℕ → List (List ℕ) → Memory → Memory
segments_to_buffer address [] mem = mem
segments_to_buffer address (segment ∷ segments) mem =
    segments_to_buffer (address + length segment) segments (write_bytes address segment mem)

-- The loop that fills each segment from the buffer.
unfoldable pub buffer_to_segments : ℕ → Memory → List (List ℕ) → List (List ℕ)
buffer_to_segments address mem [] = []
buffer_to_segments address mem (segment ∷ segments) =
    read_bytes address (length segment) mem
    ∷ buffer_to_segments (address + length segment) mem segments

-- `blk_rq_bytes`
unfoldable pub total_bytes : List (List ℕ) → ℕ
total_bytes [] = 0
total_bytes (segment ∷ segments) = length segment + total_bytes segments

write_bytes-before :
    (address : ℕ) (bs : List ℕ) (mem : Memory) (a : ℕ)
    → a < address
    → write_bytes address bs mem a ≡ mem a
unfolding write_bytes
write_bytes-before address [] mem a lt = refl
write_bytes-before address (b ∷ bs) mem a lt =
    ground (arith, write_bytes-before (address + 1) bs (λ x. if x == address then b else mem x) a)

write_bytes-after :
    (address : ℕ) (bs : List ℕ) (mem : Memory) (a : ℕ)
    → address + length bs ≤ a
    → write_bytes address bs mem a ≡ mem a
unfolding write_bytes
write_bytes-after address [] mem a le = refl
write_bytes-after address (b ∷ bs) mem a le =
    ground (arith, write_bytes-after (address + 1) bs (λ x. if x == address then b else mem x) a)

pub segments_to_buffer-before :
    (address : ℕ) (segments : List (List ℕ)) (mem : Memory) (a : ℕ)
    → a < address
    → segments_to_buffer address segments mem a ≡ mem a
unfolding segments_to_buffer
segments_to_buffer-before address [] mem a lt = refl
segments_to_buffer-before address (s ∷ ss) mem a lt =
    segments_to_buffer-before (address + length s) ss (write_bytes address s mem) a (omega arith)
    ∙ write_bytes-before address s mem a lt

pub segments_to_buffer-after :
    (address : ℕ) (segments : List (List ℕ)) (mem : Memory) (a : ℕ)
    → address + total_bytes segments ≤ a
    → segments_to_buffer address segments mem a ≡ mem a
unfolding segments_to_buffer total_bytes
segments_to_buffer-after address [] mem a le = refl
segments_to_buffer-after address (s ∷ ss) mem a le =
    segments_to_buffer-after (address + length s) ss (write_bytes address s mem) a (omega arith)
    ∙ write_bytes-after address s mem a (omega arith)

pub read_bytes-same :
    (address n : ℕ) (m m' : Memory)
    → ((a : ℕ) → a < address + n → m a ≡ m' a)
    → read_bytes address n m ≡ read_bytes address n m'
unfolding read_bytes
read_bytes-same address zero m m' h = refl
read_bytes-same address (suc n) m m' h =
    let head = h address (omega arith) in
    let tail = read_bytes-same (address + 1) n m m' (λ a lt. h a (omega arith)) in
    ground (arith, head, tail)

pub read_bytes-write_bytes :
    (address : ℕ) (bs : List ℕ) (mem : Memory)
    → read_bytes address (length bs) (write_bytes address bs mem) ≡ bs
unfolding read_bytes write_bytes
read_bytes-write_bytes address [] mem = refl
read_bytes-write_bytes address (b ∷ bs) mem =
    let mem' : Memory = λ a. if a == address then b else mem a in
    let head = write_bytes-before (address + 1) bs mem' address (omega arith) in
    let tail = read_bytes-write_bytes (address + 1) bs mem' in ground (arith, head, tail)
