-- ===== src/Transceiver/RoundTrip.antt =====
-- What is copied into a payload buffer (kbdus/src/transceiver.c) is what comes out of it.
use bdus.Base.{ℕ, ◌+◌, ◌<◌, ◌≤◌, ◌≡◌, ◌⊎◌, inl, inr, refl, ◌∙◌, List, [], ◌∷◌, length, map, arith}
use bdus.Transceiver.Payload.{
  Memory, write_bytes, segments_to_buffer, buffer_to_segments, total_bytes,
  segments_to_buffer-before, segments_to_buffer-after, read_bytes-same, read_bytes-write_bytes,
}

-- The segments of one request, written to a buffer, fill the segments of another whose lengths are the
-- same.
pub buffer_to_segments-segments_to_buffer :
    (address : ℕ) (from to : List (List ℕ)) (mem : Memory)
    → map length from ≡ map length to
    → buffer_to_segments address (segments_to_buffer address from mem) to ≡ from
unfolding buffer_to_segments segments_to_buffer
buffer_to_segments-segments_to_buffer address [] [] mem h = refl
buffer_to_segments-segments_to_buffer address [] (t ∷ ts) mem h = cc
buffer_to_segments-segments_to_buffer address (s ∷ ss) [] mem h = cc
buffer_to_segments-segments_to_buffer address (s ∷ ss) (t ∷ ts) mem h =
    let written = write_bytes address s mem in
    let rest = segments_to_buffer (address + length s) ss written in
    let size : length t ≡ length s = cc in
    let more : map length ss ≡ map length ts = cc in
    let head =
      read_bytes-same address (length s) rest written
        (λ a lt. segments_to_buffer-before (address + length s) ss written a lt)
      ∙ read_bytes-write_bytes address s mem in
    let tail = buffer_to_segments-segments_to_buffer (address + length s) ss ts written more in
    ground (arith, size, head, tail)

-- A byte outside the part of the buffer that the request fills is left alone.
pub segments_to_buffer-outside :
    (address : ℕ) (segments : List (List ℕ)) (mem : Memory) (a : ℕ)
    → (a < address) ⊎ (address + total_bytes segments ≤ a)
    → segments_to_buffer address segments mem a ≡ mem a
segments_to_buffer-outside address segments mem a (inl lt) =
    segments_to_buffer-before address segments mem a lt
segments_to_buffer-outside address segments mem a (inr le) =
    segments_to_buffer-after address segments mem a le
