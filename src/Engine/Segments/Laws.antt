-- ===== src/Engine/Segments/Laws.antt =====
-- The segments that internal/engine/worker.go cuts: they put the payload together again, and
-- each fits an IPv4 packet.
use gov_pass.Prelude.{
  ℕ, zero, suc, ◌+◌, ◌-◌, ◌≤◌, ◌<◌, ◌≡◌, refl, true, List, [], ◌∷◌, arith, ltb, if◌then◌else◌,
  length, take, drop, concat, take-append-drop, drop-drop, drop_all, length-take, length-drop,
  Bool-cases, inl, inr,
}
use gov_pass.Prelude.Int.{ℤ, pos_part, is_pos}
use gov_pass.Engine.Segments.{chunk_loop, chunk_payload, clamp_segment_payload, max_ipv4_total_len}

-- Every segment holds at least one byte and at most `max` bytes.
abbrev pub Fit : ℕ → List (List ℕ) → Type 0
Fit max [] = Unit {0}
Fit max (s ∷ rest) = ((1 ≤ length s) × (length s ≤ max)) × Fit max rest

-- The size of the next chunk.
abbrev chunk_size : ℕ → ℕ → ℕ
chunk_size remaining max = if ltb remaining max then remaining else max

chunk_loop-step :
    (fuel : ℕ) (payload : List ℕ) (max offset : ℕ)
    → offset < length payload
    → let c = chunk_size (length payload - offset) max in
      chunk_loop (suc fuel) payload max offset
      ≡ take c (drop offset payload) ∷ chunk_loop fuel payload max (offset + c)
unfolding chunk_loop
chunk_loop-step fuel payload max offset h = ground arith

chunk_loop-end :
    (fuel : ℕ) (payload : List ℕ) (max offset : ℕ)
    → length payload ≤ offset
    → chunk_loop fuel payload max offset ≡ []
unfolding chunk_loop
chunk_loop-end zero payload max offset h = refl
chunk_loop-end (suc fuel) payload max offset h = ground arith

module _ (payload : List ℕ) (max : ℕ) (pos_max : 1 ≤ max) where
  concat-chunk_loop :
      (fuel offset : ℕ)
      → length payload - offset ≤ fuel
      → concat (chunk_loop fuel payload max offset) ≡ drop offset payload
  concat-chunk_loop zero offset h =
      rw (
        chunk_loop-end zero payload max offset (omega arith),
        drop_all offset payload (omega arith),
      )
  concat-chunk_loop (suc fuel) offset h = elim (Bool-cases (ltb offset (length payload))) [
    | inl more ↦
        rw
          (
            chunk_loop-step fuel payload max offset (ground arith),
            concat-chunk_loop fuel (offset + chunk_size (length payload - offset) max)
                (ground arith),
            ← drop-drop offset (chunk_size (length payload - offset) max) payload,
          )
          (take-append-drop (chunk_size (length payload - offset) max) (drop offset payload))
    | inr done ↦ rw (
      chunk_loop-end (suc fuel) payload max offset (ground arith),
      drop_all offset payload (ground arith),
    )
  ]

  chunk_loop-Fit : (fuel offset : ℕ) → Fit max (chunk_loop fuel payload max offset)
  chunk_loop-Fit zero offset = unfold chunk_loop in tt
  chunk_loop-Fit (suc fuel) offset = elim (Bool-cases (ltb offset (length payload))) [
    | inl more ↦ rw (chunk_loop-step fuel payload max offset (ground arith)) (
      ground (
        arith,
        length-take (chunk_size (length payload - offset) max) (drop offset payload),
        length-drop offset payload,
      ),
      chunk_loop-Fit fuel (offset + chunk_size (length payload - offset) max),
    )
    | inr done ↦ rw (chunk_loop-end (suc fuel) payload max offset (ground arith)) tt
  ]

chunk_payload-loop :
    (payload : List ℕ) (max : ℕ)
    → 1 ≤ max
    → chunk_payload payload max ≡ chunk_loop (length payload) payload max 0
unfolding chunk_payload chunk_loop
chunk_payload-loop [] max h = ground arith
chunk_payload-loop (x ∷ xs) max h = ground arith

-- chunkPayload cuts a payload into pieces of 1 to `max` bytes that, one behind the other, are the
-- payload.
pub chunk_payload_lem :
    (payload : List ℕ) (max : ℕ)
    → 1 ≤ max
    → (concat (chunk_payload payload max) ≡ payload) × Fit max (chunk_payload payload max)
chunk_payload_lem payload max h = rw (chunk_payload-loop payload max h) (
  concat-chunk_loop payload max h (length payload) 0 (omega arith),
  chunk_loop-Fit payload max h (length payload) 0,
)

-- clampSegmentPayload: what it lets through is at most the template's payload, keeps the packet
-- within an IPv4 total length, and respects a positive cap; and it lets something through wherever
-- the template has a payload and its header length is positive and leaves room.
pub clamp_segment_payload_lem :
    (payload_len header_len : ℕ) (cap : ℤ)
    → let m = clamp_segment_payload payload_len header_len cap in
      (m ≤ payload_len)
      × (1 ≤ m → header_len + m ≤ max_ipv4_total_len)
      × (is_pos cap ≡ true → m ≤ pos_part cap)
      × (1 ≤ payload_len → 1 ≤ header_len → header_len < max_ipv4_total_len → 1 ≤ m)
unfolding clamp_segment_payload
clamp_segment_payload_lem payload_len header_len cap = ground arith
