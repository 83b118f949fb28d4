-- ===== src/Reassembly/View.antt =====
-- A buffer of internal/reassembly/reassembly.go as the bytes of the stream that it has, its invariant,
-- and compact, which changes neither.
use gov_pass.Prelude.{
  ℕ, zero, suc, ◌+◌, ◌-◌, ◌^◌, ◌≤◌, ◌<◌, ◌≡◌, refl, ap, ◌∙◌, inl, inr, true, false, Option, some,
  List, [], ◌∷◌, ◌++◌, arith, length, get_or, ltb, ◌==◌, if◌then◌else◌, if_cases, Bool-cases,
  length-append,
}
use gov_pass.Reassembly.{Segment, Buffer, add32, u32, compact_loop, overlap_from}
use gov_pass.Reassembly.Chain.{over, Chain, past, holds, seg_byte, Chain-lower}
use gov_pass.Reassembly.Merged.{bytes_of}

-- The byte at an offset of the stream, in the prefix or in a segment.
abbrev pub byte_in : List ℕ × ℕ × List Segment → ℕ → Option ℕ
byte_in (contig, contig_len, segs) k =
    if ltb k contig_len then some (get_or contig k 0) else seg_byte segs k

abbrev pub view : Buffer → ℕ → Option ℕ
view b k = byte_in (b.contig, b.contig_len, b.segments) k

-- The prefix is counted, the segments are a chain behind it with a gap before each, and the total
-- is that of their bytes.
pub record IsWellFormed (b : Buffer) : Type 0 where
  pub counted : b.contig_len ≡ length b.contig
  pub chain : Chain (b.contig_len + 1) b.max_bytes b.segments
  pub total : b.total_bytes ≡ b.contig_len + bytes_of b.segments
  pub within : b.contig_len ≤ b.max_bytes
  pub small : b.max_bytes < 2 ^ 32

-- A chain has no more bytes than there are places.
bytes_of-past : (lo max : ℕ) (ss : List Segment) → Chain lo max ss → bytes_of ss + lo ≤ past lo ss
bytes_of-past lo max [] c = omega arith
bytes_of-past lo max (s ∷ ss) c = omega (arith, c.0, bytes_of-past (over s + 1) max ss c.3)

past-limit :
    (lo max : ℕ) (ss : List Segment) → Chain lo max ss → lo ≤ max + 1 → past lo ss ≤ max + 1
past-limit lo max [] c h = h
past-limit lo max (s ∷ ss) c h = past-limit (over s + 1) max ss c.3 (omega (arith, c.2))

pub bytes_of-limit :
    (lo max : ℕ) (ss : List Segment) → Chain lo max ss → lo ≤ max → bytes_of ss + lo ≤ max
bytes_of-limit lo max [] c h = omega arith
bytes_of-limit lo max (s ∷ ss) c h = omega (
  arith,
  c.0,
  bytes_of-past (over s + 1) max ss c.3,
  past-limit (over s + 1) max ss c.3 (omega (arith, c.2)),
)

pub overlap_from-bytes :
    (sum : ℕ) (ss : List Segment)
    → sum + bytes_of ss < 2 ^ 32
    → overlap_from sum ss ≡ sum + bytes_of ss
unfolding overlap_from
overlap_from-bytes sum [] h = omega arith
overlap_from-bytes sum (s ∷ ss) h =
    let one : add32 sum (u32 (length s.bytes)) ≡ sum + length s.bytes = omega arith in
    rw one (omega (arith, overlap_from-bytes (sum + length s.bytes) ss (omega arith)))

pub get_or-append_left :
    (xs ys : List ℕ) (k : ℕ) → k < length xs → get_or (xs ++ ys) k 0 ≡ get_or xs k 0
get_or-append_left [] ys k h = absurd (omega arith)
get_or-append_left (x ∷ xs) ys zero h = refl
get_or-append_left (x ∷ xs) ys (suc k) h = get_or-append_left xs ys k (omega arith)

pub get_or-append_right :
    (xs ys : List ℕ) (k : ℕ) → length xs ≤ k → get_or (xs ++ ys) k 0 ≡ get_or ys (k - length xs) 0
get_or-append_right [] ys k h = ap (λ n. get_or ys n 0) (omega arith)
get_or-append_right (x ∷ xs) ys zero h = absurd (omega arith)
get_or-append_right (x ∷ xs) ys (suc k) h =
    get_or-append_right xs ys k (omega arith) ∙ ap (λ n. get_or ys n 0) (omega arith)

-- What compact gives, from a chain that may begin where the prefix ends.
pub record Compacted (max : ℕ) (old r : List ℕ × ℕ × List Segment) : Type 0 where
  pub counted : r.1 ≡ length r.0
  pub chain : Chain (r.1 + 1) max r.2
  pub total : r.1 + bytes_of r.2 ≡ old.1 + bytes_of old.2
  pub within : r.1 ≤ max
  pub bytes : (k : ℕ) → byte_in r k ≡ byte_in old k

-- A segment that continues the prefix is as good in it.
absorbed :
    (contig : List ℕ) (len : ℕ) (s : Segment) (ss : List Segment) (k : ℕ)
    → len ≡ length contig
    → s.offset ≡ len
    → byte_in (contig ++ s.bytes, len + length s.bytes, ss) k ≡ byte_in (contig, len, s ∷ ss) k
unfolding seg_byte
absorbed contig len s ss k c at = elim (Bool-cases (ltb k len)) [
  | inl early ↦
      let before : ltb k (len + length s.bytes) ≡ true = ground arith in
      rw early (rw before (ap some (get_or-append_left contig s.bytes k (ground (arith, c)))))
  | inr late ↦ elim (Bool-cases (ltb k (len + length s.bytes))) [
    | inl here ↦
        let hit : holds s k ≡ true = ground (arith, at) in
        rw late (
          rw here (
            rw hit (
              ap some (
                get_or-append_right contig s.bytes k (ground (arith, c))
                ∙ ap (λ n. get_or s.bytes n 0) (omega (arith, c, at))))))
    | inr beyond ↦
        let miss : holds s k ≡ false = ground (arith, at) in rw late (rw beyond (rw miss refl))
  ]
]

pub compact_loop-Compacted :
    (segs : List Segment) (max : ℕ) (contig : List ℕ) (len : ℕ)
    → len ≡ length contig
    → len ≤ max
    → max < 2 ^ 32
    → Chain len max segs
    → Compacted max (contig, len, segs) (compact_loop contig len segs)
unfolding compact_loop
compact_loop-Compacted [] max contig len c h m ch = record {
  counted = c;
  chain = tt;
  total = refl;
  within = h;
  bytes = λ k. refl;
}
compact_loop-Compacted (s ∷ ss) max contig len c h m ch =
    let grown : add32 len (u32 (length s.bytes)) ≡ len + length s.bytes =
      omega (arith, ch.0, ch.2, m) in
    if_cases (Compacted max (contig, len, s ∷ ss)) (s.offset == len)
      (λ at.
        let here : s.offset ≡ len = ground arith in
        let next =
          compact_loop-Compacted ss max (contig ++ s.bytes) (len + length s.bytes)
            (omega (arith, c, length-append contig s.bytes)) (omega (arith, ch.2, here)) m
            (Chain-lower (over s + 1) (len + length s.bytes) max ss (omega (arith, here)) ch.3) in
        rw grown (record {
          counted = next.counted;
          chain = next.chain;
          total = omega (arith, next.total);
          within = next.within;
          bytes = λ k. next.bytes k ∙ absorbed contig len s ss k c here;
        }))
      (λ apart. record {
        counted = c;
        chain = (ground (arith, ch.0), ch.1, ch.2, ch.3);
        total = refl;
        within = h;
        bytes = λ k. refl;
      })
