-- ===== src/Reassembly/Refinement.antt =====
-- Push of internal/reassembly/reassembly.go writes into the stream: what the buffer holds is a map
-- from offsets to bytes, and Push is the write to it.
use gov_pass.Prelude.{
  ℕ, ◌+◌, ◌-◌, ◌≤◌, ◌≡◌, refl, sym, ap, ◌∙◌, inl, inr, Bool, true, false, ◌&&◌, Option, none, some,
  List, [], ◌∷◌, ◌++◌, arith, length, get_or, ltb, leb, ◌==◌, if◌then◌else◌, if_cases, Bool-cases,
  length-append, is_empty, sum_of-append,
}
use gov_pass.Reassembly.{
  Segment, Buffer, PushError, add32, sub32, u32, compact, overlap_from, insert, merge, place_at,
  place,
}
use gov_pass.Reassembly.Chain.{Chain-lower}
use gov_pass.Reassembly.Split.{Split, search-Cut}
use gov_pass.Reassembly.Merged.{bytes_of, spread}
use gov_pass.Reassembly.Inserted.{
  cut_before, cut_inside, cut_behind, new_segments, merged_segment, length-merged,
  new_segments-Chain, new_segments-byte,
}
use gov_pass.Reassembly.View.{
  byte_in, view, IsWellFormed, bytes_of-limit, overlap_from-bytes, get_or-append_left,
  get_or-append_right, compact_loop-Compacted,
}

-- The write succeeded: the invariant holds, and the new bytes are there from the end of the prefix
-- on; all else is as it was.
pub record Written (b : Buffer) (off : ℕ) (payload : List ℕ) (o : Buffer × Option PushError)
    : Type 0 where
  pub done : o.1 ≡ none
  pub valid : IsWellFormed o.0
  pub bytes :
      (k : ℕ)
      → view o.0 k ≡ (if ltb k b.contig_len then view b k else spread off payload k (view b k))

module _ (b : Buffer) (v : IsWellFormed b) (off : ℕ) (payload : List ℕ)
    (some_bytes : 1 ≤ length payload) (fits : off + length payload ≤ b.max_bytes)
    (behind : b.contig_len ≤ off) where
  -- Where the new bytes lie behind the prefix, the write is the same on the prefix.
  behind-prefix :
      (k : ℕ)
      → spread off payload k (view b k)
        ≡ (if ltb k b.contig_len then view b k else spread off payload k (view b k))
  behind-prefix k = ground (arith, behind)

  insert-Written :
      (left right start end : ℕ)
      → Split b.contig_len b.max_bytes off (off + length payload) b.segments left right start end
      → Written b off payload (insert b off payload left right start end)
  unfolding insert compact
  insert-Written left right start end s =
      let m = v.small in
      let segs = new_segments s payload some_bytes refl m in
      let ch = new_segments-Chain s payload some_bytes refl m in
      let new = merged_segment s payload some_bytes refl m in
      let n1 : sub32 end start ≡ end - start = omega (arith, s.from_start, s.to_end, s.limit, m) in
      let n2 : sub32 off start ≡ off - start = omega (arith, s.from_start, fits, m) in
      let old_count : bytes_of b.segments
          ≡ bytes_of s.before + (bytes_of s.inside + bytes_of s.behind) =
        ap bytes_of s.whole
        ∙ sum_of-append _ s.before (s.inside ++ s.behind)
        ∙ ap (λ n. bytes_of s.before + n) (sum_of-append _ s.inside s.behind) in
      let new_count : bytes_of segs ≡ bytes_of s.before + (end - start + bytes_of s.behind) =
        sum_of-append _ s.before (new ∷ s.behind)
        ∙ ap (λ n. bytes_of s.before + (n + bytes_of s.behind))
            (length-merged s payload some_bytes refl m) in
      let limit = bytes_of-limit b.contig_len b.max_bytes segs ch v.within in
      let old_limit =
        bytes_of-limit start b.max_bytes s.inside s.inside_chain
          (omega (arith, s.from_start, fits)) in
      let overlap = overlap_from-bytes 0 s.inside (omega (arith, old_limit, m)) in
      let total : add32 (sub32 b.total_bytes (overlap_from 0 s.inside)) (end - start)
          ≡ b.contig_len + bytes_of segs =
        omega (arith, overlap, v.total, old_count, new_count, limit, old_limit, m) in
      let room : ltb b.max_bytes (b.contig_len + bytes_of segs) ≡ false = ground (arith, limit) in
      let c =
        compact_loop-Compacted segs b.max_bytes b.contig b.contig_len v.counted v.within m ch in
      rw (cut_before s) (
        rw (cut_inside s) (
          rw (cut_behind s) (
            rw n1 (
              rw n2 (
                rw total (
                  rw room (record {
                    done = refl;
                    valid = record {
                      counted = c.counted;
                      chain = c.chain;
                      total = sym c.total;
                      within = c.within;
                      small = m;
                    };
                    bytes = λ k. c.bytes k ∙ bytes_before s k;
                  })))))))
    where
      bytes_before :
          {left right start end : ℕ}
          (s : Split b.contig_len b.max_bytes off
            (off + length payload)
            b.segments
            left
            right
            start
            end)
          (k : ℕ)
          → byte_in (b.contig, b.contig_len, new_segments s payload some_bytes refl v.small) k
            ≡ (if ltb k b.contig_len then view b k else spread off payload k (view b k))
      bytes_before s k = elim (Bool-cases (ltb k b.contig_len)) [
        | inl early ↦ rw early refl
        | inr late ↦ rw late (new_segments-byte s payload some_bytes refl v.small k)
      ]

-- The marks of disorder have no part in it.
pub remarked :
    (b : Buffer) (x y : Bool)
    → IsWellFormed b
    → IsWellFormed (record b { had_out_of_order = x; had_overlap = y })
remarked b x y v = record {
  counted = v.counted;
  chain = v.chain;
  total = v.total;
  within = v.within;
  small = v.small;
}

pub unmarked :
    (b : Buffer) (x y : Bool) (off : ℕ) (payload : List ℕ) {o : Buffer × Option PushError}
    → Written (record b { had_out_of_order = x; had_overlap = y }) off payload o
    → Written b off payload o
unmarked b x y off payload w = record { done = w.done; valid = w.valid; bytes = w.bytes }

module _ (b : Buffer) (v : IsWellFormed b) (off : ℕ) (payload : List ℕ)
    (some_bytes : 1 ≤ length payload) (fits : off + length payload ≤ b.max_bytes)
    (behind : b.contig_len ≤ off) where
  insert_marked-Written :
      (test : Bool) (left right start end : ℕ)
      → Split b.contig_len b.max_bytes off (off + length payload) b.segments left right start end
      → Written b off payload (
          insert
            (if test then record b { had_overlap = true } else b)
            off
            payload
            left
            right
            start
            end)
  insert_marked-Written true left right start end s =
      unmarked b b.had_out_of_order true off payload (
        insert-Written (record b { had_overlap = true }) (remarked b b.had_out_of_order true v) off
          payload some_bytes fits behind left right start end s)
  insert_marked-Written false left right start end s =
      insert-Written b v off payload some_bytes fits behind left right start end s

  merge-Written : Written b off payload (merge b off payload)
  unfolding merge
  merge-Written =
      let end : add32 off (u32 (length payload)) ≡ off + length payload =
        omega (arith, fits, v.small) in
      let ch =
        Chain-lower (b.contig_len + 1) b.contig_len b.max_bytes b.segments (omega arith) v.chain in
      rw end (
        insert_marked-Written _ _ _ _ _ (
          search-Cut b.contig_len b.max_bytes off (off + length payload) v.small fits
            (omega (arith, some_bytes)) b.segments ch behind))

  -- Straight behind the prefix, where nothing waits.
  appended-Written :
      b.segments ≡ []
      → off ≡ b.contig_len
      → Written b off payload (
        record b {
          contig = b.contig ++ payload;
          contig_len = b.contig_len + length payload;
          total_bytes = b.total_bytes + length payload;
        },
        none,
      )
  appended-Written nothing here = record {
    done = refl;
    valid = record {
      counted = omega (arith, v.counted, length-append b.contig payload);
      chain = rw nothing tt;
      total = omega (arith, v.total);
      within = omega (arith, fits, here);
      small = v.small;
    };
    bytes = appended;
  }
    where
      appended :
          (k : ℕ)
          → byte_in (b.contig ++ payload, b.contig_len + length payload, b.segments) k
            ≡ (if ltb k b.contig_len then view b k else spread off payload k (view b k))
      appended k = elim (Bool-cases (ltb k b.contig_len)) [
        | inl early ↦
            let inside : ltb k (b.contig_len + length payload) ≡ true = ground arith in
            rw early (
              rw inside
                (ap some (get_or-append_left b.contig payload k (ground (arith, v.counted)))))
        | inr late ↦ elim (Bool-cases (ltb k (b.contig_len + length payload))) [
          | inl new ↦
              let hit : (leb off k && ltb k (off + length payload)) ≡ true = ground (arith, here) in
              rw late (
                rw new (
                  rw hit (
                    ap some (
                      get_or-append_right b.contig payload k (ground (arith, v.counted))
                      ∙ ap (λ n. get_or payload n 0) (omega (arith, v.counted, here))))))
          | inr beyond ↦
              let miss : (leb off k && ltb k (off + length payload)) ≡ false =
                ground (arith, here) in
              rw late (rw beyond (rw miss refl))
        ]
      ]

  place_at-Written : Written b off payload (place_at b off payload)
  unfolding place_at
  place_at-Written =
      if_cases (Written b off payload) (off == b.contig_len && is_empty b.segments)
        (λ both.
          let here : off ≡ b.contig_len = ground arith in
          let nothing =
            no_segments b.segments (and_right (off == b.contig_len) (is_empty b.segments) both) in
          let counted : b.total_bytes ≡ b.contig_len = v.total ∙ rw nothing (omega arith) in
          let total : add32 b.total_bytes (u32 (length payload)) ≡ b.total_bytes + length payload =
            omega (arith, counted, here, fits, v.small) in
          let grown : add32 b.contig_len (u32 (length payload)) ≡ b.contig_len + length payload =
            omega (arith, here, fits, v.small) in
          let room : ltb b.max_bytes (b.total_bytes + length payload) ≡ false =
            ground (arith, counted, here, fits) in
          rw total (rw room (rw grown (appended-Written nothing here))))
        (λ _. merge-Written)
    where
      and_right : (x y : Bool) → (x && y) ≡ true → y ≡ true
      and_right true y h = h
      and_right false y h = cc

      no_segments : (ss : List Segment) → is_empty ss ≡ true → ss ≡ []
      no_segments [] h = refl
      no_segments (s ∷ ss) h = cc

module _ (b : Buffer) (v : IsWellFormed b) (off : ℕ) (payload : List ℕ)
    (some_bytes : 1 ≤ length payload) (fits : off + length payload ≤ b.max_bytes)
    (behind : b.contig_len ≤ off) where
  place_marked-Written :
      (test : Bool)
      → Written b off payload
          (place_at (if test then b else record b { had_out_of_order = true }) off payload)
  place_marked-Written true = place_at-Written b v off payload some_bytes fits behind
  place_marked-Written false = unmarked b true b.had_overlap off payload (
      place_at-Written (record b { had_out_of_order = true }) (remarked b true b.had_overlap v) off
        payload some_bytes fits behind)

  pub place-Written : Written b off payload (place b off payload (off + length payload))
  unfolding place
  place-Written =
      let room : ltb b.max_bytes (off + length payload) ≡ false = ground (arith, fits) in
      rw room (place_marked-Written _)
