-- ===== src/Reassembly/Branches.antt =====
-- The branches of Push of internal/reassembly/reassembly.go: what it accepts is written, and what ends
-- beyond the limit is refused.
use gov_pass.Prelude.{
  ℕ, zero, suc, ◌+◌, ◌-◌, ◌^◌, ◌≤◌, ◌<◌, ◌≡◌, refl, ap, ◌∙◌, inl, inr, Bool, true, false, ◌&&◌,
  Option, none, some, List, [], ◌∷◌, arith, length, get_or, ltb, leb, ◌==◌, if◌then◌else◌, if_cases,
  Bool-cases, is_empty, drop, length-drop,
}
use gov_pass.Reassembly.{
  Buffer, PushError, buffer_full, out_of_window, add32, sub32, u32, place, trim_prefix, push,
}
use gov_pass.Reassembly.Merged.{spread}
use gov_pass.Reassembly.View.{view, IsWellFormed}
use gov_pass.Reassembly.Refinement.{Written, place-Written, remarked, unmarked}

get_or-drop : (n : ℕ) (xs : List ℕ) (i : ℕ) → get_or (drop n xs) i 0 ≡ get_or xs (n + i) 0
get_or-drop zero xs i = ap (λ m. get_or xs m 0) (omega arith)
get_or-drop (suc n) [] i = refl
get_or-drop (suc n) (x ∷ xs) i =
    let next : suc (n + i) ≡ suc n + i = omega arith in
    get_or-drop n xs i ∙ ap (λ m. get_or (x ∷ xs) m 0) next

-- What is cut off a fragment stands in the prefix.
spread-drop :
    (off at : ℕ) (payload : List ℕ) (k : ℕ) (old : Option ℕ)
    → off ≤ at
    → at ≤ off + length payload
    → at ≤ k
    → spread at (drop (at - off) payload) k old ≡ spread off payload k old
spread-drop off at payload k old h g a =
    let left = length-drop (at - off) payload in
    elim (Bool-cases (leb off k && ltb k (off + length payload))) [
      | inl hit ↦
          let same : (leb at k && ltb k (at + length (drop (at - off) payload))) ≡ true =
            ground (arith, left) in
          rw hit (
            rw same (
              ap some (
                get_or-drop (at - off) payload (k - at)
                ∙ ap (λ n. get_or payload n 0) (omega arith))))
      | inr miss ↦
          let same : (leb at k && ltb k (at + length (drop (at - off) payload))) ≡ false =
            ground (arith, left) in
          rw miss (rw same refl)
    ]

same_else :
    (test : Bool) (x : Option ℕ) {y z : Option ℕ}
    → (test ≡ false → y ≡ z)
    → (if test then x else y) ≡ (if test then x else z)
same_else true x h = refl
same_else false x h = h refl

not_empty : (xs : List ℕ) → 1 ≤ length xs → is_empty xs ≡ false
not_empty [] h = ground arith
not_empty (x ∷ xs) h = refl

module _ (b : Buffer) (v : IsWellFormed b) (off : ℕ) (payload : List ℕ)
    (some_bytes : 1 ≤ length payload) where
  trim_prefix-Written :
      off + length payload ≤ b.max_bytes
      → off < b.contig_len
      → b.contig_len < off + length payload
      → Written b off payload (trim_prefix b off payload)
  unfolding trim_prefix
  trim_prefix-Written fits under reaches =
      let cut : sub32 b.contig_len off ≡ b.contig_len - off =
        omega (arith, under, v.within, v.small) in
      let rest = drop (b.contig_len - off) payload in
      let left = length-drop (b.contig_len - off) payload in
      let end : add32 b.contig_len (u32 (length rest)) ≡ b.contig_len + length rest =
        omega (arith, left, fits, reaches, v.small) in
      let forward : ltb (b.contig_len + length rest) b.contig_len ≡ false = ground arith in
      let whole = not_empty rest (omega (arith, left, reaches)) in
      let b' : Buffer = record b { had_overlap = true } in
      let w = unmarked b b.had_out_of_order true b.contig_len rest (
        place-Written b' (remarked b b.had_out_of_order true v) b.contig_len rest
          (omega (arith, left, reaches)) (omega (arith, left, reaches, fits)) (omega arith)) in
      rw cut (
        rw end (
          rw forward (
            rw whole (record {
              done = w.done;
              valid = w.valid;
              bytes = λ k.
                  w.bytes k
                  ∙ same_else (ltb k b.contig_len) (view b k) (λ late.
                    spread-drop off b.contig_len payload k (view b k) (omega (arith, under))
                      (omega (arith, reaches)) (ground arith));
            }))))

  -- What lies in the prefix already is not written.
  known-Written : off + length payload ≤ b.contig_len → Written b off payload (b, none)
  known-Written inside = record {
    done = refl;
    valid = v;
    bytes = λ k. elim (Bool-cases (ltb k b.contig_len)) [
      | inl early ↦ rw early refl
      | inr late ↦
          let miss : (leb off k && ltb k (off + length payload)) ≡ false = ground (arith, inside) in
          rw miss (same_view (ltb k b.contig_len) (view b k))
    ];
  }
    where
      same_view : (test : Bool) (o : Option ℕ) → o ≡ (if test then o else o)
      same_view true o = refl
      same_view false o = refl

  pub accepted-Written :
      (seq : ℕ)
      → sub32 seq b.base_seq ≡ off
      → off + length payload ≤ b.max_bytes
      → Written b off payload (push b seq payload)
  unfolding push
  accepted-Written seq at fits =
      let end : add32 off (u32 (length payload)) ≡ off + length payload =
        omega (arith, fits, v.small) in
      let whole = not_empty payload some_bytes in
      let room : (b.max_bytes == 0) ≡ false = ground arith in
      let inside : leb b.max_bytes off ≡ false = ground (arith, fits) in
      let forward : ltb (off + length payload) off ≡ false = ground arith in
      rw whole (
        rw room (
          rw at (
            rw inside (
              rw end (
                rw forward (
                  if_cases (Written b off payload) (leb (off + length payload) b.contig_len)
                    (λ known. known-Written (ground arith))
                    (λ new.
                      if_cases (Written b off payload) (ltb off b.contig_len)
                        (λ under. trim_prefix-Written fits (ground arith) (ground arith))
                        (λ behind.
                          place-Written b v off payload some_bytes fits (ground arith)))))))))

  place-error :
      b.max_bytes < off + length payload
      → place b off payload (off + length payload) ≡ (b, some buffer_full)
  unfolding place
  place-error beyond = ground arith

  trimmed-error :
      off < b.contig_len
      → length payload < 2 ^ 32
      → b.max_bytes < off + length payload
      → off + length payload < 2 ^ 32
      → (e : PushError) × ((trim_prefix b off payload).1 ≡ some e)
  unfolding trim_prefix place
  trimmed-error under short beyond fits =
      let cut : sub32 b.contig_len off ≡ b.contig_len - off =
        omega (arith, under, v.within, v.small) in
      let rest = drop (b.contig_len - off) payload in
      let left = length-drop (b.contig_len - off) payload in
      let end : add32 b.contig_len (u32 (length rest)) ≡ b.contig_len + length rest =
        omega (arith, left, fits, v.within, v.small) in
      let forward : ltb (b.contig_len + length rest) b.contig_len ≡ false = ground arith in
      let whole = not_empty rest (omega (arith, left, beyond, v.within)) in
      let full : ltb b.max_bytes (b.contig_len + length rest) ≡ true =
        ground (arith, left, beyond, v.within) in
      rw cut (rw end (rw forward (rw whole (rw full (buffer_full, refl)))))

  -- A fragment that ends beyond the limit is refused.
  pub refused-error :
      (seq : ℕ)
      → sub32 seq b.base_seq ≡ off
      → length payload < 2 ^ 32
      → off < 2 ^ 32
      → b.max_bytes < off + length payload
      → (e : PushError) × ((push b seq payload).1 ≡ some e)
  unfolding push
  refused-error seq at short low beyond =
      let whole = not_empty payload some_bytes in
      let fails : Buffer × Option PushError → Type 0 = λ o. (e : PushError) × (o.1 ≡ some e) in
      rw whole (
        rw at (
          if_cases fails (b.max_bytes == 0) (λ _. (buffer_full, refl))
            λ room.
              if_cases fails (leb b.max_bytes off) (λ _. (out_of_window, refl))
                λ inside.
                  if_cases fails (ltb (add32 off (u32 (length payload))) off)
                    (λ _. (buffer_full, refl))
                    λ forward.
                      let end : add32 off (u32 (length payload)) ≡ off + length payload =
                        ground arith in
                      let fresh : leb (off + length payload) b.contig_len ≡ false =
                        ground (arith, v.within) in
                      rw end (
                        rw fresh (
                          if_cases fails (ltb off b.contig_len)
                            (λ under. trimmed-error (ground arith) short beyond (ground arith))
                            (λ _. rw (place-error beyond) (buffer_full, refl))))))
