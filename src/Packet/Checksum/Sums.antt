-- ===== src/Packet/Checksum/Sums.antt =====
-- The laws of internal/packet/checksum.go: folding is reduction modulo 2 ^ 16 - 1, and data with its
-- checksum stored sums up to 2 ^ 16 - 1.
use gov_pass.Prelude.{
  ℕ, zero, suc, ◌+◌, ◌-◌, ◌*◌, ◌/◌, ◌%◌, ◌^◌, ◌≤◌, ◌<◌, ◌≡◌, refl, sym, ap, ◌∙◌, List, [], ◌∷◌,
  ◌++◌, arith, length, if_cases, ◌==◌,
}
use gov_pass.Packet.Bytes.{IsBytes}
use gov_pass.Packet.Checksum.{sum_from, checksum_sum, fold_loop, fold_checksum, checksum}

-- The sum of the 16-bit words, without wrap-around.
pub words : List ℕ → ℕ
words [] = 0
words (x ∷ []) = x * 256
words (x ∷ y ∷ rest) = x * 256 + y + words rest

-- A number in 16 bits that is another modulo 2 ^ 16 - 1, and is 0 only for 0.
pub record IsFolded (s r : ℕ) : Type 0 where
  pub small : r < 65536
  pub quotient : ℕ
  pub congruent : s ≡ r + 65535 * quotient
  pub positive : 1 ≤ s → 1 ≤ r

fold_small : (fuel s : ℕ) → s < 65536 → fold_loop fuel s ≡ s
unfolding fold_loop
fold_small zero s h = refl
fold_small (suc fuel) s h = ground arith

-- One turn of the loop.
fold_turn :
    (fuel s : ℕ) → s < 2 ^ 32 → fold_loop (suc fuel) s ≡ (fold_loop fuel (s % 2 ^ 16 + s / 2 ^ 16))
unfolding fold_loop
fold_turn fuel s h =
    if_cases (λ v. v ≡ fold_loop fuel (s % 2 ^ 16 + s / 2 ^ 16)) (s / 2 ^ 16 == 0)
      (λ z.
        let same : s % 2 ^ 16 + s / 2 ^ 16 ≡ s = ground arith in
        sym (ap (fold_loop fuel) same ∙ fold_small fuel s (ground arith)))
      (λ _. ap (fold_loop fuel) (omega arith))

-- Three turns are enough for any uint32.
fold_checksum_lem :
    (s : ℕ)
    → s < 2 ^ 32
    → let t = s % 2 ^ 16 + s / 2 ^ 16 in fold_checksum s ≡ t % 2 ^ 16 + t / 2 ^ 16
unfolding fold_checksum
fold_checksum_lem s h =
    let t = s % 2 ^ 16 + s / 2 ^ 16 in
    fold_turn 2 s h ∙ fold_turn 1 t (omega arith) ∙ fold_small 1 _ (omega arith)

-- Folding a uint32 gives a number in 16 bits that is equal to it modulo 2 ^ 16 - 1, and is 0 only
-- for 0.
pub fold_checksum-IsFolded : (s : ℕ) → s < 2 ^ 32 → IsFolded s (fold_checksum s)
fold_checksum-IsFolded s h = rw (fold_checksum_lem s h) (record {
  small = omega arith;
  quotient = s / 2 ^ 16 + (s % 2 ^ 16 + s / 2 ^ 16) / 2 ^ 16;
  congruent = omega arith;
  positive = omega arith;
})

sum_from-words : (d : List ℕ) (s : ℕ) → s + words d < 2 ^ 32 → sum_from s d ≡ s + words d
unfolding sum_from words
sum_from-words [] s h = omega arith
sum_from-words (x ∷ []) s h = omega arith
sum_from-words (x ∷ y ∷ rest) s h =
    omega (arith, sum_from-words rest ((s + (x * 256 + y)) % 2 ^ 32) (omega arith))

words-append_pair :
    (front back : List ℕ) (x y : ℕ)
    → length front % 2 ≡ 0
    → words (front ++ x ∷ y ∷ back) ≡ x * 256 + y + words (front ++ 0 ∷ 0 ∷ back)
unfolding words
words-append_pair [] back x y h = omega arith
words-append_pair (a ∷ []) back x y h = omega (arith, h)
words-append_pair (a ∷ b ∷ front) back x y h =
    omega (arith, words-append_pair front back x y (omega arith))

words-bound : (d : List ℕ) → IsBytes d → words d ≤ 65535 * length d
unfolding words
words-bound [] h = omega arith
words-bound (x ∷ []) h = omega (arith, h.0)
words-bound (x ∷ y ∷ rest) h = omega (arith, h.0, h.1.0, words-bound rest h.1.1)

-- checksum, of data whose words do not overflow the sum.
checksum-words :
    (d : List ℕ) → words d < 2 ^ 32 → (f : ℕ) × (IsFolded (words d) f) × (checksum d ≡ 65535 - f)
unfolding checksum checksum_sum
checksum-words d h =
    let f = fold_checksum-IsFolded (words d) h in
    let sum : sum_from 0 d ≡ words d = omega (arith, sum_from-words d 0 (omega arith)) in
    (fold_checksum (words d), f, rw sum (omega (arith, f.small)))

-- Take bytes with two zeros at an even place, at most 65535 in all. With their checksum stored in
-- the place of the zeros, they sum up to 2 ^ 16 - 1 when folded, which is what a receiver tests.
pub checksum-Verifies :
    (front back : List ℕ)
    → length front % 2 ≡ 0
    → IsBytes (front ++ 0 ∷ 0 ∷ back)
    → length (front ++ 0 ∷ 0 ∷ back) ≤ 65535
    → let c = checksum (front ++ 0 ∷ 0 ∷ back) in
      fold_checksum (checksum_sum (front ++ (c / 2 ^ 8) ∷ (c % 2 ^ 8) ∷ back)) ≡ 65535
unfolding checksum_sum
checksum-Verifies front back even bytes short =
    let zeroed = front ++ 0 ∷ 0 ∷ back in
    let c = checksum zeroed in
    let stored = front ++ (c / 2 ^ 8) ∷ (c % 2 ^ 8) ∷ back in
    let bound = words-bound zeroed bytes in
    let (f, known, value) = checksum-words zeroed (omega (arith, bound, short)) in
    let more : words stored ≡ c + words zeroed =
      omega (arith, words-append_pair front back (c / 2 ^ 8) (c % 2 ^ 8) even) in
    let fits : words stored < 2 ^ 32 = omega (arith, more, bound, short, value) in
    let sum : sum_from 0 stored ≡ words stored =
      omega (arith, sum_from-words stored 0 (omega (arith, fits))) in
    let folded = fold_checksum-IsFolded (words stored) fits in
    let least : 1 ≤ words stored = omega (arith, value, more, known.small, known.congruent) in
    rw sum (
      omega (
        arith,
        folded.small,
        folded.congruent,
        folded.positive least,
        known.small,
        known.congruent,
        value,
        more,
      ))
