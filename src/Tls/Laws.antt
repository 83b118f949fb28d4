-- ===== src/Tls/Laws.antt =====
-- The ClientHello test of internal/tls/tls.go against a description of the record.
use gov_pass.Prelude.{
  ℕ, zero, suc, ◌≤◌, ◌<◌, ◌≡◌, ◌≢◌, refl, ◌↔◌, List, [], ◌∷◌, ◌++◌, arith, length, get_or,
  length-append, le→ltb-false,
}
use gov_pass.Packet.Bytes.{byte_at, u16_at}
use gov_pass.Tls.{need_more, match, detect_client_hello_record}

-- The start of a handshake record that carries a ClientHello, with a payload of `len` bytes: TLS
-- 1.0 to 1.3 in the record's version, and a length that is not 0.
pub record IsHello (buf : List ℕ) (len : ℕ) : Type 0 where
  pub enough : 6 ≤ length buf
  pub content_type : byte_at buf 0 ≡ 22
  pub oldest : 0x0301 ≤ u16_at buf 1
  pub newest : u16_at buf 1 ≤ 0x0304
  pub handshake : byte_at buf 5 ≡ 1
  pub length_field : u16_at buf 3 ≡ len
  pub not_empty : 1 ≤ len

-- The test matches exactly the starts of ClientHello records, and reports their length.
pub detect-match_iff :
    (buf : List ℕ) (len : ℕ) → (detect_client_hello_record buf ≡ (len, match)) ↔ IsHello buf len
unfolding detect_client_hello_record
detect-match_iff buf len = (λ e. ground arith, λ h. ground arith)

-- It asks for more exactly when there are fewer than six bytes.
detect-need_more_iff :
    (buf : List ℕ) → ((detect_client_hello_record buf).1 ≡ need_more) ↔ (length buf < 6)
unfolding detect_client_hello_record
detect-need_more_iff buf = (λ e. ground arith, λ h. ground arith)

get_or-append : (xs ys : List ℕ) (i d : ℕ) → i < length xs → get_or (xs ++ ys) i d ≡ get_or xs i d
get_or-append [] ys i d h = absurd (omega arith)
get_or-append (x ∷ xs) ys zero d h = refl
get_or-append (x ∷ xs) ys (suc i) d h = get_or-append xs ys i d (omega arith)

-- A verdict is final: more of the stream does not change it, nor the length.
pub detect-append :
    (buf more : List ℕ)
    → (detect_client_hello_record buf).1 ≢ need_more
    → detect_client_hello_record (buf ++ more) ≡ detect_client_hello_record buf
unfolding detect_client_hello_record
detect-append buf more h =
    let long : 6 ≤ length buf = ground arith in
    let same : (i : ℕ) → i < 6 → byte_at (buf ++ more) i ≡ byte_at buf i =
      λ i small. get_or-append buf more i 0 (omega arith) in
    rw
      (
        le→ltb-false (length (buf ++ more)) 6 (omega (arith, length-append buf more)),
        le→ltb-false (length buf) 6 long,
        same 0 (omega arith),
        same 1 (omega arith),
        same 2 (omega arith),
        same 3 (omega arith),
        same 4 (omega arith),
        same 5 (omega arith),
      )
      refl
