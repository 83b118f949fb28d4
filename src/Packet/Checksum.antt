-- ===== src/Packet/Checksum.antt =====
-- internal/packet/checksum.go: the Internet checksum.
pub mod Sums
use gov_pass.Prelude.{
  ℕ, zero, suc, ◌+◌, ◌-◌, ◌*◌, ◌/◌, ◌%◌, ◌^◌, ◌||◌, List, [], ◌∷◌, ltb, ◌==◌, if◌then◌else◌, length,
  take, drop,
}
use gov_pass.Packet.Bytes.{byte_at, u16_at}

-- `sum += x` on a uint32.
abbrev pub add32 : ℕ → ℕ → ℕ
add32 a b = (a + b) % 2 ^ 32

-- The loop of checksumSum, with `sum` so far.
pub sum_from : ℕ → List ℕ → ℕ
sum_from sum [] = sum
sum_from sum (x ∷ []) = add32 sum (x * 2 ^ 8)
sum_from sum (x ∷ y ∷ rest) = sum_from (add32 sum (x * 256 + y)) rest

pub checksum_sum : List ℕ → ℕ
checksum_sum d = sum_from 0 d

-- `for (sum >> 16) != 0`, with fuel.
pub fold_loop : ℕ → ℕ → ℕ
fold_loop zero sum = sum
fold_loop (suc fuel) sum =
    let rest = fold_loop fuel (add32 (sum % 2 ^ 16) (sum / 2 ^ 16)) in
    if sum / 2 ^ 16 == 0 then sum else rest

pub fold_checksum : ℕ → ℕ
fold_checksum sum = fold_loop 3 sum

-- `^uint16(sum)`
abbrev pub complement16 : ℕ → ℕ
complement16 sum = 2 ^ 16 - 1 - sum % 2 ^ 16

pub checksum : List ℕ → ℕ
checksum d = complement16 (fold_checksum (checksum_sum d))

unfoldable pub ipv4_checksum : List ℕ → ℕ → ℕ
ipv4_checksum d header_len =
    if ltb header_len 20 || ltb (length d) header_len then 0 else checksum (take header_len d)

-- `totalLen`: the length that the header states, or all of the data if that is nonsense.
abbrev pub total_length : List ℕ → ℕ
total_length d = if u16_at d 2 == 0 || ltb (length d) (u16_at d 2) then length d else u16_at d 2

-- The sum over the pseudo-header, added up word by word.
abbrev pub pseudo_sum : List ℕ → ℕ → ℕ
pseudo_sum d tcp_len =
    add32
      (add32
        (add32 (add32 (add32 (add32 0 (u16_at d 12)) (u16_at d 14)) (u16_at d 16)) (u16_at d 18))
        (byte_at d 9))
      (tcp_len % 2 ^ 32)

unfoldable pub tcp_checksum_ipv4 : List ℕ → ℕ → ℕ
tcp_checksum_ipv4 d header_len =
    if ltb header_len 20 || ltb (length d) (header_len + 20)
    then 0
    else let tcp_len = total_length d - header_len in
      if ltb (total_length d) header_len || ltb (length d) (header_len + tcp_len)
      then 0
      else complement16 (
          fold_checksum
            (add32 (pseudo_sum d tcp_len) (checksum_sum (take tcp_len (drop header_len d)))))
