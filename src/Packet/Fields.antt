-- ===== src/Packet/Fields.antt =====
-- The header setters of internal/packet/packet.go. Each leaves a packet that is too short as it is.
use gov_pass.Prelude.{ℕ, ◌+◌, ◌%◌, List, ltb, if◌then◌else◌, length, set}
use gov_pass.Packet.Bytes.{u16_at, put_u16, put_u32}

unfoldable pub ipv4_id : List ℕ → ℕ
ipv4_id d = if ltb (length d) 6 then 0 else u16_at d 4

unfoldable pub set_ipv4_id : List ℕ → ℕ → List ℕ
set_ipv4_id d id = if ltb (length d) 6 then d else put_u16 d 4 id

unfoldable pub set_ipv4_total_length : List ℕ → ℕ → List ℕ
set_ipv4_total_length d total = if ltb (length d) 4 then d else put_u16 d 2 total

unfoldable pub set_ipv4_checksum_zero : List ℕ → List ℕ
set_ipv4_checksum_zero d = if ltb (length d) 12 then d else set (set d 10 0) 11 0

unfoldable pub set_ipv4_checksum : List ℕ → ℕ → List ℕ
set_ipv4_checksum d sum = if ltb (length d) 12 then d else put_u16 d 10 sum

unfoldable pub set_tcp_seq : List ℕ → ℕ → ℕ → List ℕ
set_tcp_seq d ip_header_len seq =
    if ltb (length d) (ip_header_len + 8) then d else put_u32 d (ip_header_len + 4) seq

unfoldable pub set_tcp_checksum_zero : List ℕ → ℕ → List ℕ
set_tcp_checksum_zero d ip_header_len =
    if ltb (length d) (ip_header_len + 18)
    then d
    else set (set d (ip_header_len + 16) 0) (ip_header_len + 17) 0

unfoldable pub set_tcp_checksum : List ℕ → ℕ → ℕ → List ℕ
set_tcp_checksum d ip_header_len sum =
    if ltb (length d) (ip_header_len + 18) then d else put_u16 d (ip_header_len + 16) sum

unfoldable pub set_tcp_flags : List ℕ → ℕ → ℕ → List ℕ
set_tcp_flags d ip_header_len flags =
    if ltb (length d) (ip_header_len + 14) then d else set d (ip_header_len + 13) (flags % 256)
