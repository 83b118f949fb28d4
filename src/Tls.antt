-- ===== src/Tls.antt =====
-- internal/tls/tls.go: the test for a TLS ClientHello record.
pub mod Laws
use gov_pass.Prelude.{ℕ, ◌+◌, ◌*◌, Bool, not, ◌||◌, List, ltb, ◌==◌, if◌then◌else◌, length}
use gov_pass.Packet.Bytes.{byte_at, u16_at}

pub data Result : Type 0 where
  need_more mismatch match : Result

-- The record's length and the verdict. The reads stand behind the length check.
unfoldable pub detect_client_hello_record : List ℕ → ℕ × Result
detect_client_hello_record buf =
    if ltb (length buf) 6
    then (0, need_more)
    else if not (byte_at buf 0 == 0x16)
    then (0, mismatch)
    else if ltb (u16_at buf 1) 0x0301 || ltb 0x0304 (u16_at buf 1)
    then (0, mismatch)
    else if not (byte_at buf 5 == 0x01)
    then (0, mismatch)
    else if u16_at buf 3 == 0
    then (0, mismatch)
    else (u16_at buf 3, match)
