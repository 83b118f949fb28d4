-- ===== src/Packet.antt =====
-- internal/packet/packet.go: the packet, its decoded header fields and the IPv4/TCP decoder.
pub mod Bytes
pub mod Decode
pub mod Fields
pub mod Checksum
use Bytes.{read_u16, read_u32}
use gov_pass.Prelude.{
  ℕ, ◌+◌, ◌-◌, ◌*◌, ◌/◌, ◌%◌, ◌^◌, Bool, true, false, not, ◌||◌, Option, none, some, List, [], ltb,
  leb, ◌==◌, if◌then◌else◌, ◌>>=◌, length, get_elem?, drop, slice, bit_and,
}

pub data DecodeError : Type 0 where
  not_ipv4 not_tcp too_short ipv4_fragment : DecodeError

abbrev pub proto_tcp : ℕ
proto_tcp = 6

abbrev pub tcp_flag_fin : ℕ
tcp_flag_fin = 0x01

abbrev pub tcp_flag_syn : ℕ
tcp_flag_syn = 0x02

abbrev pub tcp_flag_rst : ℕ
tcp_flag_rst = 0x04

abbrev pub tcp_flag_psh : ℕ
tcp_flag_psh = 0x08

abbrev pub tcp_flag_ack : ℕ
tcp_flag_ack = 0x10

pub data Source : Type 0 where
  source_unknown source_captured source_injected : Source

-- The raw bytes that an adapter keeps with a packet.
pub record Address : Type 0 where
  pub bytes : List ℕ

pub record Meta : Type 0 where
  pub src_ip : List ℕ
  pub dst_ip : List ℕ
  pub src_port : ℕ
  pub dst_port : ℕ
  pub proto : ℕ
  pub seq : ℕ
  pub ack : ℕ
  pub flags : ℕ
  pub ip_header_len : ℕ
  pub tcp_header_len : ℕ
  pub payload_offset : ℕ

-- `bytes` is the source's field Data.
pub record Packet : Type 0 where
  pub bytes : List ℕ
  pub addr : Address
  pub meta : Meta
  pub source : Source
  pub nfq_id : ℕ

unfoldable pub payload : Packet → List ℕ
payload p =
    if p.meta.payload_offset == 0 || ltb (length p.bytes) p.meta.payload_offset
    then []
    else drop p.meta.payload_offset p.bytes

unfoldable pub has_flag : Packet → ℕ → Bool
has_flag p flag = not (bit_and p.meta.flags flag == 0)

-- The part of the decoder behind the IP header, from `tcpStart := ihl` on. The fields that are
-- read before the last length check stay written when it fails.
unfoldable pub decode_tcp : Packet → ℕ → Option (Packet × Option DecodeError)
decode_tcp p start = do
  src_port ← read_u16 p.bytes start
  dst_port ← read_u16 p.bytes (start + 2)
  seq ← read_u32 p.bytes (start + 4)
  ack ← read_u32 p.bytes (start + 8)
  let ports = record p.meta { src_port = src_port; dst_port = dst_port; seq = seq; ack = ack }
  offset_byte ← get_elem? p.bytes (start + 12)
  let data_offset = offset_byte / 2 ^ 4 * 4
  if ltb data_offset 20 || ltb (length p.bytes) (start + data_offset)
      then some (record p { meta = ports }, some too_short)
      else do
        flags ← get_elem? p.bytes (start + 13)
        let full = record ports {
          flags = flags;
          tcp_header_len = data_offset;
          payload_offset = start + data_offset;
        }
        some (record p { meta = full }, none)

abbrev addressed : Packet → List ℕ → List ℕ → ℕ → Packet
addressed p src dst ihl = record p {
  meta = record p.meta { src_ip = src; dst_ip = dst; proto = proto_tcp; ip_header_len = ihl };
}

-- From the fragment check on.
unfoldable pub decode_ip : Packet → ℕ → Option (Packet × Option DecodeError)
decode_ip p ihl = do
  flags_offset ← read_u16 p.bytes 6
  if not (flags_offset % 2 ^ 13 == 0) || not (flags_offset / 2 ^ 13 % 2 == 0)
      then some (p, some ipv4_fragment)
      else do
        protocol ← get_elem? p.bytes 9
        if not (protocol == proto_tcp) then some (p, some not_tcp) else do
          src ← slice p.bytes 12 16
          dst ← slice p.bytes 16 20
          decode_tcp (addressed p src dst ihl) ihl

-- DecodeIPv4TCP: the packet with the fields that were filled, and the error; `none` would be a
-- read out of range.
unfoldable pub decode_ipv4_tcp : Packet → Option (Packet × Option DecodeError)
decode_ipv4_tcp p = if ltb (length p.bytes) 20 then some (p, some too_short) else do
  vihl ← get_elem? p.bytes 0
  let ihl = vihl % 2 ^ 4 * 4
  if not (vihl / 2 ^ 4 == 4)
      then some (p, some not_ipv4)
      else if ltb ihl 20 || ltb (length p.bytes) (ihl + 20)
      then some (p, some too_short)
      else decode_ip p ihl
