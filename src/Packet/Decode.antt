-- ===== src/Packet/Decode.antt =====
-- DecodeIPv4TCP of internal/packet/packet.go against an independent description of the frames
-- that it takes.
use gov_pass.Prelude.{
  ℕ, ◌+◌, ◌*◌, ◌/◌, ◌%◌, ◌^◌, ◌≤◌, ◌≡◌, refl, Option, none, some, List, take, drop, arith, ltb,
  ◌==◌, false, not, ◌||◌, le→ltb-false, length, get_elem?-eq-get_or, if_cases,
}
use gov_pass.Packet.{Packet, Meta, DecodeError, decode_ipv4_tcp, decode_ip, decode_tcp, addressed}
use gov_pass.Packet.Bytes.{byte_at, u16_at, u32_at, read_u16_lem, read_u32_lem}

-- The length of the IPv4 header, from its first byte, and of the TCP header behind it.
abbrev pub ip_header : List ℕ → ℕ
ip_header d = byte_at d 0 % 16 * 4

abbrev pub tcp_header : List ℕ → ℕ
tcp_header d = byte_at d (ip_header d + 12) / 16 * 4

-- An unfragmented IPv4 frame that carries TCP and holds both headers whole.
pub record IsWholeTcp (d : List ℕ) : Type 0 where
  pub version : byte_at d 0 / 16 ≡ 4
  pub ip_min : 20 ≤ ip_header d
  pub ip_fits : ip_header d + 20 ≤ length d
  pub unfragmented : u16_at d 6 % 2 ^ 14 ≡ 0
  pub protocol : byte_at d 9 ≡ 6
  pub tcp_min : 20 ≤ tcp_header d
  pub tcp_fits : ip_header d + tcp_header d ≤ length d

-- The fields that such a frame has.
abbrev pub fields : List ℕ → Meta
fields d = record {
  src_ip = take 4 (drop 12 d);
  dst_ip = take 4 (drop 16 d);
  src_port = u16_at d (ip_header d);
  dst_port = u16_at d (ip_header d + 2);
  proto = 6;
  seq = u32_at d (ip_header d + 4);
  ack = u32_at d (ip_header d + 8);
  flags = byte_at d (ip_header d + 13);
  ip_header_len = ip_header d;
  tcp_header_len = tcp_header d;
  payload_offset = ip_header d + tcp_header d;
}

decode_tcp-accepts :
    (p : Packet) (start : ℕ)
    → let offset = byte_at p.bytes (start + 12) / 16 * 4 in
      20 ≤ offset
      → start + offset ≤ length p.bytes
      → decode_tcp p start
        ≡ some (
          record p {
            meta = record p.meta {
              src_port = u16_at p.bytes start;
              dst_port = u16_at p.bytes (start + 2);
              seq = u32_at p.bytes (start + 4);
              ack = u32_at p.bytes (start + 8);
              flags = byte_at p.bytes (start + 13);
              tcp_header_len = offset;
              payload_offset = start + offset;
            };
          },
          none,
        )
unfolding decode_tcp
decode_tcp-accepts p start lo hi = ground (
  arith,
  read_u16_lem p.bytes start,
  read_u16_lem p.bytes (start + 2),
  read_u32_lem p.bytes (start + 4),
  read_u32_lem p.bytes (start + 8),
  get_elem?-eq-get_or p.bytes (start + 12) 0,
  get_elem?-eq-get_or p.bytes (start + 13) 0,
)

not_fragment :
    (x : ℕ) → x % 2 ^ 14 ≡ 0 → (not (x % 2 ^ 13 == 0) || not (x / 2 ^ 13 % 2 == 0)) ≡ false
not_fragment x h = ground arith

decode_ip-accepts :
    (p : Packet)
    → IsWholeTcp p.bytes
    → decode_ip p (ip_header p.bytes) ≡ some (record p { meta = fields p.bytes }, none)
unfolding decode_ip
decode_ip-accepts p w =
    rw
      (
        read_u16_lem p.bytes 6 (omega (arith, w.ip_min, w.ip_fits)),
        not_fragment (u16_at p.bytes 6) w.unfragmented,
        get_elem?-eq-get_or p.bytes 9 0 (omega (arith, w.ip_min, w.ip_fits)),
        w.protocol,
        le→ltb-false (length p.bytes) 16 (omega (arith, w.ip_min, w.ip_fits)),
        le→ltb-false (length p.bytes) 20 (omega (arith, w.ip_min, w.ip_fits)),
      )
      (decode_tcp-accepts
        (addressed p (take 4 (drop 12 p.bytes)) (take 4 (drop 16 p.bytes)) (ip_header p.bytes))
        (ip_header p.bytes) w.tcp_min w.tcp_fits)

-- A whole unfragmented IPv4/TCP frame is accepted, and every field of Meta is read from its place.
pub decode-accepts :
    (p : Packet)
    → IsWholeTcp p.bytes
    → decode_ipv4_tcp p ≡ some (record p { meta = fields p.bytes }, none)
unfolding decode_ipv4_tcp
decode-accepts p w = ground (arith, get_elem?-eq-get_or p.bytes 0 0, decode_ip-accepts p w)

-- What a decoder's result says: it did not fault, it left the bytes alone, and it reports no error
-- only for a whole TCP segment.
unfoldable pub Sound : Packet → Option (Packet × Option DecodeError) → Type 0
Sound p none = ⊥
Sound p (some (q, none)) = (q.bytes ≡ p.bytes) × IsWholeTcp p.bytes
Sound p (some (q, some e)) = q.bytes ≡ p.bytes

decode_tcp-Sound :
    (p : Packet) (start : ℕ)
    → start + 20 ≤ length p.bytes
    → ((20 ≤ byte_at p.bytes (start + 12) / 16 * 4)
        → (start + byte_at p.bytes (start + 12) / 16 * 4 ≤ length p.bytes)
        → IsWholeTcp p.bytes)
    → Sound p (decode_tcp p start)
unfolding decode_tcp Sound
decode_tcp-Sound p start h whole = ground (
  arith,
  read_u16_lem p.bytes start,
  read_u16_lem p.bytes (start + 2),
  read_u32_lem p.bytes (start + 4),
  read_u32_lem p.bytes (start + 8),
  get_elem?-eq-get_or p.bytes (start + 12) 0,
  get_elem?-eq-get_or p.bytes (start + 13) 0,
)

decode_ip-Sound :
    (p : Packet)
    → byte_at p.bytes 0 / 16 ≡ 4
    → 20 ≤ ip_header p.bytes
    → ip_header p.bytes + 20 ≤ length p.bytes
    → Sound p (decode_ip p (ip_header p.bytes))
unfolding decode_ip Sound
decode_ip-Sound p v m f =
    rw
      (
        read_u16_lem p.bytes 6 (omega arith),
        get_elem?-eq-get_or p.bytes 9 0 (omega arith),
        le→ltb-false (length p.bytes) 16 (omega arith),
        le→ltb-false (length p.bytes) 20 (omega arith),
      )
      (if_cases (Sound p)
        (not (u16_at p.bytes 6 % 2 ^ 13 == 0) || not (u16_at p.bytes 6 / 2 ^ 13 % 2 == 0))
        (λ _. refl)
        λ whole.
          if_cases (Sound p) (not (byte_at p.bytes 9 == 6)) (λ _. refl)
            λ tcp.
              decode_tcp-Sound
                (addressed p (take 4 (drop 12 p.bytes)) (take 4 (drop 16 p.bytes))
                  (ip_header p.bytes))
                (ip_header p.bytes) f
                λ m' f'. record {
                  version = v;
                  ip_min = m;
                  ip_fits = f;
                  unfragmented = ground arith;
                  protocol = ground arith;
                  tcp_min = m';
                  tcp_fits = f';
                })

-- For every packet the decoder runs to its end (no read is out of range), leaves the bytes as they
-- are, and reports success only for a whole unfragmented IPv4/TCP frame.
pub decode-Sound : (p : Packet) → Sound p (decode_ipv4_tcp p)
unfolding decode_ipv4_tcp Sound
decode-Sound p =
    if_cases (Sound p) (ltb (length p.bytes) 20) (λ _. refl)
      λ long. rw (get_elem?-eq-get_or p.bytes 0 0 (ground arith)) (
        if_cases (Sound p) (not (byte_at p.bytes 0 / 16 == 4)) (λ _. refl)
          λ four.
            if_cases (Sound p)
              (ltb (ip_header p.bytes) 20 || ltb (length p.bytes) (ip_header p.bytes + 20))
              (λ _. refl) λ fits. decode_ip-Sound p (ground arith) (ground arith) (ground arith))
