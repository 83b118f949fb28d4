-- ===== src/Packet/Bytes.antt =====
-- encoding/binary's big-endian reads and writes, as internal/packet uses them.
use gov_pass.Prelude.{
  ℕ, ◌+◌, ◌*◌, ◌/◌, ◌%◌, ◌^◌, ◌<◌, ◌≡◌, refl, Option, some, List, [], ◌∷◌, arith, get_elem?, get_or,
  set, ◌>>=◌, length, get_elem?-eq-get_or,
}

-- Every element is a byte.
abbrev pub IsBytes : List ℕ → Type 0
IsBytes [] = Unit {0}
IsBytes (x ∷ xs) = (x < 256) × IsBytes xs

abbrev pub byte_at : List ℕ → ℕ → ℕ
byte_at d i = get_or d i 0

-- `binary.BigEndian.Uint16(d[i:i+2])` where the slice is known to lie in range.
abbrev pub u16_at : List ℕ → ℕ → ℕ
u16_at d i = byte_at d i * 256 + byte_at d (i + 1)

abbrev pub u32_at : List ℕ → ℕ → ℕ
u32_at d i = u16_at d i * 2 ^ 16 + u16_at d (i + 2)

-- The same reads where the code gives no guarantee: a read out of range faults.
unfoldable pub read_u16 : List ℕ → ℕ → Option ℕ
read_u16 d i = do hi ← get_elem? d i; lo ← get_elem? d (i + 1); some (hi * 256 + lo)

unfoldable pub read_u32 : List ℕ → ℕ → Option ℕ
read_u32 d i = do hi ← read_u16 d i; lo ← read_u16 d (i + 2); some (hi * 2 ^ 16 + lo)

-- `binary.BigEndian.PutUint16(d[i:i+2], v)`, with the conversion of `v` to 16 bits.
abbrev pub put_u16 : List ℕ → ℕ → ℕ → List ℕ
put_u16 d i v = set (set d i (v / 256 % 256)) (i + 1) (v % 256)

abbrev pub put_u32 : List ℕ → ℕ → ℕ → List ℕ
put_u32 d i v = put_u16 (put_u16 d i (v / 2 ^ 16)) (i + 2) (v % 2 ^ 16)

pub byte_at-lt : (d : List ℕ) (i : ℕ) → IsBytes d → byte_at d i < 256
byte_at-lt [] i b = omega arith
byte_at-lt (x ∷ d) ℕ.zero b = b.0
byte_at-lt (x ∷ d) (ℕ.suc i) b = byte_at-lt d i b.1

pub read_u16_lem : (d : List ℕ) (i : ℕ) → i + 1 < length d → read_u16 d i ≡ some (u16_at d i)
unfolding read_u16
read_u16_lem d i h = ground (arith, get_elem?-eq-get_or d i 0, get_elem?-eq-get_or d (i + 1) 0)

pub read_u32_lem : (d : List ℕ) (i : ℕ) → i + 3 < length d → read_u32 d i ≡ some (u32_at d i)
unfolding read_u32
read_u32_lem d i h = rw (read_u16_lem d i (omega arith), read_u16_lem d (i + 2) (omega arith)) refl
