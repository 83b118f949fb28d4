-- ===== src/Reassembly.antt =====
-- internal/reassembly/reassembly.go: TCP payload put together into a contiguous prefix.
pub mod Laws
pub mod Stream
pub mod Chain
pub mod Span
pub mod Split
pub mod Merged
pub mod Inserted
pub mod View
pub mod Refinement
pub mod Branches
pub mod Writes
use gov_pass.Prelude.{
  ℕ, suc, ◌+◌, ◌-◌, ◌%◌, ◌^◌, Bool, true, false, ◌&&◌, Option, none, some, List, [], ◌∷◌, ◌++◌, ltb,
  leb, ◌==◌, if◌then◌else◌, length, get_or, take, drop, replicate, copy_at, is_empty,
}

pub data PushError : Type 0 where
  buffer_full out_of_window : PushError

pub record Segment : Type 0 where
  pub offset : ℕ
  pub bytes : List ℕ

-- The uint32 arithmetic of sequence numbers.
abbrev pub u32 : ℕ → ℕ
u32 n = n % 2 ^ 32

abbrev pub add32 : ℕ → ℕ → ℕ
add32 a b = (a + b) % 2 ^ 32

abbrev pub sub32 : ℕ → ℕ → ℕ
sub32 a b = (a + 2 ^ 32 - b) % 2 ^ 32

abbrev pub seg_end : Segment → ℕ
seg_end s = add32 s.offset (u32 (length s.bytes))

pub record Buffer : Type 0 where
  pub base_seq : ℕ
  pub contig : List ℕ
  pub contig_len : ℕ
  pub max_bytes : ℕ
  pub total_bytes : ℕ
  pub segments : List Segment
  pub had_out_of_order : Bool
  pub had_overlap : Bool

-- reassembly.New
unfoldable pub new_buffer : ℕ → ℕ → Buffer
new_buffer base_seq max_bytes = record {
  base_seq = base_seq;
  contig = [];
  contig_len = 0;
  max_bytes = max_bytes;
  total_bytes = 0;
  segments = [];
  had_out_of_order = false;
  had_overlap = false;
}

-- `sort.Search` for the first segment that starts at `offset` or behind it. The segments are
-- sorted, so that the library's binary search finds the least such index.
pub search : List Segment → ℕ → ℕ
search [] offset = 0
search (s ∷ segs) offset =
    let rest = suc (search segs offset) in if leb offset s.offset then 0 else rest

-- The loop over `right`, on the segments from `i` on: how many are swallowed, and the new end.
pub scan_right : List Segment → ℕ → ℕ × ℕ
scan_right [] new_end = (0, new_end)
scan_right (s ∷ segs) new_end =
    let rest = scan_right segs (if ltb new_end (seg_end s) then seg_end s else new_end) in
    if ltb new_end s.offset then (0, new_end) else (suc rest.0, rest.1)

-- The sum of the lengths, with uint32 wrap-around.
pub overlap_from : ℕ → List Segment → ℕ
overlap_from sum [] = sum
overlap_from sum (s ∷ segs) = overlap_from (add32 sum (u32 (length s.bytes))) segs

-- Each swallowed segment is copied to its place in `merged`.
pub copy_segments : List ℕ → ℕ → List Segment → List ℕ
copy_segments merged start [] = merged
copy_segments merged start (s ∷ segs) =
    copy_segments (copy_at merged (sub32 s.offset start) s.bytes) start segs

abbrev empty_segment : Segment
empty_segment = record { offset = 0; bytes = [] }

-- compact: the segments that continue the prefix move into it.
pub compact_loop : List ℕ → ℕ → List Segment → List ℕ × ℕ × List Segment
compact_loop contig contig_len [] = (contig, contig_len, [])
compact_loop contig contig_len (s ∷ segs) =
    let rest = compact_loop (contig ++ s.bytes) (add32 contig_len (u32 (length s.bytes))) segs in
    if s.offset == contig_len then rest else (contig, contig_len, s ∷ segs)

pub compact : Buffer → Buffer
compact b =
    let r = compact_loop b.contig b.contig_len b.segments in
    record b { contig = r.0; contig_len = r.1; segments = r.2 }

-- `left`: the segment before the place found takes part if it reaches the new one.
pub left_of : List Segment → ℕ → ℕ → ℕ
left_of segs i offset =
    if ltb 0 i && leb offset (seg_end (get_or segs (i - 1) empty_segment)) then i - 1 else i

-- `newStart` and `newEnd` with the segment on the left taken in.
pub span_left : List Segment → ℕ → ℕ → ℕ → ℕ → ℕ × ℕ
span_left segs left i start end =
    let s = get_or segs left empty_segment in
    if ltb left i
    then (
      (if ltb s.offset start then s.offset else start),
      (if ltb end (seg_end s) then seg_end s else end),
    )
    else (start, end)

-- The segments from `left` to `right` give way to one from `start` to `end` with their bytes and
-- the new ones: from the sum of the overlap to the end of Push.
pub insert : Buffer → ℕ → List ℕ → ℕ → ℕ → ℕ → ℕ → Buffer × Option PushError
insert b offset payload left right start end =
    let inside = take (right - left) (drop left b.segments) in
    let total = add32 (sub32 b.total_bytes (overlap_from 0 inside)) (sub32 end start) in
    let copied = copy_segments (replicate (sub32 end start) 0) start inside in
    let merged = copy_at copied (sub32 offset start) payload in
    if ltb b.max_bytes total then (b, some buffer_full) else (
      compact (record b {
        segments =
            take left b.segments
            ++ record { offset = start; bytes = merged } ∷ drop right b.segments;
        total_bytes = total;
      }),
      none,
    )

-- The merge of a new segment into the sorted list, from `data := make(...)` on.
pub merge : Buffer → ℕ → List ℕ → Buffer × Option PushError
merge b offset payload =
    let i = search b.segments offset in
    let left = left_of b.segments i offset in
    let span = span_left b.segments left i offset (add32 offset (u32 (length payload))) in
    let swallowed = scan_right (drop i b.segments) span.1 in
    let right = i + swallowed.0 in
    insert (if ltb left right then record b { had_overlap = true } else b) offset payload left right
      span.0 swallowed.1

-- Where no segment waits, a fragment at the end of the prefix goes straight behind it.
pub place_at : Buffer → ℕ → List ℕ → Buffer × Option PushError
place_at b offset payload =
    if offset == b.contig_len && is_empty b.segments
    then (if ltb b.max_bytes (add32 b.total_bytes (u32 (length payload)))
        then (b, some buffer_full)
        else (
          record b {
            contig = b.contig ++ payload;
            contig_len = add32 b.contig_len (u32 (length payload));
            total_bytes = add32 b.total_bytes (u32 (length payload));
          },
          none,
        ))
    else merge b offset payload

-- From the check of `end` against the window on; `end` is `offset + len(payload)`.
pub place : Buffer → ℕ → List ℕ → ℕ → Buffer × Option PushError
place b offset payload end =
    if ltb b.max_bytes end
    then (b, some buffer_full)
    else place_at (if offset == b.contig_len then b else record b { had_out_of_order = true })
        offset payload

-- The fragment that begins inside the prefix, without what the prefix has already.
pub trim_prefix : Buffer → ℕ → List ℕ → Buffer × Option PushError
trim_prefix b offset payload =
    let payload' = drop (sub32 b.contig_len offset) payload in
    let end = add32 b.contig_len (u32 (length payload')) in
    let b' = record b { had_overlap = true } in
    if ltb end b.contig_len
    then (b', some buffer_full)
    else if is_empty payload'
    then (b', none)
    else place b' b.contig_len payload' end

pub push : Buffer → ℕ → List ℕ → Buffer × Option PushError
push b seq payload =
    if is_empty payload
    then (b, none)
    else if b.max_bytes == 0
    then (b, some buffer_full)
    else let offset = sub32 seq b.base_seq in
      if leb b.max_bytes offset
      then (b, some out_of_window)
      else let end = add32 offset (u32 (length payload)) in
        if ltb end offset
        then (b, some buffer_full)
        else if leb end b.contig_len
        then (b, none)
        else if ltb offset b.contig_len
        then trim_prefix b offset payload
        else place b offset payload end
