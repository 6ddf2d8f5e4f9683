-- ===== src/Wal/Segment.antt =====
-- Segment files of internal/wal/segment.go: createSegment, readSegmentHeader and scanSegment.
pub mod Recovery
pub mod Headers
use leser.Prelude.{
  ℕ, zero, suc, ◌+◌, ◌*◌, ◌-◌, ◌^◌, ◌<◌, Option, none, some, List, [], ◌∷◌, ◌++◌, length, take,
  drop, leb, ◌==◌, if◌then◌else◌, ◌≡◌, refl, Bool, true, false, ◌&&◌,
}
use leser.Prelude.Bytes.{Bytes, put_le, get_le, bytes_eq}
use leser.Wal.Record.{Entry, append_record, scan_record, read_at, seg_header_len}

-- "LESRWAL1"
abbrev pub seg_magic : Bytes
seg_magic = b'L' ∷ b'E' ∷ b'S' ∷ b'R' ∷ b'W' ∷ b'A' ∷ b'L' ∷ b'1' ∷ []

abbrev pub seg_version : ℕ
seg_version = 1

pub data HeaderError : Type 0 where
  short bad_magic : HeaderError
  unsupported : ℕ → HeaderError

pub data Header : Type 0 where
  valid : ℕ → Header
  invalid : HeaderError → Header

-- The bytes that createSegment writes into a fresh file.
unfoldable pub create_segment : ℕ → Bytes
create_segment base = seg_magic ++ (put_le 4 seg_version ++ put_le 8 base)

check_fields : Bytes → Header
check_fields hdr =
    if bytes_eq (take 8 hdr) seg_magic
    then (let v = get_le (take 4 (drop 8 hdr)) in
        if v == seg_version then valid (get_le (drop 12 hdr)) else invalid (unsupported v))
    else invalid bad_magic

unfoldable pub read_segment_header : Bytes → Header
unfolding check_fields read_at
read_segment_header f = elim (read_at f 0 seg_header_len) [
  | none ↦ invalid short
  | some hdr ↦ check_fields hdr
]

-- The `for` of scanSegment, with the count and the position so far.
unfoldable pub scan_from : ℕ → Bytes → ℕ → ℕ → ℕ → ℕ → ℕ × ℕ
scan_from zero f size max_record records pos = (records, pos)
scan_from (suc fuel) f size max_record records pos = elim (scan_record f pos size max_record 0) [
  | none ↦ (records, pos)
  | some (_, next) ↦ scan_from fuel f size max_record (records + 1) next
]

-- The number of valid records and the size of the valid prefix. A record takes 17 bytes or more, so
-- the size of the file bounds the rounds.
unfoldable pub scan_segment : Bytes → ℕ → ℕ × ℕ
unfolding scan_from scan_record
scan_segment f max_record = scan_from (length f) f (length f) max_record 0 seg_header_len
