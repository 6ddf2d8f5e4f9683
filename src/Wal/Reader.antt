-- ===== src/Wal/Reader.antt =====
-- Reader of internal/wal/reader.go, and segmentFor, OldestOffset and LatestOffset of
-- internal/wal/wal.go.
use leser.Prelude.{
  ℕ, zero, suc, ◌+◌, ◌-◌, ◌&&◌, Option, none, some, List, [], ◌∷◌, length, get_elem?, ltb, leb,
  ◌==◌, if◌then◌else◌,
}
use leser.Prelude.Bytes.{Bytes}
use leser.Prelude.Search.{search, elem_test}
use leser.Wal.Record.{Record, scan_record, seg_header_len}
use leser.Wal.Segment.{read_segment_header, Header, valid, invalid}
use leser.Wal.Disk.{read_file}
use leser.Wal.Log.{Log, SegMeta, end}

pub data ReadError : Type 0 where
  no_record corrupt : ReadError
  not_on_disk : ℕ → ReadError
  reopen_failed : ℕ → ReadError

pub data Read {ℓ} (A : Type ℓ) : Type ℓ where
  ok : A → Read A
  err : ReadError → Read A

infixl 5 ◌>>=◌
abbrev pub ◌>>=◌ {ℓ κ} : {A : Type ℓ} {B : Type κ} → Read A → (A → Read B) → Read B
ok a >>= f = f a
err e >>= f = err e

-- The open segment file: its base, and the offset and the position of the record that is next.
pub record Cursor : Type 0 where
  pub base : ℕ
  pub offset : ℕ
  pub byte_pos : ℕ

pub record Reader : Type 0 where
  pub pos : ℕ
  pub committed : ℕ
  pub cursor : Option Cursor

unfoldable pub latest_offset : Log → ℕ
latest_offset l = l.next

unfoldable pub oldest_offset : Log → ℕ
oldest_offset l = elim l.segs [ [] ↦ 0 | s ∷ _ ↦ s.base ]

-- The segments are searched for the first that ends above the offset.
unfoldable pub segment_in : List SegMeta → ℕ → Option SegMeta
segment_in segs offset =
    elim (get_elem? segs (search (length segs) (elem_test (λ s. ltb offset (end s)) segs))) [
      | none ↦ none
      | some s ↦ if ltb offset s.base then none else some s
    ]

unfoldable pub segment_for : Log → ℕ → Option SegMeta
segment_for l offset = segment_in l.segs offset

-- skipTo: `n` records on.
unfoldable pub skip : ℕ → ℕ → Bytes → Cursor → Read Cursor
skip zero max_record f c = ok c
skip (suc n) max_record f c = elim (scan_record f c.byte_pos (length f) max_record c.offset) [
  | none ↦ err corrupt
  | some (_, next) ↦ skip n max_record f (record c { byte_pos = next; offset = c.offset + 1 })
]

unfoldable pub skip_to : ℕ → ℕ → Bytes → Cursor → Read Cursor
skip_to offset max_record f c = skip (offset - c.offset) max_record f c

-- May the open segment be used: is it the one, and is the target not behind the cursor?
unfoldable pub reusable : ℕ → SegMeta → Option Cursor → Option Cursor
reusable offset seg none = none
reusable offset seg (some c) = if (c.base == seg.base) && leb c.offset offset then some c else none

check_base : SegMeta → Bytes → Header → Read (Bytes × Cursor)
check_base seg f (invalid _) = err (reopen_failed seg.base)
check_base seg f (valid base) =
    if base == seg.base
    then ok (f, record { base = seg.base; offset = seg.base; byte_pos = seg_header_len })
    else err (reopen_failed seg.base)

unfoldable pub open_segment : Log → SegMeta → Read (Bytes × Cursor)
unfolding check_base
open_segment l seg = elim (read_file seg.base l.disk) [
  | none ↦ err (reopen_failed seg.base)
  | some f ↦ check_base seg f (read_segment_header f)
]

-- The bytes of the file that the open handle reads, with its cursor.
unfoldable pub keep_open : Log → Cursor → Read (Bytes × Cursor)
keep_open l c = elim (read_file c.base l.disk) [
  | none ↦ err (reopen_failed c.base)
  | some f ↦ ok (f, c)
]

unfoldable pub start : Log → ℕ → SegMeta → Option Cursor → Read (Bytes × Cursor)
start l offset seg cursor = elim (reusable offset seg cursor) [
  | some c ↦ keep_open l c
  | none ↦ open_segment l seg
]

unfoldable pub position : ℕ → Log → ℕ → Option Cursor → Read (Bytes × Cursor)
position max_record l offset cursor = elim (segment_for l offset) [
  | none ↦ err (not_on_disk offset)
  | some seg ↦ do (f, c) ← start l offset seg cursor; c' ← skip_to offset max_record f c; ok (f, c')
]

-- Next: the record and the reader after it. After an error the reader is left as it was, where the code keeps
-- the cursor that position has moved: the next call's position goes on to the same record from either.
unfoldable pub next : ℕ → Log → Reader → Read (Record × Reader)
unfolding latest_offset
next max_record l r = if leb (latest_offset l) r.pos then err no_record else do
  (f, c) ← position max_record l r.pos r.cursor
  elim (scan_record f c.byte_pos (length f) max_record c.offset) [
    | none ↦ err no_record
    | some (rec, after) ↦ ok (
      rec,
      record r {
        pos = r.pos + 1;
        cursor = some (record c { byte_pos = after; offset = c.offset + 1 });
      },
    )
  ]

unfoldable pub lag : Log → Reader → ℕ
unfolding latest_offset
lag l r = let head = latest_offset l in if leb head r.pos then 0 else head - r.pos
