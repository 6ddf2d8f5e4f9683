-- ===== src/Eventstore/Flush.antt =====
-- Flush and writeSegment of internal/eventstore/store.go. `Disk` stands for the file system and the Parquet
-- writer: what an attempt to write rows to a path comes to, MkdirAll included, with the row groups that the
-- written file has. The iteration over the map of partitions is an argument, `visit`. Rows of equal time keep
-- an order that sort.Slice does not promise. The clock and the count of flushes do not wrap.
use leser.Prelude.{
  ℕ, suc, ◌+◌, ◌*◌, ◌-◌, ◌%◌, Bool, true, false, not, ◌&&◌, Option, none, some, List, [], ◌∷◌, ◌++◌,
  map, length, ltb, leb, ◌==◌, if◌then◌else◌,
}
use leser.Prelude.Bytes.{Bytes, bytes_eq}
use leser.Prelude.Sorting.{sort_by}
use leser.Prelude.Texts.{itoa, hex, pad, text_le}
use leser.Eventstore.{Event, RowGroup, SegPath, SegMeta, Store, append}
pub mod Partitions
pub mod Writes
pub mod Segments
pub mod Bag
pub mod Views
pub mod Growth
pub mod Paged
mod Tests

-- int64(time.Hour)
abbrev pub hour_nanos : ℕ
hour_nanos = 3600000000000

pub record Partition : Type 0 where
  pub proj : ℕ
  pub hour : ℕ
  pub events : List Event

abbrev pub hour_of : Event → ℕ
hour_of e = e.timestamp - e.timestamp % hour_nanos

-- parts[k] = append(parts[k], e)
unfoldable pub add_to : Event → List Partition → List Partition
add_to e [] = record { proj = e.project_id; hour = hour_of e; events = e ∷ [] } ∷ []
add_to e (p ∷ parts) =
    let rest = add_to e parts in
    if (p.proj == e.project_id) && (p.hour == hour_of e)
    then record p { events = p.events ++ e ∷ [] } ∷ parts
    else p ∷ rest

unfoldable pub partitions : List Partition → List Event → List Partition
partitions parts [] = parts
partitions parts (e ∷ rows) = partitions (add_to e parts) rows

-- The name of a file, "%016x-%06d.parquet" without its suffix
unfoldable pub segment_name : ℕ → ℕ → Bytes
segment_name min_ts count = pad 16 (hex 16 min_ts) ++ b'-' ∷ pad 6 (itoa (suc count) count)

pub data Written : Type 0 where
  no_dir : Written
  failed : Written
  written : List RowGroup → Written

abbrev pub Disk : Type 0
Disk = SegPath → List Event → Written

abbrev pub same_path : SegPath → SegPath → Bool
same_path p r =
    (p.project_dir == r.project_dir) && (p.hour_dir == r.hour_dir) && bytes_eq p.name r.name

-- os.Rename replaces a file of the same path.
unfoldable pub replace_file : SegPath → List RowGroup → List SegMeta → List SegMeta
replace_file path groups segs =
    map (λ m. if same_path m.path path then record m { groups = groups } else m) segs

abbrev pub ts_le : Event → Event → Bool
ts_le e f = leb e.timestamp f.timestamp

-- evs[0].Timestamp and evs[len(evs)-1].Timestamp; no partition is empty.
abbrev pub first_ts : List Event → ℕ
first_ts [] = 0
first_ts (e ∷ evs) = e.timestamp

abbrev pub last_ts : List Event → ℕ
last_ts [] = 0
last_ts (e ∷ []) = e.timestamp
last_ts (e ∷ f ∷ evs) = last_ts (f ∷ evs)

unfoldable pub write_segment : Disk → ℕ → ℕ → List Event → Store → Option SegMeta × Store
write_segment disk proj hour unsorted s =
    let evs = sort_by ts_le unsorted in
    let count = s.flush_count + 1 in
    let path : SegPath = record {
      project_dir = proj;
      hour_dir = hour;
      name = segment_name (first_ts evs) count;
    } in
    elim (disk path evs) [
      | no_dir ↦ (none, s)
      | failed ↦ (none, record s { flush_count = count })
      | written groups ↦ (
        some (record {
          path = path;
          project_id = proj;
          hour = hour;
          min_ts = first_ts evs;
          max_ts = last_ts evs;
          rows = length evs;
          groups = groups;
        }),
        record s { flush_count = count; segs = replace_file path groups s.segs },
      )
    ]

-- The loop over the partitions: the new segments, or the first error.
unfoldable pub write_parts : Disk → List Partition → Store → Option (List SegMeta) × Store
write_parts disk [] s = (some [], s)
write_parts disk (p ∷ parts) s =
    let first = write_segment disk p.proj p.hour p.events s in
    elim first.0 [
      | none ↦ (none, first.1)
      | some m ↦ (
        elim (write_parts disk parts first.1).0 [ none ↦ none | some new ↦ some (m ∷ new) ],
        (write_parts disk parts first.1).1,
      )
    ]

abbrev pub seg_le : SegMeta → SegMeta → Bool
seg_le a b =
    if not (a.project_id == b.project_id)
    then ltb a.project_id b.project_id
    else if not (a.hour == b.hour)
    then ltb a.hour b.hour
    else text_le a.path.name b.path.name

-- The calls of Append that come while the segments are written, which do not look at the buffer
pub record Arrival : Type 0 where
  pub now : ℕ
  pub events : List Event

unfoldable pub arrive : List Arrival → Store → Store
arrive [] s = s
arrive (a ∷ arrivals) s = elim (append a.now a.events s) [
  | none ↦ arrive arrivals s
  | some s' ↦ arrive arrivals s'
]

-- What Flush does under the lock at its end: the rows are put back, or the segments are added.
unfoldable pub settle : List Event → Option (List SegMeta) × Store → Bool × Store
settle rows (none, s) = (false, record s { buf = rows ++ s.buf })
settle rows (some new, s) = (
  true,
  record s { known = map (λ m. m.path) new ++ s.known; segs = sort_by seg_le (s.segs ++ new) },
)

-- Flush; the Boolean says that it gives no error.
unfoldable pub flush :
    Disk → (List Partition → List Partition) → List Arrival → Store → Bool × Store
flush disk visit arrivals s =
    if length s.buf == 0
    then (true, arrive arrivals s)
    else settle s.buf
        (write_parts disk (visit (partitions [] s.buf)) (arrive arrivals (record s { buf = [] })))
