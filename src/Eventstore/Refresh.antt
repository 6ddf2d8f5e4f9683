-- ===== src/Eventstore/Refresh.antt =====
-- Open, loadSegments, Refresh and readSegmentMeta of internal/eventstore/store.go, on what
-- filepath.WalkDir finds: the Parquet files below the directories of a project and an hour, each with its
-- footer, in the order of the walk. Numbers in a footer have no sign.
use leser.Prelude.{
  ℕ, suc, ◌+◌, ◌-◌, ◌*◌, Bool, true, false, not, ◌&&◌, Option, none, some, List, [], ◌∷◌, ◌++◌, map,
  any, leb, if◌then◌else◌,
}
use leser.Prelude.Bytes.{Bytes, bytes_eq}
use leser.Prelude.Sorting.{sort_by}
use leser.Prelude.Texts.{itoa}
use leser.Eventstore.{Event, RowGroup, SegPath, SegMeta, Store, Options}
use leser.Eventstore.Flush.{same_path, seg_le}
pub mod Footers
pub mod Rounds
mod Tests

-- The metadata of a footer, by its keys
pub record Footer : Type 0 where
  pub leser_schema_version : Option Bytes
  pub leser_min_ts : Option Bytes
  pub leser_max_ts : Option Bytes
  pub num_rows : ℕ
  pub row_groups : List RowGroup

-- A file that does not open has no footer.
pub record Found : Type 0 where
  pub path : SegPath
  pub footer : Option Footer

abbrev pub schema_version : Bytes
schema_version = b'1' ∷ []

-- strconv.ParseInt, after the digits that gave `n`
unfoldable pub parse_from : ℕ → Bytes → Option ℕ
parse_from n [] = some n
parse_from n (b ∷ bs) =
    let rest = parse_from (n * 10 + (b - b'0')) bs in
    if leb b'0' b && leb b b'9' then rest else none

unfoldable pub parse_int : Bytes → Option ℕ
parse_int [] = none
parse_int (b ∷ bs) = parse_from 0 (b ∷ bs)

-- pf.Lookup and strconv.ParseInt
abbrev pub stamp : Option Bytes → Option ℕ
stamp none = none
stamp (some s) = parse_int s

-- readSegmentMeta; `none` is an error.
unfoldable pub read_segment_meta : Found → Option SegMeta
read_segment_meta file = elim file.footer [
  | none ↦ none
  | some pf ↦ elim pf.leser_schema_version [
    | none ↦ none
    | some v ↦ if not (bytes_eq v schema_version) then none else elim (stamp pf.leser_min_ts) [
      | none ↦ none
      | some low ↦ elim (stamp pf.leser_max_ts) [
        | none ↦ none
        | some high ↦ some (record {
          path = file.path;
          project_id = file.path.project_dir;
          hour = file.path.hour_dir;
          min_ts = low;
          max_ts = high;
          rows = pf.num_rows;
          groups = pf.row_groups;
        })
      ]
    ]
  ]
]

-- s.known[path]
abbrev pub is_known : List SegPath → SegPath → Bool
is_known known path = any (same_path path) known

-- The walk of Refresh: the segments that are not known, or the first error.
unfoldable pub new_segments : List SegPath → List Found → Option (List SegMeta)
new_segments known [] = some []
new_segments known (file ∷ walk) =
    let rest = new_segments known walk in
    let read : Option (List SegMeta) = elim (read_segment_meta file) [
      | none ↦ none
      | some m ↦ elim rest [ none ↦ none | some new ↦ some (m ∷ new) ]
    ] in
    if is_known known file.path then rest else read

abbrev pub path_of : SegMeta → SegPath
path_of m = m.path

unfoldable pub refresh : List Found → Store → Option Store
refresh walk s = elim (new_segments s.known walk) [
  | none ↦ none
  | some [] ↦ some s
  | some (m ∷ new) ↦ some (record s {
    known = map path_of (m ∷ new) ++ s.known;
    segs = sort_by seg_le (s.segs ++ m ∷ new);
  })
]

-- loadSegments takes every file of the walk, and does not sort.
unfoldable pub open_store : Options → List Found → Option Store
open_store opts walk = elim (new_segments [] walk) [
  | none ↦ none
  | some segs ↦ some (record {
    opts = opts;
    buf = [];
    buf_since = 0;
    segs = segs;
    known = map path_of segs;
    flush_count = 0;
  })
]
