-- ===== src/Eventstore.antt =====
-- internal/eventstore: the store's buffer and segments (store.go), and the scan of a query (query.go).
-- The child modules follow what store.go does with files.
-- A Parquet file is its row groups as the reader of github.com/parquet-go presents them: pages with the
-- least and greatest timestamp that the column index gives for each, and Bloom filters. Timestamps are
-- nanoseconds since the epoch, and not before it.
use leser.Prelude.{
  ℕ, suc, ◌+◌, ◌-◌, Bool, true, false, not, ◌&&◌, ◌||◌, Option, none, some, List, [], ◌∷◌, ◌++◌,
  String, str_eq, length, take, last?, ltb, leb, ◌==◌, if◌then◌else◌,
}
use leser.Prelude.Bytes.{Bytes}
pub mod Groups
pub mod Scans
pub mod Flush
pub mod Refresh
pub mod Aggregate
mod Tests

pub record Event : Type 0 where
  pub event_id : String
  pub project_id : ℕ
  pub timestamp : ℕ
  pub level : String
  pub fingerprint : String
  pub release : String
  pub environment : String
  pub user_id : String
  pub message : String
  pub payload : List ℕ

-- An empty text and a zero are no constraint.
pub record Query : Type 0 where
  pub project_id : ℕ
  pub time_min : ℕ
  pub time_max : ℕ
  pub level : String
  pub fingerprint : String
  pub release : String
  pub environment : String
  pub user_id : String
  pub limit : ℕ

pub record Page : Type 0 where
  pub min : ℕ
  pub max : ℕ
  pub rows : List Event

-- A filter that is absent, or fails, is `none`.
pub record RowGroup : Type 0 where
  pub pages : List Page
  pub indexed : Bool
  pub fingerprints : Option (String → Bool)
  pub releases : Option (String → Bool)
  pub user_ids : Option (String → Bool)

-- The path of a segment: the directories of its project and its hour, and the file's name
pub record SegPath : Type 0 where
  pub project_dir : ℕ
  pub hour_dir : ℕ
  pub name : Bytes

-- segMeta, with the row groups of the file at its path
pub record SegMeta : Type 0 where
  pub path : SegPath
  pub project_id : ℕ
  pub hour : ℕ
  pub min_ts : ℕ
  pub max_ts : ℕ
  pub rows : ℕ
  pub groups : List RowGroup

pub record Options : Type 0 where
  pub flush_rows : ℕ
  pub max_buffer_rows : ℕ
  pub flush_age : ℕ
  pub query_limit_default : ℕ

pub record Store : Type 0 where
  pub opts : Options
  pub buf : List Event
  pub buf_since : ℕ
  pub segs : List SegMeta
  pub known : List SegPath
  pub flush_count : ℕ

-- Append; `none` is ErrBufferFull.
unfoldable pub append : ℕ → List Event → Store → Option Store
append now events s =
    if ltb s.opts.max_buffer_rows (length s.buf + length events)
    then none
    else some (record s {
      buf_since = if length s.buf == 0 then now else s.buf_since;
      buf = s.buf ++ events;
    })

unfoldable pub needs_flush : ℕ → Store → Bool
needs_flush now s =
    leb s.opts.flush_rows (length s.buf)
    || (ltb 0 (length s.buf) && leb s.opts.flush_age (now - s.buf_since))

-- A constraint of match on a text
abbrev pub wants : String → String → Bool
wants want have = str_eq want "" || str_eq have want

unfoldable pub matches : Query → Event → Bool
matches q e =
    if not (e.project_id == q.project_id)
    then false
    else if not (q.time_min == 0) && ltb e.timestamp q.time_min
    then false
    else if not (q.time_max == 0) && ltb q.time_max e.timestamp
    then false
    else wants q.level e.level
      && wants q.fingerprint e.fingerprint
      && wants q.release e.release
      && wants q.environment e.environment
      && wants q.user_id e.user_id

unfoldable pub segment_may_match : Query → SegMeta → Bool
segment_may_match q m =
    if not (m.project_id == q.project_id)
    then false
    else if not (q.time_min == 0) && ltb m.max_ts q.time_min
    then false
    else if not (q.time_max == 0) && ltb q.time_max m.min_ts
    then false
    else true

-- The pruning of a row group by the timestamps of its first and last page
unfoldable pub out_of_time : Query → Page → Page → Bool
out_of_time q first last =
    (not (q.time_max == 0) && ltb q.time_max first.min)
    || (not (q.time_min == 0) && ltb last.max q.time_min)

unfoldable pub pruned_by_time : Query → RowGroup → Bool
unfolding out_of_time
pruned_by_time q g =
    if (q.time_min == 0) && (q.time_max == 0) || not g.indexed then false else elim g.pages [
      | [] ↦ false
      | first ∷ pages ↦ elim (last? (first ∷ pages)) [
        | none ↦ false
        | some last ↦ out_of_time q first last
      ]
    ]

abbrev pub absent : String → Option (String → Bool) → Bool
absent want none = false
absent want (some filter) = not (str_eq want "") && not (filter want)

unfoldable pub pruned_by_bloom : Query → RowGroup → Bool
pruned_by_bloom q g =
    absent q.fingerprint g.fingerprints
    || absent q.release g.releases
    || absent q.user_id g.user_ids

unfoldable pub group_rows : List Page → List Event
group_rows [] = []
group_rows (p ∷ pages) = p.rows ++ group_rows pages

-- The loop that reads a row group: the events that are given to fn.
unfoldable pub read_rows : Query → ℕ → ℕ → List Event → List Event
read_rows q limit emitted [] = []
read_rows q limit emitted (e ∷ rows) =
    let found = read_rows q limit (emitted + 1) rows in
    let rest = read_rows q limit emitted rows in
    if leb limit emitted then [] else if matches q e then e ∷ found else rest

unfoldable pub scan_groups : Query → ℕ → ℕ → List RowGroup → List Event
unfolding group_rows
scan_groups q limit emitted [] = []
scan_groups q limit emitted (g ∷ groups) =
    let found = read_rows q limit emitted (group_rows g.pages) in
    let read = found ++ scan_groups q limit (emitted + length found) groups in
    let skipped = scan_groups q limit emitted groups in
    if leb limit emitted
    then []
    else if pruned_by_time q g || pruned_by_bloom q g
    then skipped
    else read

unfoldable pub scan_segment : Query → ℕ → SegMeta → List Event
scan_segment q limit m = scan_groups q limit 0 m.groups

-- The warm tier of Scan
unfoldable pub scan_segments : Query → ℕ → ℕ → List SegMeta → List Event
scan_segments q limit emitted [] = []
scan_segments q limit emitted (m ∷ segs) =
    let found = scan_segment q (limit - emitted) m in
    let opened = found ++ scan_segments q limit (emitted + length found) segs in
    let skipped = scan_segments q limit emitted segs in
    if not (segment_may_match q m) then skipped else if leb limit emitted then [] else opened

-- The matching rows of the buffer, as long as fewer than `limit` are found
unfoldable pub hot_rows : Query → ℕ → ℕ → List Event → List Event
hot_rows q limit found [] = []
hot_rows q limit found (e ∷ buf) =
    let more = hot_rows q limit (found + 1) buf in
    let rest = hot_rows q limit found buf in
    if matches q e then (if leb limit (found + 1) then e ∷ [] else e ∷ more) else rest

abbrev pub limit_of : Store → Query → ℕ
limit_of s q = if q.limit == 0 then s.opts.query_limit_default else q.limit

-- Scan: the events that are given to a fn that does not fail; `none` is the error of a query without a
-- project.
unfoldable pub scan : Query → Store → Option (List Event)
scan q s =
    if q.project_id == 0
    then none
    else (let limit = limit_of s q in
        let hot = take limit (hot_rows q limit 0 s.buf) in
        some (hot ++ scan_segments q limit (length hot) s.segs))
