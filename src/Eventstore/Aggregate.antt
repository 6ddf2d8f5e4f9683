-- ===== src/Eventstore/Aggregate.antt =====
-- Aggregate and aggregateSegment of internal/eventstore/aggregate.go. The footer's sketch of users, as
-- UnmarshalHLL reads it, and the bytes of a text are parameters; the answer has the registers of the sketch in
-- place of its estimate, which is in floating point. The maps are lists, and sorted as the code does.
use Prim.Native.Nat.{Ordering}
use Prim.Native.String.{compare}
use leser.Prelude.{
  ℕ, suc, ◌+◌, ◌-◌, ◌%◌, Bool, true, false, not, ◌&&◌, ◌||◌, Option, none, some, List, [], ◌∷◌,
  ◌++◌, String, str_eq, take, ltb, leb, ◌==◌, if◌then◌else◌,
}
use leser.Prelude.Bytes.{Bytes}
use leser.Prelude.Sorting.{sort_by, keep}
use leser.Sketch.{Registers, new_hll, add, merge}
use leser.Eventstore.{
  Event, Query, RowGroup, SegMeta, Store, matches, segment_may_match, group_rows,
}
use leser.Eventstore.Flush.{hour_nanos}
pub mod Counts
pub mod Tallies
mod Tests

pub record Bucket : Type 0 where
  pub start : ℕ
  pub count : ℕ

pub record Kv : Type 0 where
  pub key : String
  pub count : ℕ

-- The variables of Aggregate that `add` updates
pub record Tally : Type 0 where
  pub total : ℕ
  pub buckets : List Bucket
  pub levels : List Kv
  pub releases : List Kv
  pub environments : List Kv
  pub fingerprints : List Kv
  pub users : Registers

abbrev pub no_tally : Tally
no_tally = record {
  total = 0;
  buckets = [];
  levels = [];
  releases = [];
  environments = [];
  fingerprints = [];
  users = new_hll;
}

pub record Stats : Type 0 where
  pub total : ℕ
  pub buckets : List Bucket
  pub top_levels : List Kv
  pub top_releases : List Kv
  pub top_environments : List Kv
  pub top_fingerprints : List Kv
  pub unique_users : Registers

-- m[k]++
unfoldable pub bump : String → List Kv → List Kv
bump k [] = record { key = k; count = 1 } ∷ []
bump k (kv ∷ kvs) =
    let rest = bump k kvs in
    if str_eq kv.key k then record kv { count = kv.count + 1 } ∷ kvs else kv ∷ rest

unfoldable pub bump_bucket : ℕ → List Bucket → List Bucket
bump_bucket b [] = record { start = b; count = 1 } ∷ []
bump_bucket b (c ∷ buckets) =
    let rest = bump_bucket b buckets in
    if c.start == b then record c { count = c.count + 1 } ∷ buckets else c ∷ rest

-- Whole segments within the window, of a query without other constraints
unfoldable pub whole_segment : Query → SegMeta → Bool
whole_segment q m =
    (q.time_min == 0 || leb q.time_min m.min_ts)
    && (q.time_max == 0 || leb m.max_ts q.time_max)
    && str_eq q.level ""
    && str_eq q.fingerprint ""
    && str_eq q.release ""
    && str_eq q.environment ""
    && str_eq q.user_id ""

abbrev pub text_leb : String → String → Bool
text_leb a b = elim (compare a b) [ Ordering.gt ↦ false | _ ↦ true ]

abbrev pub kv_le : Kv → Kv → Bool
kv_le a b = if not (a.count == b.count) then ltb b.count a.count else text_leb a.key b.key

abbrev pub bucket_le : Bucket → Bucket → Bool
bucket_le a b = leb a.start b.start

unfoldable pub top : ℕ → List Kv → List Kv
top n kvs = take n (sort_by kv_le (keep (λ kv. not (str_eq kv.key "")) kvs))

unfoldable pub materialize : ℕ → Tally → Stats
unfolding top
materialize top_n t = record {
  total = t.total;
  buckets = sort_by bucket_le t.buckets;
  top_levels = top top_n t.levels;
  top_releases = top top_n t.releases;
  top_environments = top top_n t.environments;
  top_fingerprints = top top_n t.fingerprints;
  unique_users = t.users;
}

module _ (utf8 : String → Bytes) (footer_sketch : SegMeta → Option Registers)
    (bucket_nanos : ℕ) where
  -- The closure `add`
  unfoldable pub add_event : Event → Tally → Tally
  unfolding bump bump_bucket
  add_event e t = record {
    total = t.total + 1;
    buckets = bump_bucket (e.timestamp - e.timestamp % bucket_nanos) t.buckets;
    levels = bump e.level t.levels;
    releases = bump e.release t.releases;
    environments = bump e.environment t.environments;
    fingerprints = bump e.fingerprint t.fingerprints;
    users = if str_eq e.user_id "" then t.users else add (utf8 e.user_id) t.users;
  }

  -- The loops over rows
  unfoldable pub tally_rows : Query → List Event → Tally → Tally
  unfolding add_event
  tally_rows q [] t = t
  tally_rows q (e ∷ rows) t =
      let with_e = tally_rows q rows (add_event e t) in
      let rest = tally_rows q rows t in if matches q e then with_e else rest

  unfoldable pub tally_groups : Query → List RowGroup → Tally → Tally
  unfolding tally_rows
  tally_groups q [] t = t
  tally_groups q (g ∷ groups) t = tally_groups q groups (tally_rows q (group_rows g.pages) t)

  abbrev pub merge_footer : Query → SegMeta → Tally → Tally
  merge_footer q m t =
      if whole_segment q m
      then elim (footer_sketch m) [ none ↦ t | some h ↦ record t { users = merge t.users h } ]
      else t

  unfoldable pub aggregate_segment : Query → SegMeta → Tally → Tally
  unfolding tally_groups whole_segment
  aggregate_segment q m t = tally_groups q m.groups (merge_footer q m t)

  unfoldable pub aggregate_segments : Query → List SegMeta → Tally → Tally
  unfolding aggregate_segment
  aggregate_segments q [] t = t
  aggregate_segments q (m ∷ segs) t =
      let opened = aggregate_segments q segs (aggregate_segment q m t) in
      let skipped = aggregate_segments q segs t in
      if not (segment_may_match q m) then skipped else opened

abbrev pub top_limit : ℕ → ℕ
top_limit n = if n == 0 || ltb 50 n then 10 else n

abbrev pub bucket_size : ℕ → ℕ
bucket_size n = if n == 0 then hour_nanos else n

unfoldable pub aggregate :
    (String → Bytes) → (SegMeta → Option Registers) → Query → ℕ → ℕ → Store → Stats
unfolding materialize tally_rows aggregate_segments
aggregate utf8 footer_sketch q bucket_nanos top_n s =
    let size = bucket_size bucket_nanos in
    materialize (top_limit top_n) (
      aggregate_segments utf8 footer_sketch size q s.segs
        (tally_rows utf8 footer_sketch size q s.buf no_tally))
