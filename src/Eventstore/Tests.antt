-- ===== src/Eventstore/Tests.antt =====
-- Runs of internal/eventstore on small inputs, and its theorem at a store that meets its hypotheses.
use leser.Prelude.{
  ℕ, ◌≡◌, refl, true, ◌||◌, none, some, [], ◌∷◌, ◌++◌, String, str_eq, arith, take, All,
}
use leser.Eventstore.{
  Event, Query, RowGroup, Store, append, needs_flush, matches, segment_may_match, pruned_by_time,
  pruned_by_bloom, group_rows, read_rows, scan_groups, scan_segment, scan_segments, hot_rows,
  limit_of, scan,
}
use leser.Eventstore.Groups.{matching, Sorted}
use leser.Eventstore.Scans
use leser.Eventstore.Flush.{segment_name}
use leser.Eventstore.Scans.{SegmentOk, all_segments, all_groups}

abbrev event : ℕ → ℕ → String → Event
event project ts release = record {
  event_id = "";
  project_id = project;
  timestamp = ts;
  level = "error";
  fingerprint = "f";
  release = release;
  environment = "";
  user_id = "";
  message = "";
  payload = [];
}

abbrev group : RowGroup
group = record {
  pages =
      record { min = 10; max = 12; rows = event 3 10 "v1" ∷ event 3 12 "v2" ∷ [] }
      ∷ record { min = 15; max = 15; rows = event 3 15 "v1" ∷ [] }
      ∷ [];
  indexed = true;
  fingerprints = none;
  releases = some (λ release. str_eq release "v1" || str_eq release "v2");
  user_ids = none;
}

abbrev store : Store
store = record {
  opts = record { flush_rows = 2; max_buffer_rows = 4; flush_age = 10; query_limit_default = 100 };
  buf = event 3 20 "v1" ∷ event 4 21 "v1" ∷ [];
  buf_since = 20;
  segs =
      record {
        path = record { project_dir = 3; hour_dir = 0; name = segment_name 10 1 };
        project_id = 3;
        hour = 0;
        min_ts = 10;
        max_ts = 15;
        rows = 3;
        groups = group ∷ [];
      }
      ∷ [];
  known = [];
  flush_count = 1;
}

abbrev query : String → ℕ → Query
query release limit = record {
  project_id = 3;
  time_min = 11;
  time_max = 0;
  level = "";
  fingerprint = "";
  release = release;
  environment = "";
  user_id = "";
  limit = limit;
}

program : Unit {0}
unfolding append needs_flush matches segment_may_match pruned_by_time pruned_by_bloom group_rows
    read_rows scan_groups scan_segment scan_segments hot_rows scan matching all_segments
program = tt

both_tiers : scan (query "v1" 0) store ≡ some (event 3 20 "v1" ∷ event 3 15 "v1" ∷ [])
unfolding program
both_tiers = refl

limited : scan (query "" 2) store ≡ some (event 3 20 "v1" ∷ event 3 12 "v2" ∷ [])
unfolding program
limited = refl

bloom : pruned_by_bloom (query "v9" 0) group ≡ true
unfolding program
bloom = refl

buffer_full : append 22 (event 3 22 "" ∷ event 3 23 "" ∷ event 3 24 "" ∷ []) store ≡ none
unfolding program
buffer_full = refl

full : needs_flush 20 store ≡ true
unfolding program
full = refl

segments-Ok : All SegmentOk store.segs
unfolding all_groups group_rows Sorted
segments-Ok = (
  record {
    indexed = (
      record {
        sorted = ((omega arith, (omega arith, tt)), ((omega arith, tt), (tt, tt)));
        bounds = (
          (omega arith, ((omega arith, omega arith), ((omega arith, omega arith), tt))),
          ((omega arith, ((omega arith, omega arith), tt)), tt),
        );
        fingerprints = (refl, (refl, (refl, tt)));
        releases = (refl, (refl, (refl, tt)));
        user_ids = (refl, (refl, (refl, tt)));
      },
      tt,
    );
    rows = (
      (refl, omega arith, omega arith),
      ((refl, omega arith, omega arith), ((refl, omega arith, omega arith), tt)),
    );
  },
  tt,
)

scan_lem_example :
    scan (query "v1" 0) store
    ≡ some (
        take
          (limit_of store (query "v1" 0))
          (matching (query "v1" 0) (store.buf ++ all_segments store.segs)))
scan_lem_example = Scans.scan_lem (query "v1" 0) store segments-Ok (omega arith) (omega arith)
