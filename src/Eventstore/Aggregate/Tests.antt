-- ===== src/Eventstore/Aggregate/Tests.antt =====
-- Runs of Aggregate of internal/eventstore/aggregate.go, on a store that has flushed its events and got one more.
use mathlib.Core.List.Permᴰ as PermD
use leser.Prelude.{ℕ, ◌≡◌, refl, Option, none, some, List, [], ◌∷◌, String}
use leser.Prelude.Bytes.{bytes_eq}
use leser.Prelude.Sorting.{insert_by, sort_by, keep}
use leser.Prelude.Texts.{codes, itoa, hex, pad, text_le}
use leser.Sketch.{Registers, new_hll, add_all}
use leser.Eventstore.{Event, Query, SegMeta, Store, append, matches, segment_may_match, group_rows}
use leser.Eventstore.Groups.{matching}
use leser.Eventstore.Scans.{all_groups, all_segments}
use leser.Eventstore.Flush.{
  add_to, partitions, segment_name, replace_file, write_segment, write_parts, arrive, settle, flush,
}
use leser.Eventstore.Flush.Paged.{writing}
use leser.Eventstore.Flush.Bag.{Call, append_call, flush_call, call, run}
use leser.Eventstore.Flush.Views.{empty}
use leser.Eventstore.Aggregate.{
  bump, bump_bucket, whole_segment, top, materialize, add_event, tally_rows, tally_groups,
  aggregate_segment, aggregate_segments, aggregate,
}
use leser.Eventstore.Aggregate.Tallies
use leser.Eventstore.Aggregate.Tallies.{tally, user_ids}

abbrev event : ℕ → String → Event
event ts level = record {
  event_id = "";
  project_id = 3;
  timestamp = ts;
  level = level;
  fingerprint = "f";
  release = "";
  environment = "";
  user_id = "";
  message = "";
  payload = [];
}

abbrev query : Query
query = record {
  project_id = 3;
  time_min = 0;
  time_max = 30;
  level = "";
  fingerprint = "";
  release = "";
  environment = "";
  user_id = "";
  limit = 0;
}

abbrev calls : List Call
calls =
    append_call
      (record { now = 1; events = event 12 "error" ∷ event 25 "info" ∷ event 40 "info" ∷ [] })
    ∷ flush_call writing (λ parts. parts) []
    ∷ append_call (record { now = 2; events = event 11 "error" ∷ [] })
    ∷ []

abbrev store : Store
store = run calls (
    empty
      (record { flush_rows = 2; max_buffer_rows = 4; flush_age = 10; query_limit_default = 100 }))

program : Unit {0}
unfolding bytes_eq insert_by sort_by keep itoa hex pad text_le append matches segment_may_match
    group_rows matching all_segments all_groups add_to partitions segment_name replace_file
    write_segment write_parts arrive settle flush call run bump bump_bucket whole_segment top
    materialize add_event tally_rows tally_groups aggregate_segment aggregate_segments aggregate
    tally user_ids
program = tt

abbrev no_sketch : SegMeta → Option Registers
no_sketch m = none

by_time :
    (aggregate codes no_sketch query 10 0 store).buckets
    ≡ record { start = 10; count = 2 } ∷ record { start = 20; count = 1 } ∷ []
unfolding program
by_time = refl

by_level :
    (aggregate codes no_sketch query 10 1 store).top_levels
    ≡ record { key = "error"; count = 2 } ∷ []
unfolding program
by_level = refl

abbrev honest : SegMeta → Option Registers
honest m = some (add_all (user_ids codes no_sketch 10 (all_groups m.groups)) new_hll)
