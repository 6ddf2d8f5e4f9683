-- ===== src/Eventstore/Flush/Tests.antt =====
-- Runs of Flush of internal/eventstore/store.go, and its theorems at a file system that writes and at one that
-- fails.
use mathlib.Core.List.{Perm}
use mathlib.Core.List.Permᴰ as PermD
use leser.Prelude.{ℕ, ◌≡◌, refl, true, false, some, List, [], ◌∷◌, ◌++◌, arith}
use leser.Prelude.Bytes.{bytes_eq}
use leser.Prelude.Sorting.{insert_by, sort_by}
use leser.Prelude.Texts.{itoa, hex, pad, text_le}
use leser.Eventstore.{
  Event, Query, Store, Options, append, matches, segment_may_match, pruned_by_time, pruned_by_bloom,
  group_rows, read_rows, scan_groups, scan_segment, scan_segments, hot_rows, scan,
}
use leser.Eventstore.Groups.{matching}
use leser.Eventstore.Scans.{all_groups, all_segments}
use leser.Eventstore.Flush.{
  Partition, add_to, partitions, segment_name, replace_file, write_segment, write_parts, Arrival,
  arrive, settle, flush,
}
use leser.Eventstore.Flush.Bag.{
  Good, accepted, Call, append_call, flush_call, call, accepted_in, run, accepted_by,
}
use leser.Eventstore.Flush.Views
use leser.Eventstore.Flush.Paged.{paged, writing, broken, writing-Faithful, broken-Faithful}
use leser.Eventstore.Flush.Views.{empty, Writing}

abbrev event : ℕ → ℕ → Event
event project ts = record {
  event_id = "";
  project_id = project;
  timestamp = ts;
  level = "error";
  fingerprint = "f";
  release = "";
  environment = "";
  user_id = "";
  message = "";
  payload = [];
}

abbrev opts : Options
opts = record { flush_rows = 2; max_buffer_rows = 4; flush_age = 10; query_limit_default = 100 }

abbrev query : Query
query = record {
  project_id = 3;
  time_min = 0;
  time_max = 0;
  level = "";
  fingerprint = "";
  release = "";
  environment = "";
  user_id = "";
  limit = 0;
}

abbrev rows : List Event
rows = event 3 20 ∷ event 4 21 ∷ event 3 18 ∷ []

abbrev same : List Partition → List Partition
same parts = parts

abbrev late : Arrival
late = record { now = 23; events = event 3 22 ∷ [] }

abbrev calls : List Call
calls =
    append_call (record { now = 22; events = rows })
    ∷ flush_call broken same (late ∷ [])
    ∷ append_call (record { now = 23; events = rows })
    ∷ flush_call writing same []
    ∷ append_call (record { now = 24; events = event 3 23 ∷ [] })
    ∷ []

program : Unit {0}
unfolding bytes_eq insert_by sort_by itoa hex pad text_le append matches segment_may_match
    pruned_by_time pruned_by_bloom group_rows read_rows scan_groups scan_segment scan_segments
    hot_rows scan matching all_segments all_groups add_to partitions segment_name replace_file
    write_segment write_parts arrive settle flush accepted call accepted_in run accepted_by
program = tt

name : segment_name 4660 7 ≡ pad 16 (b'1' ∷ b'2' ∷ b'3' ∷ b'4' ∷ []) ++ b'-' ∷ pad 6 (b'7' ∷ [])
unfolding program
name = refl

after_calls :
    scan query (run calls (empty opts))
    ≡ some (event 3 23 ∷ event 3 18 ∷ event 3 20 ∷ event 3 22 ∷ [])
unfolding program
after_calls = refl

accepted_calls : accepted_by calls (empty opts) ≡ rows ++ late.events ++ event 3 23 ∷ []
unfolding program
accepted_calls = refl

run-scan_example :
    (found : List Event) × (scan query (run calls (empty opts)) ≡ some found)
    × Perm found (matching query (accepted_by calls (empty opts)))
unfolding program
run-scan_example =
    Views.run-scan opts calls query
      (tt, ((broken-Faithful, PermD.refl), (tt, ((writing-Faithful, PermD.refl), (tt, tt)))))
      (omega arith) (omega arith) (omega arith)

abbrev full : Store
full = record { opts = opts; buf = rows; buf_since = 22; segs = []; known = []; flush_count = 3 }

full-Good : Good full
full-Good = record { ok = tt; old = tt }

flush-Writing_example :
    ((flush writing same (late ∷ []) full).0 ≡ true)
    × ((flush writing same (late ∷ []) full).1.buf
        ≡ accepted (late ∷ []) (record full { buf = [] }))
flush-Writing_example =
    Views.flush-Writing writing same (late ∷ []) full (writing-Faithful, PermD.refl) full-Good
      (λ path evs. (paged evs ∷ [], refl))

error_reported : (flush broken same (late ∷ []) full).0 ≡ false
unfolding program
error_reported = refl

flush-fails_example :
    ((flush broken same (late ∷ []) full).1.buf
      ≡ rows ++ accepted (late ∷ []) (record full { buf = [] }))
    × ((flush broken same (late ∷ []) full).1.segs ≡ [])
flush-fails_example =
    Views.flush-fails broken same (late ∷ []) full (broken-Faithful, PermD.refl) full-Good
      error_reported
