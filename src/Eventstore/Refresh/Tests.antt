-- ===== src/Eventstore/Refresh/Tests.antt =====
-- Runs of Open and Refresh of internal/eventstore/store.go on small directories.
use leser.Prelude.{ℕ, ◌≡◌, refl, none, some, List, [], ◌∷◌, map}
use leser.Prelude.Bytes.{bytes_eq}
use leser.Prelude.Sorting.{insert_by, sort_by}
use leser.Prelude.Texts.{itoa, hex, pad, text_le}
use leser.Eventstore.{SegMeta, Store, Options}
use leser.Eventstore.Flush.{segment_name}
use leser.Eventstore.Refresh.{
  parse_from, parse_int, read_segment_meta, new_segments, path_of, refresh, open_store,
}
use leser.Eventstore.Refresh.Footers.{file_of}
use leser.Eventstore.Refresh.Rounds

abbrev segment : ℕ → ℕ → SegMeta
segment project count = record {
  path = record { project_dir = project; hour_dir = 0; name = segment_name 10 count };
  project_id = project;
  hour = 0;
  min_ts = 10;
  max_ts = 15;
  rows = 0;
  groups = [];
}

abbrev opts : Options
opts = record { flush_rows = 2; max_buffer_rows = 4; flush_age = 10; query_limit_default = 100 }

abbrev opened : List SegMeta → Store
opened segs = record {
  opts = opts;
  buf = [];
  buf_since = 0;
  segs = segs;
  known = map path_of segs;
  flush_count = 0;
}

abbrev two : List SegMeta
two = segment 3 1 ∷ segment 4 2 ∷ []

program : Unit {0}
unfolding bytes_eq insert_by sort_by itoa hex pad text_le segment_name parse_from parse_int
    read_segment_meta new_segments refresh open_store
program = tt

no_footer : open_store opts (record { path = (segment 3 1).path; footer = none } ∷ []) ≡ none
unfolding program
no_footer = refl

open-files_example : open_store opts (map file_of two) ≡ some (opened two)
open-files_example =
    Rounds.open-files opts two
      (record { project = refl; hour = refl }, (record { project = refl; hour = refl }, tt))
