-- ===== src/Ingest/Tests.antt =====
-- Runs of the dedupe set, of process and of Run in internal/ingest/pipeline.go. The file system is
-- one that writes every file.
use mathlib.Core.List.Permᴰ as PermD
use leser.Prelude.{
  ℕ, ◌≡◌, refl, Bool, true, false, Option, none, some, List, [], ◌∷◌, String, length, arith, All,
}
use leser.Prelude.Bytes.{Bytes, put_le, get_le}
use leser.Eventstore.{Store, Options, append, needs_flush}
use leser.Eventstore.Flush.{
  Partition, Disk, failed, add_to, partitions, write_segment, write_parts, arrive, settle, flush,
}
use leser.Eventstore.Flush.Paged.{writing}
use leser.Ingest.Envelope.{EnvelopeHeader, ItemHeader}
use leser.Ingest.Dedupe
use leser.Ingest.Dedupe.{ProjectKey, new_dedupe, first_seen, see_all}
use leser.Ingest.Pipeline.{
  ExtractedEvent, Pipeline, Attempt, appended, accepted, rec_event_json, record_of, submit,
  store_event, store_events, extract_item, extract_items, events_of, process,
}
use leser.Ingest.Pipeline.Processing.{fresh}
use leser.Ingest.Pipeline.Accounts
use leser.Ingest.Runs.{
  Consumer, CommitWorld, commit, next_record, Turn, pass_turn, done_turn, consume, read_next, turn,
  run,
}
use leser.Ingest.Runs.Growth

abbrev key : String → ProjectKey
key id = record { project = 3; id = id }

program : Unit {0}
unfolding first_seen see_all put_le get_le append needs_flush add_to partitions write_segment
    write_parts arrive settle flush record_of submit store_event store_events extract_item
    extract_items events_of process fresh commit consume read_next turn run
    leser.Prelude.Sorting.sort_by leser.Eventstore.Flush.replace_file
program = tt

again : (first_seen (key "a") (see_all (key "a" ∷ key "b" ∷ key "c" ∷ []) (new_dedupe 2))).0 ≡ false
unfolding program
again = refl

forgotten :
    (first_seen
      (key "a")
      (see_all (key "a" ∷ key "b" ∷ key "c" ∷ key "d" ∷ key "e" ∷ []) (new_dedupe 2))).0
    ≡ true
unfolding program
forgotten = refl

first_seen-again_example :
    (first_seen
      (key "a")
      (see_all (key "b" ∷ key "c" ∷ []) (first_seen (key "a") (new_dedupe 2)).1)).0
    ≡ false
unfolding program
first_seen-again_example =
    Dedupe.first_seen-again (key "a") (key "b" ∷ key "c" ∷ []) (new_dedupe 2) refl (omega arith)

-- A body is the level of its event, and the id "a".
abbrev extract : Bytes → Option ExtractedEvent
extract [] = none
extract (b ∷ bs) = some (record {
  event_id = "a";
  timestamp = b;
  level = "error";
  fingerprint = "f";
  basis = "";
  release = "";
  environment = "";
  user_id = "";
  message = "";
})

abbrev decode_header : Bytes → Option EnvelopeHeader
decode_header line = none

abbrev decode_item : Bytes → Option ItemHeader
decode_item line = none

abbrev pipeline : Pipeline
pipeline = record {
  opts = record { max_lag = 10; commit_every = 2 };
  lim = record { max_envelope_bytes = 0; max_items = 0; max_item_bytes = 0 };
  received = 0;
  stored = 0;
  drops = record {
    malformed_count = 0;
    duplicate_count = 0;
    overloaded_count = 0;
    too_large_count = 0;
    auth_count = 0;
  };
  dedupe = new_dedupe 2;
  consumer_lag = 0;
  store = record {
    opts = record {
      flush_rows = 2;
      max_buffer_rows = 4;
      flush_age = 10;
      query_limit_default = 100;
    };
    buf = [];
    buf_since = 0;
    segs = [];
    known = [];
    flush_count = 0;
  };
  hits = [];
}

abbrev attempt : Attempt
attempt = record { now = 7; disk = writing; visit = λ parts. parts; done = true }

abbrev attempts : List Attempt
attempts = attempt ∷ []

abbrev payload : Bytes
payload = record_of rec_event_json 3 (b'x' ∷ [])

abbrev after : Pipeline
after = (process extract decode_header decode_item length attempts payload pipeline).1

submitted : (submit (λ kind rec. appended) rec_event_json 3 (b'x' ∷ []) pipeline).0 ≡ accepted
unfolding program
submitted = refl

second_dropped :
    (process extract decode_header decode_item length attempts payload
      after).1.drops.duplicate_count
    ≡ 1
unfolding program
second_dropped = refl

abbrev world : CommitWorld
world = record { disk = writing; visit = λ parts. parts; offset_written = true }

abbrev consumer : Consumer
consumer = record { pipe = after; pos = 5; committed = 4; uncommitted = 1 }

abbrev pass : Turn
pass = pass_turn (record {
  now = 8;
  tick = some world;
  next = next_record payload;
  lag = 0;
  attempts = attempts;
  batch = world;
})

abbrev turns : List Turn
turns = pass ∷ pass ∷ done_turn world ∷ []

one_segment : length (commit world consumer).1.pipe.store.segs ≡ 1
unfolding program
one_segment = refl

positions : (run extract decode_header decode_item length turns consumer).committed ≡ 7
unfolding program
positions = refl

all_held : (commit world consumer).0 ≡ true
unfolding program
all_held = refl
