-- ===== src/Ingest/Http/Tests.antt =====
-- Requests to the ingest endpoints of internal/ingest/http.go.
use leser.Prelude.{ℕ, ◌+◌, ◌≡◌, refl, true, Option, none, some, [], ◌∷◌, String}
use leser.Prelude.Bytes.{Bytes, bytes_eq, put_le}
use leser.Prelude.Texts.{codes, has_prefix, split_at}
use leser.Cache
use leser.Ingest.Dedupe.{new_dedupe}
use leser.Ingest.Pipeline.{Pipeline, Appended, appended, rec_event_json, record_of, submit}
use leser.Ingest.Http.{
  DsnKey, Handler, Inflated, inflated, read_body, Request, key_value, auth_part, sentry_auth_key,
  lookup_key, accept_body, handle,
}
use leser.Ingest.Http.Answers
use leser.Ingest.Http.Answers.{total_drops, drops_for}

abbrev same : Bytes → Bytes
same s = s

abbrev text : Bytes → String
text s = "k"

abbrev inflate : String → Bytes → Inflated
inflate encoding raw = inflated raw

abbrev keys : String → Option DsnKey
keys key = some (record { project_id = 3; public_key = "k" })

abbrev wal_append : ℕ → Bytes → Appended
wal_append kind rec = appended

abbrev pipeline : Pipeline
pipeline = record {
  opts = record { max_lag = 10; commit_every = 2 };
  lim = record { max_envelope_bytes = 0; max_items = 0; max_item_bytes = 0 };
  received = 0;
  stored = 0;
  drops = record {
    malformed_count = 0;
    duplicate_count = 0;
    overloaded_count = 0;
    too_large_count = 0;
    auth_count = 0;
  };
  dedupe = new_dedupe 2;
  consumer_lag = 0;
  store = record {
    opts = record {
      flush_rows = 2;
      max_buffer_rows = 4;
      flush_age = 10;
      query_limit_default = 100;
    };
    buf = [];
    buf_since = 0;
    segs = [];
    known = [];
    flush_count = 0;
  };
  hits = [];
}

abbrev handler : Handler
handler = record {
  pipe = pipeline;
  key_lru = record { max_bytes = 100; cur_bytes = 0; ttl = 60; items = []; hits = 0; misses = 0 };
  lim = record { max_envelope_bytes = 10; max_items = 0; max_item_bytes = 0 };
}

abbrev request : ℕ → Request
request project = record {
  project_id = some project;
  auth_header = codes "Sentry sentry_version=7,sentry_key=k";
  query_key = [];
  basic_user = none;
  encoding = "";
  raw = b'x' ∷ [];
}

abbrev answer : ℕ → ℕ × Handler
answer project =
    handle same text inflate 5 keys (λ id. true) wal_append rec_event_json (request project) handler

program : Unit {0}
unfolding bytes_eq put_le has_prefix split_at Cache.find Cache.without Cache.delete Cache.evict
    Cache.push_front Cache.put Cache.set Cache.get record_of submit key_value auth_part
    sentry_auth_key lookup_key accept_body read_body handle
program = tt

key_of_header : sentry_auth_key same text inflate (request 3) ≡ codes "k"
unfolding program
key_of_header = refl

taken : (answer 3).0 ≡ 200
unfolding program
taken = refl

wrong_project : (answer 4).0 ≡ 403
unfolding program
wrong_project = refl

handle-drops_example : total_drops (answer 4).1.pipe ≡ total_drops pipeline + drops_for (answer 4).0
handle-drops_example =
    Answers.handle-drops same text inflate 5 keys (λ id. true) wal_append rec_event_json (request 4)
      handler
