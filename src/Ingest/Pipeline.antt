-- ===== src/Ingest/Pipeline.antt =====
-- internal/ingest/pipeline.go: Submit, the handling of a record by process, and the loop of Run. Events are as
-- ExtractEvent gives them, which is an argument, as is what encoding/json and bufio do in Parse. The clock, the
-- file system, the write-ahead log and the context come in as what they do at each call. Counters do not wrap.
use leser.Prelude.{
  ℕ, zero, suc, ◌+◌, ◌-◌, Bool, true, false, not, ◌&&◌, ◌||◌, Option, none, some, List, [], ◌∷◌,
  ◌++◌, String, str_eq, length, take, drop, ltb, leb, ◌==◌, if◌then◌else◌,
}
use leser.Prelude.Bytes.{Bytes, put_le, get_le}
use leser.Eventstore.{Event, Store, append, needs_flush}
use leser.Eventstore.Flush.{Partition, Disk, flush}
use leser.Ingest.Envelope.{
  Limits, EnvelopeHeader, ItemHeader, Item, Envelope, item_event, item_transaction, Parsed, parsed,
  malformed, out_of_fuel, parse,
}
use leser.Ingest.Dedupe.{Dedupe, first_seen}
pub mod Processing
pub mod Accounts

pub record ExtractedEvent : Type 0 where
  pub event_id : String
  pub timestamp : ℕ
  pub level : String
  pub fingerprint : String
  pub basis : String
  pub release : String
  pub environment : String
  pub user_id : String
  pub message : String

pub record PipelineOptions : Type 0 where
  pub max_lag : ℕ
  pub commit_every : ℕ

-- A call of the issue sink, with the event of which UpsertIssue takes the fields
pub record SinkCall : Type 0 where
  pub project_id : ℕ
  pub event : ExtractedEvent

-- The counters of drops, by their reasons
pub record Drops : Type 0 where
  pub malformed_count : ℕ
  pub duplicate_count : ℕ
  pub overloaded_count : ℕ
  pub too_large_count : ℕ
  pub auth_count : ℕ

-- There is an issue sink, whose calls are kept in order.
pub record Pipeline : Type 0 where
  pub opts : PipelineOptions
  pub lim : Limits
  pub received : ℕ
  pub stored : ℕ
  pub drops : Drops
  pub dedupe : Dedupe
  pub consumer_lag : ℕ
  pub store : Store
  pub hits : List SinkCall

abbrev pub drop_malformed : Pipeline → Pipeline
drop_malformed p = record p {
  drops = record p.drops { malformed_count = p.drops.malformed_count + 1 };
}

abbrev pub drop_duplicate : Pipeline → Pipeline
drop_duplicate p = record p {
  drops = record p.drops { duplicate_count = p.drops.duplicate_count + 1 };
}

abbrev pub drop_overloaded : Pipeline → Pipeline
drop_overloaded p = record p {
  drops = record p.drops { overloaded_count = p.drops.overloaded_count + 1 };
}

abbrev pub drop_too_large : Pipeline → Pipeline
drop_too_large p = record p {
  drops = record p.drops { too_large_count = p.drops.too_large_count + 1 };
}

abbrev pub drop_auth : Pipeline → Pipeline
drop_auth p = record p { drops = record p.drops { auth_count = p.drops.auth_count + 1 } }

abbrev pub drop_all : ℕ → Pipeline → Pipeline
drop_all n p = record p { drops = record p.drops { malformed_count = p.drops.malformed_count + n } }

abbrev pub rec_envelope : ℕ
rec_envelope = 1

abbrev pub rec_event_json : ℕ
rec_event_json = 2

-- The record that Submit appends
unfoldable pub record_of : ℕ → ℕ → Bytes → Bytes
record_of kind project_id body = kind ∷ put_le 8 project_id ++ body

-- What wal.Append comes to
pub data Appended : Type 0 where
  appended : Appended
  deadline_exceeded : Appended
  append_failed : Appended

pub data Submitted : Type 0 where
  accepted : Submitted
  overloaded : Submitted
  failed : Submitted

unfoldable pub submit : (ℕ → Bytes → Appended) → ℕ → ℕ → Bytes → Pipeline → Submitted × Pipeline
submit wal_append kind project_id body pipeline =
    let p = record pipeline { received = pipeline.received + 1 } in
    if ltb p.opts.max_lag p.consumer_lag
    then (overloaded, drop_overloaded p)
    else elim (wal_append kind (record_of kind project_id body)) [
      | appended ↦ (accepted, p)
      | deadline_exceeded ↦ (overloaded, drop_overloaded p)
      | append_failed ↦ (failed, p)
    ]

abbrev pub to_store_event : ℕ → ExtractedEvent → Bytes → Event
to_store_event project_id ev bytes = record {
  event_id = ev.event_id;
  project_id = project_id;
  timestamp = ev.timestamp;
  level = ev.level;
  fingerprint = ev.fingerprint;
  release = ev.release;
  environment = ev.environment;
  user_id = ev.user_id;
  message = ev.message;
  payload = bytes;
}

pub record Pending : Type 0 where
  pub ex : ExtractedEvent
  pub payload : Bytes

-- The event of an item: none, or one that is not valid, or one
pub data Extracted : Type 0 where
  other_item : Extracted
  bad_event : Extracted
  good_event : Pending → Extracted

-- One pass of the loop that stores an event: the time, the flush when the buffer is full, and whether the
-- context is done after that
pub record Attempt : Type 0 where
  pub now : ℕ
  pub disk : Disk
  pub visit : List Partition → List Partition
  pub done : Bool

-- How the loop ends: a run may also still be in it when no attempts are left.
pub data Ending : Type 0 where
  stored_it : Ending
  gave_up : Ending
  blocked : Ending

pub record Looped : Type 0 where
  pub ending : Ending
  pub left : List Attempt
  pub store : Store

unfoldable pub store_event : List Attempt → Event → Store → Looped
store_event [] e s = record { ending = blocked; left = []; store = s }
store_event (a ∷ attempts) e s = elim (append a.now (e ∷ []) s) [
  | some s' ↦ record { ending = stored_it; left = attempts; store = s' }
  | none ↦
      let s1 = (flush a.disk a.visit [] s).1 in
      let again = store_event attempts e s1 in
      if a.done then record { ending = gave_up; left = attempts; store = s1 } else again
]

abbrev pub hit : ℕ → Pending → Pipeline → Pipeline
hit project_id pe p = record p {
  stored = p.stored + 1;
  hits = p.hits ++ record { project_id = project_id; event = pe.ex } ∷ [];
}

-- The loop of process over the events of a record
unfoldable pub store_events : ℕ → List Attempt → List Pending → Pipeline → Ending × Pipeline
unfolding store_event
store_events project_id attempts [] p = (stored_it, p)
store_events project_id attempts (pe ∷ events) p =
    let seen = first_seen (record { project = project_id; id = pe.ex.event_id }) p.dedupe in
    let named = not (str_eq pe.ex.event_id "") in
    let p1 = record p { dedupe = if named then seen.1 else p.dedupe } in
    let skipped = store_events project_id attempts events (drop_duplicate p1) in
    let looped = store_event attempts (to_store_event project_id pe.ex pe.payload) p.store in
    let p2 = record p1 { store = looped.store } in
    let more = store_events project_id looped.left events (hit project_id pe p2) in
    if named && not seen.0
    then skipped
    else elim looped.ending [ stored_it ↦ more | gave_up ↦ (gave_up, p2) | blocked ↦ (blocked, p2) ]

module _ (extract : Bytes → Option ExtractedEvent) (decode_header : Bytes → Option EnvelopeHeader)
    (decode_item : Bytes → Option ItemHeader) (ahead : Bytes → ℕ) where
  unfoldable pub extract_item : EnvelopeHeader → Item → Extracted
  extract_item header item =
      if not (str_eq item.header.type_name item_event)
        && not (str_eq item.header.type_name item_transaction)
      then other_item
      else elim (extract item.payload) [
        | none ↦ bad_event
        | some ev ↦ good_event (record {
          ex =
              if str_eq ev.event_id "" && not (str_eq header.event_id "")
              then record ev { event_id = header.event_id }
              else ev;
          payload = item.payload;
        })
      ]

  -- The events of an envelope, and the number of those that are malformed
  unfoldable pub extract_items : EnvelopeHeader → List Item → List Pending × ℕ
  unfolding extract_item
  extract_items header [] = ([], 0)
  extract_items header (item ∷ items) =
      let rest = extract_items header items in
      elim (extract_item header item) [
        | other_item ↦ rest
        | bad_event ↦ (rest.0, rest.1 + 1)
        | good_event pe ↦ (pe ∷ rest.0, rest.1)
      ]

  -- The events of a record, and the drops as malformed
  unfoldable pub events_of : Limits → ℕ → Bytes → List Pending × ℕ
  unfolding extract_items
  events_of lim kind body =
      if kind == rec_envelope
      then elim (parse decode_header decode_item ahead lim body) [
        | parsed env ↦ extract_items env.header env.items
        | malformed ↦ ([], 1)
        | out_of_fuel ↦ ([], 1)
      ]
      else if kind == rec_event_json
      then elim (extract body) [
        | none ↦ ([], 1)
        | some ev ↦ (record { ex = ev; payload = body } ∷ [], 0)
      ]
      else ([], 1)

  -- rec.Payload[0], rec.Payload[1:9] and rec.Payload[9:]
  unfoldable pub process : List Attempt → Bytes → Pipeline → Ending × Pipeline
  unfolding store_events events_of
  process attempts [] p = (stored_it, drop_malformed p)
  process attempts (kind ∷ rest) p =
      let found = events_of p.lim kind (drop 8 rest) in
      let run = store_events (get_le (take 8 rest)) attempts found.0 (drop_all found.1 p) in
      if ltb (length rest) 8 then (stored_it, drop_malformed p) else run
