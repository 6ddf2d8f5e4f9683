-- ===== src/Ingest/Pipeline/Accounts.antt =====
-- A record that Submit of internal/ingest/pipeline.go appends, as process takes it.
use mathlib.Core.List.{Perm}
use leser.Prelude.{
  ℕ, ◌+◌, ◌≡◌, Bool, not, ◌&&◌, ◌||◌, Option, none, some, List, [], ◌∷◌, map, str_eq, ◌==◌,
  if◌then◌else◌, ◌++◌, length,
}
use leser.Prelude.Bytes.{Bytes}
use leser.Eventstore.Flush.Bag.{held}
use leser.Prelude.Sorting.{keep}
use leser.Ingest.Envelope.{
  EnvelopeHeader, ItemHeader, Item, Limits, parsed, malformed, out_of_fuel, parse,
}
use leser.Ingest.Pipeline.{ExtractedEvent, Pipeline, Pending, rec_envelope, rec_event_json}
use leser.Ingest.Pipeline.Processing.{fresh}

-- The events that were read, and how many were not valid
unfoldable pub valid_ones : List (Option Pending) → List Pending
valid_ones [] = []
valid_ones (none ∷ readings) = valid_ones readings
valid_ones (some pe ∷ readings) = pe ∷ valid_ones readings

unfoldable pub invalid_count : List (Option Pending) → ℕ
invalid_count [] = 0
invalid_count (none ∷ readings) = invalid_count readings + 1
invalid_count (some pe ∷ readings) = invalid_count readings

-- Each event of a record is stored, once, or counted under one reason.
pub record Accounted (project_id : ℕ) (readings : List (Option Pending)) (p p' : Pipeline)
    : Type 0 where
  pub rows :
      Perm
        (held p'.store)
        ((fresh project_id (valid_ones readings) p.dedupe).events ++ held p.store)
  pub stored_count :
      p'.stored ≡ p.stored + length (fresh project_id (valid_ones readings) p.dedupe).events
  pub duplicates :
      p'.drops.duplicate_count + length (fresh project_id (valid_ones readings) p.dedupe).events
      ≡ p.drops.duplicate_count + length (valid_ones readings)
  pub malformed_drops : p'.drops.malformed_count ≡ p.drops.malformed_count + invalid_count readings

-- An item that stands for an event
abbrev pub is_event : Item → Bool
is_event item = str_eq item.header.type_name "event" || str_eq item.header.type_name "transaction"

module _ (extract : Bytes → Option ExtractedEvent) (decode_header : Bytes → Option EnvelopeHeader)
    (decode_item : Bytes → Option ItemHeader) (ahead : Bytes → ℕ) where
  -- The event of an item, with the envelope's id if it has none of its own
  unfoldable pub reading : EnvelopeHeader → Item → Option Pending
  reading header item = elim (extract item.payload) [
    | none ↦ none
    | some ev ↦ some (record {
      ex =
          if str_eq ev.event_id "" && not (str_eq header.event_id "")
          then record ev { event_id = header.event_id }
          else ev;
      payload = item.payload;
    })
  ]

  -- What a body should give, in order: the events of an envelope's items, the one event of a body that is
  -- an event, and one that is not valid for a body that cannot be read
  unfoldable pub readings : Limits → ℕ → Bytes → List (Option Pending)
  unfolding reading
  readings lim kind body =
      if kind == rec_envelope
      then elim (parse decode_header decode_item ahead lim body) [
        | parsed env ↦ map (reading env.header) (keep is_event env.items)
        | malformed ↦ none ∷ []
        | out_of_fuel ↦ none ∷ []
      ]
      else if kind == rec_event_json
      then elim (extract body) [
        | none ↦ none ∷ []
        | some ev ↦ some (record { ex = ev; payload = body }) ∷ []
      ]
      else none ∷ []
