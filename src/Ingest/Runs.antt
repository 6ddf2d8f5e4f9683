-- ===== src/Ingest/Runs.antt =====
-- The loop of Run in internal/ingest/pipeline.go. A turn is one pass of the loop: whether the context is done,
-- whether the ticker fires, and what the reader gives. That the context is done while the loop waits for a
-- record is the next turn.
use leser.Prelude.{
  ℕ, suc, ◌+◌, Bool, true, false, not, ◌||◌, Option, none, some, List, [], ◌∷◌, ltb, leb,
  if◌then◌else◌,
}
use leser.Prelude.Bytes.{Bytes}
use leser.Eventstore.{needs_flush}
use leser.Eventstore.Flush.{Partition, Disk, flush}
use leser.Ingest.Envelope.{EnvelopeHeader, ItemHeader}
use leser.Ingest.Pipeline.{
  ExtractedEvent, Pipeline, Attempt, Ending, stored_it, gave_up, blocked, process,
}
pub mod Growth

-- The loop's reader and its variables: the offset of the next record, and the committed one
pub record Consumer : Type 0 where
  pub pipe : Pipeline
  pub pos : ℕ
  pub committed : ℕ
  pub uncommitted : ℕ

-- What a commit meets: the file system of the event store, and whether the offset file is written
pub record CommitWorld : Type 0 where
  pub disk : Disk
  pub visit : List Partition → List Partition
  pub offset_written : Bool

-- The closure `commit`; the Boolean says that it gives no error.
unfoldable pub commit : CommitWorld → Consumer → Bool × Consumer
commit w c =
    let flushed = flush w.disk w.visit [] c.pipe.store in
    let c1 = record c { pipe = record c.pipe { store = flushed.1 } } in
    if not flushed.0 || not w.offset_written
    then (false, c1)
    else (true, record c1 { committed = c1.pos; uncommitted = 0 })

pub data Next : Type 0 where
  no_record : Next
  read_error : Next
  next_record : Bytes → Next

pub record Pass : Type 0 where
  pub now : ℕ
  pub tick : Option CommitWorld
  pub next : Next
  pub lag : ℕ
  pub attempts : List Attempt
  pub batch : CommitWorld

pub data Turn : Type 0 where
  done_turn : CommitWorld → Turn
  pass_turn : Pass → Turn

abbrev pub on_tick : Pass → Consumer → Consumer
on_tick t c = elim t.tick [
  | none ↦ c
  | some w ↦ if ltb 0 c.uncommitted || needs_flush t.now c.pipe.store then (commit w c).1 else c
]

module _ (extract : Bytes → Option ExtractedEvent) (decode_header : Bytes → Option EnvelopeHeader)
    (decode_item : Bytes → Option ItemHeader) (ahead : Bytes → ℕ) where
  -- A record that Next gave, and whether the loop goes on
  unfoldable pub consume : Pass → Bytes → Consumer → Consumer × Bool
  unfolding commit
  consume t payload c =
      let r =
        process extract decode_header decode_item ahead t.attempts payload
          (record c.pipe { consumer_lag = t.lag }) in
      let c1 = record c { pipe = r.1; pos = c.pos + 1 } in
      let c2 = record c1 { uncommitted = c1.uncommitted + 1 } in
      let after : Consumer × Bool = (
        if leb c2.pipe.opts.commit_every c2.uncommitted then (commit t.batch c2).1 else c2,
        true,
      ) in
      elim r.0 [ stored_it ↦ after | gave_up ↦ after | blocked ↦ (c1, false) ]

  -- The part of a turn after the ticker
  unfoldable pub read_next : Pass → Next → Consumer → Consumer × Bool
  unfolding consume
  read_next t no_record c = (record c { pipe = record c.pipe { consumer_lag = 0 } }, true)
  read_next t read_error c = (c, false)
  read_next t (next_record payload) c = consume t payload c

  unfoldable pub turn : Turn → Consumer → Consumer × Bool
  unfolding read_next commit
  turn (done_turn w) c = ((commit w c).1, false)
  turn (pass_turn t) c = read_next t t.next (on_tick t c)

  unfoldable pub run : List Turn → Consumer → Consumer
  unfolding turn
  run [] c = c
  run (t ∷ turns) c = let r = turn t c in let rest = run turns r.0 in if r.1 then rest else r.0
