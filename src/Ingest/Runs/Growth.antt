-- ===== src/Ingest/Runs/Growth.antt =====
-- What the turns of Run in internal/ingest/pipeline.go leave of the segments, and what a commit does with
-- the offset.
use mathlib.Core.List.{Permᴰ}
use mathlib.Core.List.Permᴰ as PermD
use leser.Prelude.{◌≡◌, ◌⊎◌, Bool, true, false, Option, none, some, List, ◌++◌, All}
use leser.Prelude.Bytes.{Bytes}
use leser.Eventstore.{Event, Store}
use leser.Eventstore.Scans.{all_segments}
use leser.Eventstore.Flush.{Partition}
use leser.Eventstore.Flush.Writes.{Faithful}
use leser.Eventstore.Flush.Bag.{held}
use leser.Eventstore.Flush.Growth.{Grows}
use leser.Ingest.Pipeline.{Pipeline}
use leser.Ingest.Pipeline.Processing.{SoundAttempt}
use leser.Ingest.Runs.{Consumer, CommitWorld, Turn, done_turn, pass_turn}

-- The file system keeps what it is given, and an iteration visits each partition once.
abbrev pub SoundWorld : CommitWorld → Type 0
SoundWorld w = Faithful w.disk × ((parts : List Partition) → Permᴰ (w.visit parts) parts)

-- All that the store `s` held is in the segments of `s'`.
pub record Durable (s s' : Store) : Type 0 where
  more : List Event
  rows : Permᴰ (all_segments s'.segs) (held s ++ more)

-- The segments and the store keep what they have, and the committed offset is the same, or all that the
-- store held is in the segments.
pub record Safe (c c' : Consumer) : Type 0 where
  grows : Grows c.pipe.store c'.pipe.store
  offset : (c'.committed ≡ c.committed) ⊎ Durable c.pipe.store c'.pipe.store

-- What a commit does: without an error, the offset is that of the next record, and the segments have all
-- that the store held; with one, the offset is as it was, and so is what the store holds.
unfoldable Committed : Consumer → Bool × Consumer → Type 0
Committed c (true, c') =
    (c'.committed ≡ c.pos) × Permᴰ (all_segments c'.pipe.store.segs) (held c.pipe.store)
Committed c (false, c') =
    (c'.committed ≡ c.committed) × Permᴰ (held c'.pipe.store) (held c.pipe.store)

abbrev SoundTick : Option CommitWorld → Type 0
SoundTick none = Unit
SoundTick (some w) = SoundWorld w

abbrev pub SoundTurn : Turn → Type 0
SoundTurn (done_turn w) = SoundWorld w
SoundTurn (pass_turn t) = SoundTick t.tick × All SoundAttempt t.attempts × SoundWorld t.batch
