-- ===== src/Eventstore/Flush/Views.antt =====
-- What Scan of internal/eventstore/query.go shows after calls of Append and Flush of store.go, and what a
-- flush leaves of the buffer.
use mathlib.Core.List.{Perm, Permᴰ}
use mathlib.Core.List.Permᴰ as PermD
use leser.Prelude.{
  ◌+◌, ◌≤◌, ◌<◌, ◌≡◌, ◌≢◌, refl, sym, ap, ◌∙◌, Bool, true, false, Option, none, some, List, [], ◌∷◌,
  ◌++◌, append-nil, All, length, take_of_length-le, ◌==◌, Bool-cases, inl, inr, arith,
  if◌then◌else◌,
}
use leser.Prelude.Permutations.{gather, Permᴰ-of_eq, gather-Permᴰ, length-Permᴰ, All-Permᴰ}
use leser.Eventstore.{
  Event, Query, RowGroup, SegPath, SegMeta, Store, Options, limit_of, matches, scan,
}
use leser.Eventstore.Groups.{matching}
use leser.Eventstore.Scans.{all_segments, scan_lem}
use leser.Eventstore.Flush.{
  Partition, segment_name, ts_le, first_ts, Disk, written, Arrival, partitions, write_segment,
  write_parts, arrive, settle, flush,
}
use leser.Prelude.Sorting.{sort_by}
use leser.Eventstore.Flush.Partitions.{PartitionOk, partitions-Ok}
use leser.Eventstore.Flush.Writes.{Grown}
use leser.Eventstore.Flush.Segments.{write_parts_lem}
use leser.Eventstore.Flush.Bag.{
  held, Good, accepted, arrive_lem, arrive-Good, Call, flush_call, Sound, run, accepted_by, run_lem,
}

-- Open on a directory without segments
abbrev pub empty : Options → Store
empty opts = record { opts = opts; buf = []; buf_since = 0; segs = []; known = []; flush_count = 0 }

matched : Query → Event → List Event
matched q e = if matches q e then e ∷ [] else []

matching-gather : (q : Query) (rows : List Event) → matching q rows ≡ gather (matched q) rows
unfolding matching gather matched
matching-gather q [] = refl
matching-gather q (e ∷ rows) = ground (arith, matching-gather q rows)

matching-Permᴰ :
    (q : Query) {xs ys : List Event} → Permᴰ xs ys → Permᴰ (matching q xs) (matching q ys)
matching-Permᴰ q {xs} {ys} d =
    Permᴰ.trans (Permᴰ-of_eq (matching-gather q xs))
      (Permᴰ.trans (gather-Permᴰ (matched q) d) (Permᴰ-of_eq (sym (matching-gather q ys))))

length-matching-le : (q : Query) (rows : List Event) → length (matching q rows) ≤ length rows
unfolding matching
length-matching-le q [] = omega arith
length-matching-le q (e ∷ rows) = ground (arith, length-matching-le q rows)

all-empty : (opts : Options) (rows : List Event) → rows ++ held (empty opts) ≡ rows
unfolding all_segments
all-empty opts rows = append-nil rows

-- From an empty directory on, whatever calls of Append and of Flush are made, Append calls during a flush
-- included, and whether or not the writes of a flush fail: a query with a project, of which the limit is not
-- below the number of the accepted events, gives exactly those of the accepted events that match, each as
-- often as it was accepted, in some order. The file system is to keep what it is given, and an iteration over a
-- map to visit each key once.
pub run-scan :
    (opts : Options) (calls : List Call) (q : Query)
    → All Sound calls
    → 0 < q.project_id
    → 0 < limit_of (run calls (empty opts)) q
    → length (accepted_by calls (empty opts)) ≤ limit_of (run calls (empty opts)) q
    → (rows : List Event) × (scan q (run calls (empty opts)) ≡ some rows)
      × Perm rows (matching q (accepted_by calls (empty opts)))
run-scan opts calls q sound project limit enough =
    let s = run calls (empty opts) in
    let start : Good (empty opts) = record { ok = tt; old = tt } in
    let (good, all) = run_lem calls (empty opts) sound start in
    let all' : Permᴰ (held s) (accepted_by calls (empty opts)) =
      Permᴰ.trans all (Permᴰ-of_eq (all-empty opts (accepted_by calls (empty opts)))) in
    let few : length (matching q (held s)) ≤ limit_of s q =
      omega (arith, length-matching-le q (held s), length-Permᴰ all', enough) in
    (
      matching q (held s),
      scan_lem q s good.ok project limit
          ∙ ap some (take_of_length-le (limit_of s q) (matching q (held s)) few),
      ∣ matching-Permᴰ q all' ∣₁,
    )

-- Every write that is tried succeeds.
abbrev pub Writing : Disk → Type 0
Writing disk =
    (path : SegPath) (evs : List Event)
    → (groups : List RowGroup) × (disk path evs ≡ written groups)

write_segment-Writing :
    (disk : Disk) (p : Partition) (s : Store)
    → Writing disk
    → (write_segment disk p.proj p.hour p.events s).0 ≢ none
unfolding write_segment
write_segment-Writing disk p s w =
    let evs = sort_by ts_le p.events in
    let path : SegPath = record {
      project_dir = p.proj;
      hour_dir = p.hour;
      name = segment_name (first_ts evs) (s.flush_count + 1);
    } in
    let (groups, done) = w path evs in rw (done, write_segment) (λ h. cc)

write_parts-Writing :
    (disk : Disk) (parts : List Partition) (s : Store)
    → Writing disk
    → (write_parts disk parts s).0 ≢ none
unfolding write_parts
write_parts-Writing disk [] s w = λ h. cc
write_parts-Writing disk (p ∷ parts) s w =
    let first = write_segment disk p.proj p.hour p.events s in
    ground (arith, write_segment-Writing disk p s w, write_parts-Writing disk parts first.1 w)

-- What a flush has done with the buffer and the segments of a store
abbrev pub Flushed : List Arrival → Store → Bool × Store → Type 0
Flushed arrivals s (true, s') = s'.buf ≡ accepted arrivals (record s { buf = [] })
Flushed arrivals s (false, s') =
    (s'.buf ≡ s.buf ++ accepted arrivals (record s { buf = [] })) × (s'.segs ≡ s.segs)

settle-Flushed :
    (arrivals : List Arrival) (s : Store) (r : Option (List SegMeta) × Store)
    → Grown (arrive arrivals (record s { buf = [] })) r.1
    → Flushed arrivals s (settle s.buf r)
unfolding settle
settle-Flushed arrivals s (none, s') grown =
    let (buf, segs, count) = arrive_lem arrivals (record s { buf = [] }) in
    (ap (λ rows. s.buf ++ rows) (grown.buf ∙ buf), grown.segs ∙ segs)
settle-Flushed arrivals s (some new, s') grown =
    let (buf, segs, count) = arrive_lem arrivals (record s { buf = [] }) in grown.buf ∙ buf

length-eq-zero : (rows : List Event) → (length rows == 0) ≡ true → rows ≡ []
length-eq-zero [] h = refl
length-eq-zero (e ∷ rows) h = absurd (ground arith)

arrive-idle :
    (arrivals : List Arrival) (s : Store)
    → s.buf ≡ []
    → (arrive arrivals s).buf ≡ accepted arrivals (record s { buf = [] })
arrive-idle arrivals s h =
    let (buf, segs, count) = arrive_lem arrivals s in
    buf
    ∙ ap (λ rows. rows ++ accepted arrivals s) h
    ∙ ap (λ rows. accepted arrivals (record s { buf = rows })) h

pub flush-Flushed :
    (disk : Disk) (visit : List Partition → List Partition) (arrivals : List Arrival) (s : Store)
    → Sound (flush_call disk visit arrivals)
    → Good s
    → Flushed arrivals s (flush disk visit arrivals s)
unfolding flush
flush-Flushed disk visit arrivals s sound g = elim (Bool-cases (length s.buf == 0)) [
  | inl idle ↦ rw idle (arrive-idle arrivals s (length-eq-zero s.buf idle))
  | inr busy ↦
      let s0 = record s { buf = [] } in
      let s1 = arrive arrivals s0 in
      let parts = visit (partitions [] s.buf) in
      let good : Good s1 = arrive-Good arrivals s0 (record { ok = g.ok; old = g.old }) in
      let ok : All PartitionOk parts =
        All-Permᴰ PartitionOk (PermD.symm (sound.1 (partitions [] s.buf)))
          (partitions-Ok [] s.buf tt) in
      let written' = write_parts_lem disk sound.0 parts s1 ok good.old in
      rw busy (settle-Flushed arrivals s (write_parts disk parts s1) written'.0)
]

flush-succeeds :
    (disk : Disk) (visit : List Partition → List Partition) (arrivals : List Arrival) (s : Store)
    → Writing disk
    → (flush disk visit arrivals s).0 ≡ true
unfolding flush settle
flush-succeeds disk visit arrivals s w = ground (
  arith,
  write_parts-Writing disk (visit (partitions [] s.buf)) (arrive arrivals (record s { buf = [] }))
      w,
)

pub Flushed-true :
    (arrivals : List Arrival) (s : Store) (r : Bool × Store)
    → Flushed arrivals s r
    → r.0 ≡ true
    → r.1.buf ≡ accepted arrivals (record s { buf = [] })
Flushed-true arrivals s (true, s') f h = f
Flushed-true arrivals s (false, s') f h = absurd (ground arith)

Flushed-false :
    (arrivals : List Arrival) (s : Store) (r : Bool × Store)
    → Flushed arrivals s r
    → r.0 ≡ false
    → (r.1.buf ≡ s.buf ++ accepted arrivals (record s { buf = [] })) × (r.1.segs ≡ s.segs)
Flushed-false arrivals s (true, s') f h = absurd (ground arith)
Flushed-false arrivals s (false, s') f h = f

-- In a store of which the segments are as writeSegment leaves them, with files of earlier counts: when the
-- writes that a Flush tries succeed, it gives no error, and of the buffer it leaves only what Append
-- accepted meanwhile.
pub flush-Writing :
    (disk : Disk) (visit : List Partition → List Partition) (arrivals : List Arrival) (s : Store)
    → Sound (flush_call disk visit arrivals)
    → Good s
    → Writing disk
    → ((flush disk visit arrivals s).0 ≡ true)
      × ((flush disk visit arrivals s).1.buf ≡ accepted arrivals (record s { buf = [] }))
flush-Writing disk visit arrivals s sound g w =
    let done = flush-succeeds disk visit arrivals s w in
    (done, Flushed-true arrivals s _ (flush-Flushed disk visit arrivals s sound g) done)

-- In a store of which the segments are as writeSegment leaves them, with files of earlier counts: a Flush that
-- gives an error leaves the segments as they were and every row in the buffer, those that it had taken before
-- those that Append accepted meanwhile.
pub flush-fails :
    (disk : Disk) (visit : List Partition → List Partition) (arrivals : List Arrival) (s : Store)
    → Sound (flush_call disk visit arrivals)
    → Good s
    → (flush disk visit arrivals s).0 ≡ false
    → ((flush disk visit arrivals s).1.buf ≡ s.buf ++ accepted arrivals (record s { buf = [] }))
      × ((flush disk visit arrivals s).1.segs ≡ s.segs)
flush-fails disk visit arrivals s sound g err =
    Flushed-false arrivals s _ (flush-Flushed disk visit arrivals s sound g) err
