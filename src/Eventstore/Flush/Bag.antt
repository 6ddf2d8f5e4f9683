-- ===== src/Eventstore/Flush/Bag.antt =====
-- Calls of Append and Flush of internal/eventstore/store.go in any order, against the events that Append
-- accepted.
use mathlib.Core.List.{Permᴰ}
use mathlib.Core.List.Permᴰ as PermD
use mathlib.Core.Path.{subst}
use leser.Prelude.{
  ℕ, ◌≤◌, ◌≡◌, refl, sym, ap, ◌∙◌, Option, none, some, List, [], ◌∷◌, ◌++◌, append-nil,
  append_assoc, All, length, ◌==◌, Bool-cases, Option-cases, inl, inr, arith, if◌then◌else◌,
}
use leser.Prelude.Permutations.{
  gather, Permᴰ-append, Permᴰ-of_eq, All-Permᴰ, Permᴰ-exchange, Permᴰ-swap, gather-Permᴰ,
}
use leser.Eventstore.{Event, SegMeta, Store, append}
use leser.Eventstore.Scans.{SegmentOk, all_segments}
use leser.Eventstore.Flush.{
  Partition, Disk, Arrival, partitions, write_parts, arrive, settle, flush,
}
use leser.Eventstore.Flush.Partitions.{rows_of, PartitionOk, partitions-Permᴰ, partitions-Ok}
use leser.Eventstore.Flush.Writes.{Older, Faithful, Grown}
use leser.Eventstore.Flush.Segments.{
  segment_rows, Segments?, Older-weaken, write_parts_lem, sort-added, sort-All,
}

-- All events that a store holds
abbrev pub held : Store → List Event
held s = s.buf ++ all_segments s.segs

pub record Good (s : Store) : Type 0 where
  pub ok : All SegmentOk s.segs
  pub old : Older s.flush_count s.segs

-- The events of the calls of Append that give no error
unfoldable pub accepted : List Arrival → Store → List Event
accepted [] s = []
accepted (a ∷ arrivals) s = elim (append a.now a.events s) [
  | none ↦ accepted arrivals s
  | some s' ↦ a.events ++ accepted arrivals s'
]

pub append_lem :
    (now : ℕ) (events : List Event) (s s' : Store)
    → append now events s ≡ some s'
    → (s'.buf ≡ s.buf ++ events) × (s'.segs ≡ s.segs) × (s'.flush_count ≡ s.flush_count)
unfolding append
append_lem now events s s' h = ground arith

pub arrive_lem :
    (arrivals : List Arrival) (s : Store)
    → ((arrive arrivals s).buf ≡ s.buf ++ accepted arrivals s)
      × ((arrive arrivals s).segs ≡ s.segs)
      × ((arrive arrivals s).flush_count ≡ s.flush_count)
unfolding arrive accepted
arrive_lem [] s = (sym (append-nil s.buf), refl, refl)
arrive_lem (a ∷ arrivals) s = elim (Option-cases (append a.now a.events s)) [
  | inl full ↦ rw (full, arrive, accepted) (arrive_lem arrivals s)
  | inr (s', done) ↦
      let (more, segs, count) = arrive_lem arrivals s' in
      let (one, segs', count') = append_lem a.now a.events s s' done in
      rw (done, arrive, accepted)
        (
          more
              ∙ ap (λ rows. rows ++ accepted arrivals s') one
              ∙ append_assoc s.buf a.events (accepted arrivals s'),
          segs ∙ segs',
          count ∙ count',
        )
]

pub Good-same :
    (s s' : Store) → Good s → s'.segs ≡ s.segs → s.flush_count ≤ s'.flush_count → Good s'
Good-same s s' g h le = record {
  ok = subst (All SegmentOk) (sym h) g.ok;
  old = subst (Older s'.flush_count) (sym h) (Older-weaken s.flush_count _ s.segs le g.old);
}

pub arrive-Good : (arrivals : List Arrival) (s : Store) → Good s → Good (arrive arrivals s)
arrive-Good arrivals s g =
    let (buf, segs, count) = arrive_lem arrivals s in
    Good-same s (arrive arrivals s) g segs (omega (arith, count))

-- The end of a flush of `rows` from a store that has since got `more`
settle_lem :
    (rows more : List Event) (parts : List Partition) (s : Store)
    (r : Option (List SegMeta) × Store)
    → Permᴰ (rows_of parts) rows
    → Good s
    → s.buf ≡ more
    → Grown s r.1
    → Segments? parts r.1.flush_count r.0
    → Good (settle rows r).1
      × Permᴰ (held (settle rows r).1) (rows ++ (more ++ all_segments s.segs))
unfolding settle
settle_lem rows more parts s (none, s') p g b grown new = (
  Good-same s (record s' { buf = rows ++ s'.buf }) g grown.segs grown.count,
  Permᴰ-of_eq (
      append_assoc rows s'.buf (all_segments s'.segs)
      ∙ ap (λ buf. rows ++ (buf ++ all_segments s'.segs)) (grown.buf ∙ b)
      ∙ ap (λ segs. rows ++ (more ++ all_segments segs)) grown.segs),
)
settle_lem rows more parts s (some new, s') p g b grown added =
    let same = Good-same s s' g grown.segs grown.count in
    let tail : Permᴰ (all_segments s'.segs ++ gather segment_rows new)
        (all_segments s.segs ++ rows) =
      Permᴰ-append (Permᴰ-of_eq (ap all_segments grown.segs)) (Permᴰ.trans added.rows p) in
    (
      record {
        ok = sort-All SegmentOk s'.segs new same.ok added.ok;
        old = sort-All _ s'.segs new same.old added.old;
      },
      Permᴰ.trans
          (Permᴰ-append (Permᴰ-of_eq (grown.buf ∙ b)) (Permᴰ.trans (sort-added s'.segs new) tail))
          (Permᴰ.trans (PermD.append_left more (Permᴰ-swap (all_segments s.segs) rows))
            (Permᴰ-exchange more rows (all_segments s.segs))),
    )

-- A call of Append or of Flush, with what the file system does meanwhile and the calls that come meanwhile
pub data Call : Type 0 where
  append_call : Arrival → Call
  flush_call : Disk → (List Partition → List Partition) → List Arrival → Call

-- The file system keeps what it is given, and an iteration visits each partition once.
abbrev pub Sound : Call → Type 0
Sound (append_call a) = Unit
Sound (flush_call disk visit arrivals) =
    Faithful disk × ((parts : List Partition) → Permᴰ (visit parts) parts)

unfoldable pub call : Call → Store → Store
call (append_call a) s = arrive (a ∷ []) s
call (flush_call disk visit arrivals) s = (flush disk visit arrivals s).1

-- The events of the calls of Append, those during a flush included
unfoldable pub accepted_in : Call → Store → List Event
accepted_in (append_call a) s = accepted (a ∷ []) s
accepted_in (flush_call disk visit arrivals) s =
    accepted arrivals (if length s.buf == 0 then s else record s { buf = [] })

unfoldable pub run : List Call → Store → Store
run [] s = s
run (c ∷ calls) s = run calls (call c s)

unfoldable pub accepted_by : List Call → Store → List Event
accepted_by [] s = []
accepted_by (c ∷ calls) s = accepted_in c s ++ accepted_by calls (call c s)

arrive-held :
    (arrivals : List Arrival) (s : Store)
    → Permᴰ (held (arrive arrivals s)) (accepted arrivals s ++ held s)
arrive-held arrivals s =
    let (buf, segs, count) = arrive_lem arrivals s in
    Permᴰ.trans (Permᴰ-append (Permᴰ-of_eq buf) (Permᴰ-of_eq (ap all_segments segs))) (
      Permᴰ.trans (Permᴰ-of_eq (append_assoc s.buf (accepted arrivals s) (all_segments s.segs)))
        (Permᴰ-exchange s.buf (accepted arrivals s) (all_segments s.segs)))

all_partitions : (rows : List Event) → Permᴰ (rows_of (partitions [] rows)) rows
unfolding gather
all_partitions rows = partitions-Permᴰ [] rows

pub flush_lem :
    (disk : Disk) (visit : List Partition → List Partition) (arrivals : List Arrival) (s : Store)
    → Sound (flush_call disk visit arrivals)
    → Good s
    → Good (flush disk visit arrivals s).1
      × Permᴰ
          (held (flush disk visit arrivals s).1)
          (accepted_in (flush_call disk visit arrivals) s ++ held s)
unfolding flush accepted_in
flush_lem disk visit arrivals s sound g = elim (Bool-cases (length s.buf == 0)) [
  | inl idle ↦ rw idle (arrive-Good arrivals s g, arrive-held arrivals s)
  | inr busy ↦
      let s0 = record s { buf = [] } in
      let s1 = arrive arrivals s0 in
      let parts = visit (partitions [] s.buf) in
      let good : Good s1 = arrive-Good arrivals s0 (record { ok = g.ok; old = g.old }) in
      let (buf, segs, count) = arrive_lem arrivals s0 in
      let all : Permᴰ (rows_of parts) s.buf =
        Permᴰ.trans (gather-Permᴰ _ (sound.1 (partitions [] s.buf))) (all_partitions s.buf) in
      let ok : All PartitionOk parts =
        All-Permᴰ PartitionOk (PermD.symm (sound.1 (partitions [] s.buf)))
          (partitions-Ok [] s.buf tt) in
      let (grown, new) = write_parts_lem disk sound.0 parts s1 ok good.old in
      let (good', rows) =
        settle_lem s.buf (accepted arrivals s0) parts s1 (write_parts disk parts s1) all good buf
          grown new in
      rw busy (
        good',
        Permᴰ.trans rows (
            Permᴰ.trans (Permᴰ-exchange s.buf (accepted arrivals s0) (all_segments s1.segs))
              (Permᴰ-of_eq (ap (λ ms. accepted arrivals s0 ++ (s.buf ++ all_segments ms)) segs))),
      )
]

call_lem :
    (c : Call) (s : Store)
    → Sound c
    → Good s
    → Good (call c s) × Permᴰ (held (call c s)) (accepted_in c s ++ held s)
unfolding call
call_lem (append_call a) s sound g =
    unfold accepted_in in (arrive-Good (a ∷ []) s g, arrive-held (a ∷ []) s)
call_lem (flush_call disk visit arrivals) s sound g = flush_lem disk visit arrivals s sound g

pub run_lem :
    (calls : List Call) (s : Store)
    → All Sound calls
    → Good s
    → Good (run calls s) × Permᴰ (held (run calls s)) (accepted_by calls s ++ held s)
unfolding run accepted_by
run_lem [] s sound g = (g, PermD.refl (held s))
run_lem (c ∷ calls) s sound g =
    let (good, one) = call_lem c s sound.0 g in
    let (good', more) = run_lem calls (call c s) sound.1 good in
    (
      good',
      Permᴰ.trans more (
          Permᴰ.trans (PermD.append_left (accepted_by calls (call c s)) one) (
            Permᴰ.trans (Permᴰ-exchange (accepted_by calls (call c s)) (accepted_in c s) (held s)) (
              Permᴰ-of_eq
                (sym (append_assoc (accepted_in c s) (accepted_by calls (call c s)) (held s)))))),
    )
