-- ===== src/Eventstore/Flush/Segments.antt =====
-- The end of Flush of internal/eventstore/store.go: the segments of all partitions, and the store that
-- they are added to.
use mathlib.Core.List.{Permᴰ}
use mathlib.Core.List.Permᴰ as PermD
use mathlib.Core.Path.{subst}
use leser.Prelude.{
  ℕ, ◌≤◌, ◌≡◌, refl, sym, ap, ◌∙◌, Option, none, some, List, [], ◌∷◌, ◌++◌, All, All-append,
  All-weaken, Option-cases, inl, inr, arith,
}
use leser.Prelude.Permutations.{
  gather, Permᴰ-append, Permᴰ-of_eq, All-Permᴰ, sort_by-Permᴰ, gather-Permᴰ, gather-append,
}
use leser.Eventstore.{Event, SegMeta, Store}
use leser.Eventstore.Scans.{SegmentOk, all_groups, all_segments}
use leser.Eventstore.Flush.{Partition, Disk, write_segment, write_parts, seg_le}
use leser.Eventstore.Flush.Partitions.{rows_of, PartitionOk}
use leser.Eventstore.Flush.Writes.{
  count_of, Older, Faithful, SegmentOf, Segment?, Grown, write_segment_lem,
}
use leser.Prelude.Sorting.{sort_by}

abbrev pub segment_rows : SegMeta → List Event
segment_rows m = all_groups m.groups

pub all_segments-gather : (segs : List SegMeta) → all_segments segs ≡ gather segment_rows segs
unfolding all_segments gather
all_segments-gather [] = refl
all_segments-gather (m ∷ segs) = ap (λ rows. segment_rows m ++ rows) (all_segments-gather segs)

pub record SegmentsOf (parts : List Partition) (n : ℕ) (new : List SegMeta) : Type 0 where
  pub ok : All SegmentOk new
  pub rows : Permᴰ (gather segment_rows new) (rows_of parts)
  pub old : All (λ m. count_of m ≤ n) new

abbrev pub Segments? : List Partition → ℕ → Option (List SegMeta) → Type 0
Segments? parts n none = Unit
Segments? parts n (some new) = SegmentsOf parts n new

Grown-trans : (s s' s'' : Store) → Grown s s' → Grown s' s'' → Grown s s''
Grown-trans s s' s'' g h = record {
  buf = h.buf ∙ g.buf;
  segs = h.segs ∙ g.segs;
  count = omega (arith, g.count, h.count);
}

pub Older-weaken : (n k : ℕ) (segs : List SegMeta) → n ≤ k → Older n segs → Older k segs
Older-weaken n k segs h old = All-weaken _ (λ m. count_of m ≤ k) segs (λ m o. omega arith) old

more_segments :
    (p : Partition) (parts : List Partition) (n k : ℕ) (m : SegMeta) (new : Option (List SegMeta))
    → n ≤ k
    → SegmentOf p.events n m
    → Segments? parts k new
    → Segments? (p ∷ parts) k (elim new [ none ↦ none | some new ↦ some (m ∷ new) ])
more_segments p parts n k m none le one more = tt
more_segments p parts n k m (some new) le one more = record {
  ok = (one.ok, more.ok);
  rows = unfold gather in Permᴰ-append one.rows more.rows;
  old = (omega (arith, one.count), more.old);
}

module _ (disk : Disk) (faithful : Faithful disk) where
  pub write_parts_lem :
      (parts : List Partition) (s : Store)
      → All PartitionOk parts
      → Older s.flush_count s.segs
      → Grown s (write_parts disk parts s).1
        × Segments? parts (write_parts disk parts s).1.flush_count (write_parts disk parts s).0
  unfolding write_parts
  write_parts_lem [] s ok old = (
    record { buf = refl; segs = refl; count = omega arith },
    record { ok = tt; rows = unfold gather in Permᴰ.nil; old = tt },
  )
  write_parts_lem (p ∷ parts) s ok old =
      let first = write_segment disk p.proj p.hour p.events s in
      let one = write_segment_lem disk faithful p s ok.0 old in
      let older : Older first.1.flush_count first.1.segs =
        subst (Older first.1.flush_count) (sym one.0.segs)
          (Older-weaken s.flush_count _ s.segs one.0.count old) in
      let rest = write_parts_lem parts first.1 ok.1 older in
      elim (Option-cases first.0) [
        | inl err ↦ rw (err, write_parts) (one.0, tt)
        | inr (m, done) ↦
            let new : SegmentOf p.events first.1.flush_count m =
              subst (Segment? p.events first.1.flush_count) done one.1 in
            rw (done, write_parts)
              (
                Grown-trans s first.1 _ one.0 rest.0,
                more_segments p parts first.1.flush_count _ m _ rest.0.count new rest.1,
              )
      ]

-- The segments that are added, in the order of the sort
pub sort-added :
    (segs new : List SegMeta)
    → Permᴰ
        (all_segments (sort_by seg_le (segs ++ new)))
        (all_segments segs ++ gather segment_rows new)
sort-added segs new =
    Permᴰ.trans (Permᴰ-of_eq (all_segments-gather (sort_by seg_le (segs ++ new)))) (
      Permᴰ.trans (gather-Permᴰ segment_rows (sort_by-Permᴰ seg_le (segs ++ new))) (
        Permᴰ-of_eq (
          gather-append segment_rows segs new
          ∙ ap (λ rows. rows ++ gather segment_rows new) (sym (all_segments-gather segs)))))

pub sort-All :
    (P : SegMeta → Type 0) (segs new : List SegMeta)
    → All P segs
    → All P new
    → All P (sort_by seg_le (segs ++ new))
sort-All P segs new h k =
    All-Permᴰ P (PermD.symm (sort_by-Permᴰ seg_le (segs ++ new))) (All-append P segs new h k)
