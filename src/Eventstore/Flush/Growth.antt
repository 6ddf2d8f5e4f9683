-- ===== src/Eventstore/Flush/Growth.antt =====
-- What Append and Flush of internal/eventstore/store.go leave of the segments.
use mathlib.Core.List.{Permᴰ}
use mathlib.Core.List.Permᴰ as PermD
use mathlib.Core.Path.{subst}
use leser.Prelude.{
  ℕ, ◌≡◌, refl, sym, ap, ◌∙◌, true, false, Option, none, some, List, [], ◌++◌, append-nil,
  append_assoc, All, length, ◌==◌, Bool-cases, inl, inr, arith,
}
use leser.Prelude.Permutations.{gather, Permᴰ-of_eq, Permᴰ-append, Permᴰ-swap, All-Permᴰ}
use leser.Eventstore.{Event, SegMeta, Store, append}
use leser.Eventstore.Scans.{all_segments}
use leser.Eventstore.Flush.{Partition, Disk, partitions, write_parts, arrive, settle, flush}
use leser.Eventstore.Flush.Partitions.{PartitionOk, partitions-Ok}
use leser.Eventstore.Flush.Writes.{Grown}
use leser.Eventstore.Flush.Segments.{segment_rows, Segments?, write_parts_lem, sort-added}
use leser.Eventstore.Flush.Bag.{
  held, Good, accepted, accepted_in, Sound, flush_call, append_lem, Good-same, flush_lem,
}
use leser.Eventstore.Flush.Views.{flush-Flushed, Flushed-true}

-- The store keeps what it holds, and may get more.
pub record Kept (s s' : Store) : Type 0 where
  pub extra : List Event
  pub all : Permᴰ (held s') (held s ++ extra)

pub Kept-of : (s s' : Store) → Permᴰ (held s') (held s) → Kept s s'
Kept-of s s' p = record {
  extra = [];
  all = Permᴰ.trans p (Permᴰ-of_eq (sym (append-nil (held s))));
}

-- So do its segments.
pub record Grows (s s' : Store) : Type 0 where
  pub good : Good s'
  pub kept : Kept s s'
  pub more : List Event
  pub rows : Permᴰ (all_segments s'.segs) (all_segments s.segs ++ more)

pub Grows-same : (s s' : Store) → Good s' → Kept s s' → s'.segs ≡ s.segs → Grows s s'
Grows-same s s' g kept h = record {
  kept = kept;
  good = g;
  more = [];
  rows = Permᴰ-of_eq (ap all_segments h ∙ sym (append-nil (all_segments s.segs)));
}

pub Grows-refl : (s : Store) → Good s → Grows s s
Grows-refl s g = Grows-same s s g (Kept-of s s (PermD.refl (held s))) refl

pub Grows-trans : (s s1 s2 : Store) → Grows s s1 → Grows s1 s2 → Grows s s2
Grows-trans s s1 s2 g h = record {
  good = h.good;
  kept = record {
    extra = g.kept.extra ++ h.kept.extra;
    all = Permᴰ.trans h.kept.all (
        Permᴰ.trans (PermD.append_right h.kept.extra g.kept.all)
          (Permᴰ-of_eq (append_assoc (held s) g.kept.extra h.kept.extra)));
  };
  more = g.more ++ h.more;
  rows = Permᴰ.trans h.rows (
      Permᴰ.trans (PermD.append_right h.more g.rows)
        (Permᴰ-of_eq (append_assoc (all_segments s.segs) g.more h.more)));
}

pub append-Grows :
    (now : ℕ) (events : List Event) (s s' : Store)
    → append now events s ≡ some s'
    → Good s
    → Grows s s'
append-Grows now events s s' done g =
    let (buf, segs, count) = append_lem now events s s' done in
    Grows-same s s' (Good-same s s' g segs (omega (arith, count)))
      (record {
        extra = events;
        all = Permᴰ.trans (Permᴰ-append (Permᴰ-of_eq buf) (Permᴰ-of_eq (ap all_segments segs))) (
            Permᴰ.trans (Permᴰ-of_eq (append_assoc s.buf events (all_segments s.segs))) (
              Permᴰ.trans (PermD.append_left s.buf (Permᴰ-swap events (all_segments s.segs)))
                (Permᴰ-of_eq (sym (append_assoc s.buf (all_segments s.segs) events)))));
      })
      segs

settle-segs :
    (rows : List Event) (parts : List Partition) (s : Store) (r : Option (List SegMeta) × Store)
    → Grown s r.1
    → Segments? parts r.1.flush_count r.0
    → (more : List Event) × Permᴰ
        (all_segments (settle rows r).1.segs)
        (all_segments s.segs ++ more)
unfolding settle
settle-segs rows parts s (none, s') grown new =
    ([], Permᴰ-of_eq (ap all_segments grown.segs ∙ sym (append-nil (all_segments s.segs))))
settle-segs rows parts s (some new, s') grown added = (
  gather segment_rows new,
  Permᴰ.trans (sort-added s'.segs new)
      (Permᴰ-of_eq (ap (λ segs. all_segments segs ++ gather segment_rows new) grown.segs)),
)

pub flush-Good :
    (disk : Disk) (visit : List Partition → List Partition) (s : Store)
    → Sound (flush_call disk visit [])
    → Good s
    → Good (flush disk visit [] s).1 × Permᴰ (held (flush disk visit [] s).1) (held s)
unfolding accepted_in accepted
flush-Good disk visit s sound g = flush_lem disk visit [] s sound g

flush_busy :
    (disk : Disk) (visit : List Partition → List Partition) (s : Store)
    → (length s.buf == 0) ≡ false
    → flush disk visit [] s
      ≡ settle s.buf (write_parts disk (visit (partitions [] s.buf)) (record s { buf = [] }))
unfolding flush arrive
flush_busy disk visit s busy = rw busy refl

flush_idle :
    (disk : Disk) (visit : List Partition → List Partition) (s : Store)
    → (length s.buf == 0) ≡ true
    → flush disk visit [] s ≡ (true, s)
unfolding flush arrive
flush_idle disk visit s idle = rw idle refl

pub flush-Grows :
    (disk : Disk) (visit : List Partition → List Partition) (s : Store)
    → Sound (flush_call disk visit [])
    → Good s
    → Grows s (flush disk visit [] s).1
flush-Grows disk visit s sound g =
    let (good, same) = flush-Good disk visit s sound g in
    let kept = Kept-of s (flush disk visit [] s).1 same in
    elim (Bool-cases (length s.buf == 0)) [
      | inl idle ↦ Grows-same s _ good kept (ap (λ r. r.1.segs) (flush_idle disk visit s idle))
      | inr busy ↦
          let s0 = record s { buf = [] } in
          let parts = visit (partitions [] s.buf) in
          let ok : All PartitionOk parts =
            All-Permᴰ PartitionOk (PermD.symm (sound.1 (partitions [] s.buf)))
              (partitions-Ok [] s.buf tt) in
          let (grown, new) = write_parts_lem disk sound.0 parts s0 ok g.old in
          let all = settle-segs s.buf parts s0 (write_parts disk parts s0) grown new in
          record {
            good = good;
            kept = kept;
            more = all.0;
            rows =
                subst (λ r. Permᴰ (all_segments r.1.segs) (all_segments s.segs ++ all.0))
                  (sym (flush_busy disk visit s busy)) all.1;
          }
    ]

-- When a flush gives no error, all that the store held is in its segments.
pub flush-held :
    (disk : Disk) (visit : List Partition → List Partition) (s : Store)
    → Sound (flush_call disk visit [])
    → Good s
    → (flush disk visit [] s).0 ≡ true
    → Permᴰ (all_segments (flush disk visit [] s).1.segs) (held s)
flush-held disk visit s sound g done =
    let empty = Flushed-true [] s _ (flush-Flushed disk visit [] s sound g) done in
    Permᴰ.trans
      (Permᴰ-of_eq (
        sym (
          ap (λ buf. buf ++ all_segments (flush disk visit [] s).1.segs) (empty ∙ accepts_none s))))
      (flush-Good disk visit s sound g).1
  where
    accepts_none : (s : Store) → accepted [] (record s { buf = [] }) ≡ []
    accepts_none s = unfold accepted in refl
