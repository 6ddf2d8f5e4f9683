-- ===== src/Eventstore/Flush/Writes.antt =====
-- writeSegment of internal/eventstore/store.go, and the loop of Flush over the partitions.
use mathlib.Core.List.{Permᴰ}
use mathlib.Core.List.Permᴰ as PermD
use mathlib.Core.Path.{subst}
use leser.Prelude.{
  ℕ, suc, ◌+◌, ◌≤◌, ◌<◌, ◌≡◌, refl, sym, ap, ◌∙◌, Option, none, some, List, [], ◌∷◌, All,
  All-weaken, Bool-cases, inl, inr, arith, ◌⊎◌,
}
use leser.Prelude.Bytes.{bytes_eq_iff}
use leser.Prelude.Permutations.{Permᴰ-of_eq, All-Permᴰ, sort_by-Permᴰ}
use leser.Prelude.Sorting.{sort_by, Ordered, TotalOrder, sort_by-Ordered}
use leser.Prelude.Texts.{number_from, after, number_from-pad, after-append, pad-All}
use leser.Eventstore.{Event, RowGroup, SegPath, SegMeta, Store}
use leser.Eventstore.Groups.{Indexed}
use leser.Eventstore.Scans.{SegmentOk, all_groups}
use leser.Eventstore.Flush.{
  Partition, segment_name, Disk, Written, written, no_dir, failed, same_path, replace_file, ts_le,
  first_ts, last_ts, write_segment,
}
use leser.Eventstore.Flush.Partitions.{InPartition, PartitionOk}

-- The count in the name of a file
abbrev pub count_of : SegMeta → ℕ
count_of m = number_from 0 (after b'-' m.path.name)

pub count-segment_name :
    (min_ts count : ℕ) → number_from 0 (after b'-' (segment_name min_ts count)) ≡ count
unfolding segment_name
count-segment_name min_ts count =
    ap (number_from 0) (after-append b'-' _ _ (pad-All 16 16 min_ts))
    ∙ number_from-pad 6 (suc count) count (omega arith)

-- The files are older than those of the counts above n.
abbrev pub Older : ℕ → List SegMeta → Type 0
Older n segs = All (λ m. count_of m ≤ n) segs

-- A file is written with the rows that were given, and with what the index and the filters say of them.
pub record Faithful (disk : Disk) : Type 0 where
  pub rows :
      (path : SegPath) (evs : List Event) (groups : List RowGroup)
      → Ordered ts_le evs
      → disk path evs ≡ written groups
      → all_groups groups ≡ evs
  pub indexed :
      (path : SegPath) (evs : List Event) (groups : List RowGroup)
      → Ordered ts_le evs
      → disk path evs ≡ written groups
      → All Indexed groups

ts_le-TotalOrder : TotalOrder ts_le
ts_le-TotalOrder = record { total = λ x y h. ground arith; trans = λ x y z h k. ground arith }

-- A file of a new name replaces none.
replace_file-Older :
    (path : SegPath) (groups : List RowGroup) (n : ℕ) (segs : List SegMeta)
    → Older n segs
    → n < number_from 0 (after b'-' path.name)
    → replace_file path groups segs ≡ segs
unfolding replace_file
replace_file-Older path groups n [] h new = refl
replace_file-Older path groups n (m ∷ segs) h new = elim (Bool-cases (same_path m.path path)) [
  | inl yes' ↦
      let same : m.path.name ≡ path.name = ground (arith, bytes_eq_iff m.path.name path.name) in
      absurd (omega (arith, h.0, new, ap (λ s. number_from 0 (after b'-' s)) same))
  | inr no' ↦ rw no' (ap (λ ms. m ∷ ms) (replace_file-Older path groups n segs h.1 new))
]

first_ts-Ordered :
    (evs : List Event) → Ordered ts_le evs → All (λ e. first_ts evs ≤ e.timestamp) evs
unfolding Ordered
first_ts-Ordered [] h = tt
first_ts-Ordered (e ∷ evs) h =
    (omega arith, All-weaken _ (λ f. e.timestamp ≤ f.timestamp) evs (λ f k. ground arith) h.0)

last_ts-Ordered : (evs : List Event) → Ordered ts_le evs → All (λ e. e.timestamp ≤ last_ts evs) evs
unfolding Ordered
last_ts-Ordered [] h = tt
last_ts-Ordered (e ∷ []) h = (omega arith, tt)
last_ts-Ordered (e ∷ f ∷ evs) h =
    let more = last_ts-Ordered (f ∷ evs) h.1 in (ground (arith, more.0, h.0.0), more)

All-both :
    (P Q : Event → Type 0) (evs : List Event) → All P evs → All Q evs → All (λ e. P e × Q e) evs
All-both P Q [] h k = tt
All-both P Q (e ∷ evs) h k = ((h.0, k.0), All-both P Q evs h.1 k.1)

-- What writeSegment comes to: no segment, or one that holds the events.
pub record SegmentOf (evs : List Event) (n : ℕ) (m : SegMeta) : Type 0 where
  pub ok : SegmentOk m
  pub rows : Permᴰ (all_groups m.groups) evs
  pub count : count_of m ≤ n

abbrev pub Segment? : List Event → ℕ → Option SegMeta → Type 0
Segment? evs n none = Unit
Segment? evs n (some m) = SegmentOf evs n m

-- What is left of a store but for the count of its files
pub record Grown (s s' : Store) : Type 0 where
  pub buf : s'.buf ≡ s.buf
  pub segs : s'.segs ≡ s.segs
  pub count : s.flush_count ≤ s'.flush_count

Written-cases :
    (w : Written)
    → (w ≡ no_dir) ⊎ ((w ≡ failed) ⊎ ((groups : List RowGroup) × (w ≡ written groups)))
Written-cases no_dir = inl refl
Written-cases failed = inr (inl refl)
Written-cases (written groups) = inr (inr (groups, refl))

module _ (disk : Disk) (faithful : Faithful disk) where
  written-Ok :
      (p : Partition) (m : SegMeta)
      → PartitionOk p
      → m.project_id ≡ p.proj
      → m.min_ts ≡ first_ts (sort_by ts_le p.events)
      → m.max_ts ≡ last_ts (sort_by ts_le p.events)
      → disk m.path (sort_by ts_le p.events) ≡ written m.groups
      → SegmentOk m
  written-Ok p m ok project low high w =
      let evs = sort_by ts_le p.events in
      let order : Ordered ts_le evs = sort_by-Ordered ts_le ts_le-TotalOrder p.events in
      let own = All-Permᴰ (InPartition p) (PermD.symm (sort_by-Permᴰ ts_le p.events)) ok.rows in
      let bounds = All-both _ _ evs (first_ts-Ordered evs order) (last_ts-Ordered evs order) in
      let all =
        All-weaken _
          (λ e. (e.project_id ≡ m.project_id) × (m.min_ts ≤ e.timestamp) × (e.timestamp ≤ m.max_ts))
          evs (λ e h. (h.0.0 ∙ sym project, omega (arith, low, h.1.0), omega (arith, high, h.1.1)))
          (All-both _ _ evs own bounds) in
      record {
        indexed = faithful.indexed m.path evs m.groups order w;
        rows = subst (All _) (sym (faithful.rows m.path evs m.groups order w)) all;
      }

  pub write_segment_lem :
      (p : Partition) (s : Store)
      → PartitionOk p
      → Older s.flush_count s.segs
      → Grown s (write_segment disk p.proj p.hour p.events s).1
        × Segment? p.events
            (write_segment disk p.proj p.hour p.events s).1.flush_count
            (write_segment disk p.proj p.hour p.events s).0
  unfolding write_segment
  write_segment_lem p s ok old =
      let evs = sort_by ts_le p.events in
      let path : SegPath = record {
        project_dir = p.proj;
        hour_dir = p.hour;
        name = segment_name (first_ts evs) (s.flush_count + 1);
      } in
      elim (Written-cases (disk path evs)) [
        | inl none' ↦
            rw (none', write_segment) (record { buf = refl; segs = refl; count = omega arith }, tt)
        | inr (inl failed') ↦
            rw (failed', write_segment)
              (record { buf = refl; segs = refl; count = omega arith }, tt)
        | inr (inr (groups, w)) ↦
            let count = count-segment_name (first_ts evs) (s.flush_count + 1) in
            rw (w, write_segment)
              (
                record {
                  buf = refl;
                  segs =
                      replace_file-Older path groups s.flush_count s.segs old
                        (omega (arith, count));
                  count = omega arith;
                },
                record {
                  ok = written-Ok p _ ok refl refl refl w;
                  rows =
                      Permᴰ.trans
                        (Permᴰ-of_eq (
                          faithful.rows path evs groups
                            (sort_by-Ordered ts_le ts_le-TotalOrder p.events) w))
                        (sort_by-Permᴰ ts_le p.events);
                  count = omega (arith, count);
                },
              )
      ]
