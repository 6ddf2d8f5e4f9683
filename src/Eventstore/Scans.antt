-- ===== src/Eventstore/Scans.antt =====
-- Scan of internal/eventstore/query.go against the plain filter of all rows.
use leser.Prelude.{
  ℕ, zero, suc, ◌+◌, ◌-◌, ◌≤◌, ◌<◌, ◌≡◌, refl, sym, ap, ◌∙◌, true, false, ◌||◌, some, List, [], ◌∷◌,
  ◌++◌, All, All-weaken, arith, length, take, take-append_split, length-take-le, take_of_length-le,
  leb, Bool-cases, inl, inr,
}
use leser.Eventstore.{
  Event, Query, RowGroup, SegMeta, Store, matches, segment_may_match, pruned_by_time,
  pruned_by_bloom, group_rows, read_rows, scan_groups, scan_segment, scan_segments, hot_rows,
  limit_of, scan,
}
use leser.Eventstore.Groups.{
  matching, matching-append, matching-All, Indexed, pruned_by_time-matching,
  pruned_by_bloom-matching,
}

take_more :
    (n : ℕ) (e : Event) (rows : List Event) → 0 < n → take n (e ∷ rows) ≡ e ∷ take (n - 1) rows
take_more zero e rows h = absurd (omega arith)
take_more (suc n) e rows h = ap (λ k. e ∷ take k rows) (omega arith)

take_none : (n : ℕ) (rows : List Event) → n ≡ 0 → take n rows ≡ []
take_none zero rows h = refl
take_none (suc n) rows h = absurd (omega arith)

take_nil : (n : ℕ) → take {A = Event} n [] ≡ []
take_nil zero = refl
take_nil (suc n) = refl

read_rows_lem :
    (q : Query) (limit emitted : ℕ) (rows : List Event)
    → read_rows q limit emitted rows ≡ take (limit - emitted) (matching q rows)
unfolding read_rows matching
read_rows_lem q limit emitted [] = sym (take_nil (limit - emitted))
read_rows_lem q limit emitted (e ∷ rows) = elim (Bool-cases (leb limit emitted)) [
  | inl full ↦ rw full (sym (take_none (limit - emitted) _ (ground arith)))
  | inr room ↦ rw room (elim (Bool-cases (matches q e)) [
    | inr no' ↦ rw no' (read_rows_lem q limit emitted rows)
    | inl yes' ↦ rw yes' (
        ap (λ x. e ∷ x)
          (read_rows_lem q limit (emitted + 1) rows
            ∙ ap (λ n. take n (matching q rows)) (omega arith))
        ∙ sym (take_more (limit - emitted) e (matching q rows) (ground arith)))
  ])
]

-- The rest of a limit after some events, and the rest of the rows
rest_lem :
    (q : Query) (limit emitted : ℕ) (xs ys : List Event)
    → take (limit - emitted) (matching q xs)
        ++ take
            (limit - (emitted + length (take (limit - emitted) (matching q xs))))
            (matching q ys)
      ≡ take (limit - emitted) (matching q (xs ++ ys))
rest_lem q limit emitted xs ys =
    ap (λ n. take (limit - emitted) (matching q xs) ++ take n (matching q ys)) (omega arith)
    ∙ sym (take-append_split (limit - emitted) (matching q xs) (matching q ys))
    ∙ ap (take (limit - emitted)) (sym (matching-append q xs ys))

unfoldable pub all_groups : List RowGroup → List Event
all_groups [] = []
all_groups (g ∷ groups) = group_rows g.pages ++ all_groups groups

pruned-matching :
    (q : Query) (g : RowGroup)
    → Indexed g
    → (pruned_by_time q g || pruned_by_bloom q g) ≡ true
    → matching q (group_rows g.pages) ≡ []
pruned-matching q g i h =
    ground (arith, pruned_by_time-matching q g i, pruned_by_bloom-matching q g i)

scan_groups_lem :
    (q : Query) (limit emitted : ℕ) (groups : List RowGroup)
    → All Indexed groups
    → scan_groups q limit emitted groups ≡ take (limit - emitted) (matching q (all_groups groups))
unfolding scan_groups all_groups
scan_groups_lem q limit emitted [] i = unfold matching in sym (take_nil (limit - emitted))
scan_groups_lem q limit emitted (g ∷ groups) i =
    let rows = group_rows g.pages in
    elim (Bool-cases (leb limit emitted)) [
      | inl full ↦ rw full (sym (take_none (limit - emitted) _ (ground arith)))
      | inr room ↦ rw room (elim (Bool-cases (pruned_by_time q g || pruned_by_bloom q g)) [
        | inl skip ↦ rw skip (
            scan_groups_lem q limit emitted groups i.1
            ∙ ap (λ x. take (limit - emitted) (x ++ matching q (all_groups groups)))
                (sym (pruned-matching q g i.0 skip))
            ∙ ap (take (limit - emitted)) (sym (matching-append q rows (all_groups groups))))
        | inr read ↦ rw read (
            ap (λ x. x ++ scan_groups q limit (emitted + length x) groups)
              (read_rows_lem q limit emitted rows)
            ∙ ap (λ x. take (limit - emitted) (matching q rows) ++ x)
                (scan_groups_lem q limit
                  (emitted + length (take (limit - emitted) (matching q rows))) groups i.1)
            ∙ rest_lem q limit emitted rows (all_groups groups))
      ])
    ]

-- A segment as writeSegment leaves it: its rows are of its project and within its bounds.
pub record SegmentOk (m : SegMeta) : Type 0 where
  pub indexed : All Indexed m.groups
  pub rows :
      All
        (λ e. (e.project_id ≡ m.project_id) × (m.min_ts ≤ e.timestamp) × (e.timestamp ≤ m.max_ts))
        (all_groups m.groups)

unfoldable pub all_segments : List SegMeta → List Event
unfolding all_groups
all_segments [] = []
all_segments (m ∷ segs) = all_groups m.groups ++ all_segments segs

unmatched :
    (q : Query) (m : SegMeta) (e : Event)
    → segment_may_match q m ≡ false
    → (e.project_id ≡ m.project_id) × (m.min_ts ≤ e.timestamp) × (e.timestamp ≤ m.max_ts)
    → matches q e ≡ false
unfolding segment_may_match matches
unmatched q m e h w = ground arith

pub skipped-matching :
    (q : Query) (m : SegMeta)
    → SegmentOk m
    → segment_may_match q m ≡ false
    → matching q (all_groups m.groups) ≡ []
skipped-matching q m ok h =
    matching-All q _
      (All-weaken _ (λ e. matches q e ≡ false) _ (λ e w. unmatched q m e h w) ok.rows)

scan_segments_lem :
    (q : Query) (limit emitted : ℕ) (segs : List SegMeta)
    → All SegmentOk segs
    → scan_segments q limit emitted segs ≡ take (limit - emitted) (matching q (all_segments segs))
unfolding scan_segments scan_segment all_segments
scan_segments_lem q limit emitted [] ok = unfold matching in sym (take_nil (limit - emitted))
scan_segments_lem q limit emitted (m ∷ segs) ok =
    let rows = all_groups m.groups in
    elim (Bool-cases (segment_may_match q m)) [
      | inr skip ↦ rw skip (
          scan_segments_lem q limit emitted segs ok.1
          ∙ ap (λ x. take (limit - emitted) (x ++ matching q (all_segments segs)))
              (sym (skipped-matching q m ok.0 skip))
          ∙ ap (take (limit - emitted)) (sym (matching-append q rows (all_segments segs))))
      | inl open' ↦ rw open' (elim (Bool-cases (leb limit emitted)) [
        | inl full ↦ rw full (sym (take_none (limit - emitted) _ (ground arith)))
        | inr room ↦ rw room (
            ap (λ x. x ++ scan_segments q limit (emitted + length x) segs)
              (scan_groups_lem q (limit - emitted) 0 m.groups ok.0.indexed
                ∙ ap (λ n. take n (matching q rows)) (omega arith))
            ∙ ap (λ x. take (limit - emitted) (matching q rows) ++ x)
                (scan_segments_lem q limit
                  (emitted + length (take (limit - emitted) (matching q rows))) segs ok.1)
            ∙ rest_lem q limit emitted rows (all_segments segs))
      ])
    ]

hot_rows_lem :
    (q : Query) (limit found : ℕ) (buf : List Event)
    → found < limit
    → hot_rows q limit found buf ≡ take (limit - found) (matching q buf)
unfolding hot_rows matching
hot_rows_lem q limit found [] h = sym (take_nil (limit - found))
hot_rows_lem q limit found (e ∷ buf) h = elim (Bool-cases (matches q e)) [
  | inr no' ↦ rw no' (hot_rows_lem q limit found buf h)
  | inl yes' ↦ rw yes' (elim (Bool-cases (leb limit (found + 1))) [
    | inl full ↦ rw full (
        ap (λ x. e ∷ x) (sym (take_none (limit - found - 1) (matching q buf) (ground arith)))
        ∙ sym (take_more (limit - found) e (matching q buf) (omega arith)))
    | inr room ↦ rw room (
        ap (λ x. e ∷ x)
          (hot_rows_lem q limit (found + 1) buf (ground arith)
            ∙ ap (λ n. take n (matching q buf)) (omega arith))
        ∙ sym (take_more (limit - found) e (matching q buf) (omega arith)))
  ])
]

hot_lem :
    (q : Query) (limit : ℕ) (buf : List Event)
    → 0 < limit
    → take limit (hot_rows q limit 0 buf) ≡ take (limit - 0) (matching q buf)
hot_lem q limit buf h =
    let all = hot_rows_lem q limit 0 buf h in
    let short : length (take (limit - 0) (matching q buf)) ≤ limit =
      omega (arith, length-take-le (limit - 0) (matching q buf)) in
    ap (take limit) all ∙ take_of_length-le limit (take (limit - 0) (matching q buf)) short

tiers_lem :
    (q : Query) (limit : ℕ) (s : Store)
    → All SegmentOk s.segs
    → 0 < limit
    → take limit (hot_rows q limit 0 s.buf)
        ++ scan_segments q limit (length (take limit (hot_rows q limit 0 s.buf))) s.segs
      ≡ take limit (matching q (s.buf ++ all_segments s.segs))
tiers_lem q limit s ok h =
    let hot = take (limit - 0) (matching q s.buf) in
    ap (λ x. x ++ scan_segments q limit (length x) s.segs) (hot_lem q limit s.buf h)
    ∙ ap (λ x. hot ++ x)
        (scan_segments_lem q limit (length hot) s.segs ok
          ∙ ap (λ n. take n (matching q (all_segments s.segs))) (omega arith))
    ∙ rest_lem q limit 0 s.buf (all_segments s.segs)
    ∙ ap (λ n. take n (matching q (s.buf ++ all_segments s.segs))) (omega arith)

-- In a store of which the segments are as writeSegment leaves them, the Scan of a query with a project and
-- a limit gives the events that match, of the buffer and then of the segments in order, up to the limit:
-- the pruning by segments, row groups and Bloom filters leaves none of them out.
pub scan_lem :
    (q : Query) (s : Store)
    → All SegmentOk s.segs
    → 0 < q.project_id
    → 0 < limit_of s q
    → scan q s ≡ some (take (limit_of s q) (matching q (s.buf ++ all_segments s.segs)))
unfolding scan
scan_lem q s ok project limit =
    let whole = tiers_lem q (limit_of s q) s ok limit in ground (arith, whole)
