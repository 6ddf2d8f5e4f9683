-- ===== src/Eventstore/Flush/Paged.antt =====
-- File systems under Flush of internal/eventstore/store.go that meet the hypotheses on one: one that writes every
-- file, with a page for each row, and one that writes none.
use mathlib.Core.Path.{subst}
use leser.Prelude.{
  ◌≤◌, ◌≡◌, refl, sym, ap, ◌∙◌, true, none, List, [], ◌∷◌, append-nil, map, All, All-weaken, arith,
}
use leser.Prelude.Sorting.{Ordered}
use leser.Eventstore.{Event, Page, RowGroup, group_rows}
use leser.Eventstore.Groups.{Indexed, PageOk, Sorted}
use leser.Eventstore.Scans.{all_groups}
use leser.Eventstore.Flush.{Disk, Written, written, failed, ts_le}
use leser.Eventstore.Flush.Writes.{Faithful}

abbrev page : Event → Page
page e = record { min = e.timestamp; max = e.timestamp; rows = e ∷ [] }

abbrev pub paged : List Event → RowGroup
paged evs = record {
  pages = map page evs;
  indexed = true;
  fingerprints = none;
  releases = none;
  user_ids = none;
}

abbrev pub writing : Disk
writing path evs = written (paged evs ∷ [])

abbrev pub broken : Disk
broken path evs = failed

paged-rows : (evs : List Event) → group_rows (map page evs) ≡ evs
unfolding group_rows
paged-rows [] = refl
paged-rows (e ∷ evs) = ap (λ rows. e ∷ rows) (paged-rows evs)

Ordered-Sorted : (evs : List Event) → Ordered ts_le evs → Sorted evs
unfolding Ordered Sorted
Ordered-Sorted [] o = tt
Ordered-Sorted (e ∷ evs) o = (
  All-weaken _ (λ f. e.timestamp ≤ f.timestamp) evs (λ f h. ground arith) o.0,
  Ordered-Sorted evs o.1,
)

paged-Ok : (evs : List Event) → All PageOk (map page evs)
paged-Ok [] = tt
paged-Ok (e ∷ evs) = ((omega arith, ((omega arith, omega arith), tt)), paged-Ok evs)

admitted : (rows : List Event) → All (λ e. true ≡ true) rows
admitted [] = tt
admitted (e ∷ rows) = (refl, admitted rows)

paged-Indexed : (evs : List Event) → Ordered ts_le evs → Indexed (paged evs)
paged-Indexed evs o = record {
  sorted = subst Sorted (sym (paged-rows evs)) (Ordered-Sorted evs o);
  bounds = paged-Ok evs;
  fingerprints = admitted (group_rows (map page evs));
  releases = admitted (group_rows (map page evs));
  user_ids = admitted (group_rows (map page evs));
}

groups_of : Written → List RowGroup
groups_of (written groups) = groups
groups_of _ = []

pub writing-Faithful : Faithful writing
unfolding all_groups groups_of
writing-Faithful = record {
  rows = λ path evs groups o h.
      ap all_groups (sym (ap groups_of h))
      ∙ append-nil (group_rows (map page evs))
      ∙ paged-rows evs;
  indexed = λ path evs groups o h. subst (All Indexed) (ap groups_of h) (paged-Indexed evs o, tt);
}

pub broken-Faithful : Faithful broken
broken-Faithful = record {
  rows = λ path evs groups o h. absurd cc;
  indexed = λ path evs groups o h. absurd cc;
}
