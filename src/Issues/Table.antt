-- ===== src/Issues/Table.antt =====
-- Selecting from and updating the rows of internal/metadata/issues.go.
use leser.Prelude.{
  ℕ, ◌<◌, ◌≡◌, refl, ap, ◌∙◌, Bool, true, Option, none, some, [], ◌∷◌, ◌++◌, map, any, All, arith,
  ==_iff, ◌==◌, if◌then◌else◌, Bool-cases, inl, inr,
}
use leser.Issues.{Issue, Table, select, by_id, last_id}

-- Every row has an id of its own.
unfoldable pub DistinctIds : Table → Type 0
DistinctIds [] = Unit
DistinctIds (i ∷ rows) = (select (by_id i.id) rows ≡ none) × DistinctIds rows

-- A row after an update
abbrev pub changed : (Issue → Issue) → Option Issue → Option Issue
changed g none = none
changed g (some i) = some (g i)

pub select-map :
    (p : Issue → Bool) (g : Issue → Issue) (rows : Table)
    → ((i : Issue) → p (g i) ≡ p i)
    → select p (map g rows) ≡ changed g (select p rows)
unfolding select
select-map p g [] h = refl
select-map p g (i ∷ rows) h = ground (arith, h i, select-map p g rows h)

pub select-test :
    (p : Issue → Bool) (rows : Table) (i : Issue) → select p rows ≡ some i → p i ≡ true
unfolding select
select-test p [] i h = cc
select-test p (j ∷ rows) i h = ground (arith, ap p, select-test p rows i)

pub any-select :
    (p : Issue → Bool) (rows : Table) → any p rows ≡ true → (i : Issue) × (select p rows ≡ some i)
unfolding select
any-select p [] h = cc
any-select p (i ∷ rows) h = elim (Bool-cases (p i)) [
  | inl here ↦ (i, rw here refl)
  | inr there ↦ let r = any-select p rows (rw there at h) in (r.0, rw there r.1)
]

pub All-select :
    (P : Issue → Type 0) (p : Issue → Bool) (rows : Table) (i : Issue)
    → All P rows
    → select p rows ≡ some i
    → P i
unfolding select
All-select P p [] i a h = cc
All-select P p (j ∷ rows) i a h = elim (Bool-cases (p j)) [
  | inl here ↦ let e : j ≡ i = ground arith in rw e at a.0
  | inr there ↦ All-select P p rows i a.1 (rw there at h)
]

pub All-map :
    (P Q : Issue → Type 0) (g : Issue → Issue) (rows : Table)
    → ((i : Issue) → P i → Q (g i))
    → All P rows
    → All Q (map g rows)
All-map P Q g [] h a = tt
All-map P Q g (i ∷ rows) h a = (h i a.0, All-map P Q g rows h a.1)

-- A row that is selected is the one that its id selects.
pub select-by_id :
    (p : Issue → Bool) (rows : Table) (i : Issue)
    → DistinctIds rows
    → select p rows ≡ some i
    → select (by_id i.id) rows ≡ some i
unfolding select DistinctIds
select-by_id p [] i d h = cc
select-by_id p (j ∷ rows) i d h =
    ground (arith, d.0, select-by_id p rows i d.1, ==_iff j.id i.id, ==_iff i.id i.id)

pub DistinctIds-map :
    (g : Issue → Issue) (rows : Table)
    → ((i : Issue) → (g i).id ≡ i.id)
    → DistinctIds rows
    → DistinctIds (map g rows)
unfolding DistinctIds
DistinctIds-map g [] h d = tt
DistinctIds-map g (i ∷ rows) h d = (
  select-map (by_id (g i).id) g rows (λ j. ap (λ n. n == (g i).id) (h j))
      ∙ ap (λ n. changed g (select (by_id n) rows)) (h i)
      ∙ ap (changed g) d.0,
  DistinctIds-map g rows h d.1,
)

pub select-snoc :
    (p : Issue → Bool) (rows : Table) (new : Issue)
    → select p (rows ++ new ∷ [])
      ≡ elim (select p rows) [ some i ↦ some i | none ↦ if p new then some new else none ]
unfolding select
select-snoc p [] new = refl
select-snoc p (i ∷ rows) new = ground (arith, select-snoc p rows new)

pub fresh_id : (rows : Table) (id : ℕ) → last_id rows < id → select (by_id id) rows ≡ none
unfolding select last_id
fresh_id [] id h = refl
fresh_id (i ∷ rows) id h = ground (arith, fresh_id rows id)

pub DistinctIds-snoc :
    (rows : Table) (new : Issue)
    → DistinctIds rows
    → last_id rows < new.id
    → DistinctIds (rows ++ new ∷ [])
unfolding DistinctIds select last_id
DistinctIds-snoc [] new d h = (refl, tt)
DistinctIds-snoc (i ∷ rows) new d h = (
  ground (arith, d.0, select-snoc (by_id i.id) rows new),
  DistinctIds-snoc rows new d.1 (omega arith),
)
