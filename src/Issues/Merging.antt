-- ===== src/Issues/Merging.antt =====
-- MergeIssues of internal/metadata/issues.go: the updates for each source.
use leser.Prelude.{
  ℕ, ◌<◌, ◌≡◌, ◌≢◌, ◌⊎◌, refl, sym, ap, ◌∙◌, false, some, List, [], ◌∷◌, map, arith, ◌==◌,
  Bool-cases, Option-cases, inl, inr,
}
use mathlib.Core.Path.{subst}
use leser.Issues.{
  Issue, ok, Table, select, when, update, by_id, in_project, merge_into, add_seen, merged_from,
  absorb, merge_sources,
}
use leser.Issues.Table.{changed, select-test, All-select}
use leser.Issues.Merges.{OneHop, HasId, Valid, Quiet, map-Valid, select-by_id-map, Quiet-Valid}

-- The target of a merge: it is in the project, and not merged.
pub record Target (project t : ℕ) (rows : Table) : Type 0 where
  pub issue : Issue
  pub found : select (by_id t) rows ≡ some issue
  pub of_project : issue.project_id ≡ project
  pub top : issue.merged_into ≡ 0

map-map : (g h : Issue → Issue) (rows : Table) → map h (map g rows) ≡ map (λ i. h (g i)) rows
map-map g h [] = refl
map-map g h (i ∷ rows) = ap (λ x. h (g i) ∷ x) (map-map g h rows)

module _ (project t src : ℕ) (differ : src ≢ t) (positive : 0 < src) where
  -- What the first two updates of absorb do to a row
  abbrev pub repoint : Issue → Issue
  repoint i =
      when (merged_from project src) (merge_into t) (when (in_project project src) (merge_into t) i)

  pub repoint_id : (i : Issue) → (repoint i).id ≡ i.id
  repoint_id i = ground arith

  pub repoint_project : (i : Issue) → (repoint i).project_id ≡ i.project_id
  repoint_project i = ground arith

  -- A row is left alone or now points at the target.
  pub repoint_cases :
      (i : Issue)
      → (((repoint i).merged_into ≡ t) × (i.project_id ≡ project))
        ⊎ (((repoint i).merged_into ≡ i.merged_into)
            × (in_project project src i ≡ false)
            × (merged_from project src i ≡ false))
  repoint_cases i = ground arith

  repoint_top :
      (i : Issue)
      → i.merged_into ≡ 0
      → in_project project src i ≡ false
      → (repoint i).merged_into ≡ 0
  repoint_top i top h = ground arith

  repoint-Target : (rows : Table) → Target project t rows → Target project t (map repoint rows)
  repoint-Target rows g =
      let n = select-test (by_id t) rows g.issue g.found in
      record {
        issue = repoint g.issue;
        found = select-by_id-map repoint rows t repoint_id ∙ ap (changed repoint) g.found;
        of_project = repoint_project g.issue ∙ g.of_project;
        top = repoint_top g.issue g.top (ground (arith, differ));
      }

  repoint-Valid : (rows : Table) → Valid rows → Target project t rows → Valid (map repoint rows)
  unfolding OneHop
  repoint-Valid rows v g =
      let g' = repoint-Target rows g in
      map-Valid repoint rows repoint_id v (λ i h. elim (repoint_cases i) [
        | inl (here, p) ↦ inr (record {
          parent = g'.issue;
          found = ap (λ n. select (by_id n) (map repoint rows)) here ∙ g'.found;
          project = g'.of_project ∙ sym p ∙ sym (repoint_project i);
          top = g'.top;
        })
        | inr (same, a, b) ↦ elim h [
          | inl top ↦ inl (same ∙ top)
          | inr p ↦
              let n = select-test (by_id i.merged_into) rows p.parent p.found in
              inr (record {
                parent = repoint p.parent;
                found =
                    ap (λ n. select (by_id n) (map repoint rows)) same
                    ∙ select-by_id-map repoint rows i.merged_into repoint_id
                    ∙ ap (changed repoint) p.found;
                project = repoint_project p.parent ∙ p.project ∙ sym (repoint_project i);
                top = repoint_top p.parent p.top (ground (arith, p.project));
              })
        ]
      ])

add_seen-Quiet : (t count : ℕ) → Quiet (when (by_id t) (add_seen count))
add_seen-Quiet t count = record {
  id = λ i. ground arith;
  project = λ i. ground arith;
  merged = λ i. ground arith;
}

Quiet-Target :
    (g : Issue → Issue) (project t : ℕ) (rows : Table)
    → Quiet g
    → Target project t rows
    → Target project t (map g rows)
Quiet-Target g project t rows q h = record {
  issue = g h.issue;
  found = select-by_id-map g rows t q.id ∙ ap (changed g) h.found;
  of_project = q.project h.issue ∙ h.of_project;
  top = q.merged h.issue ∙ h.top;
}

pub record Merging (project t : ℕ) (rows : Table) : Type 0 where
  pub valid : Valid rows
  pub goal : Target project t rows

absorb-Merging :
    (project t src count : ℕ) (rows : Table)
    → src ≢ t
    → 0 < src
    → Merging project t rows
    → Merging project t (absorb project t src count rows)
unfolding absorb update
absorb-Merging project t src count rows d pos m =
    let q = add_seen-Quiet t count in
    let v = repoint-Valid project t src d pos rows m.valid m.goal in
    let g = repoint-Target project t src d pos rows m.goal in
    subst (λ x. Merging project t (map (when (by_id t) (add_seen count)) x))
      (sym (
        map-map (when (in_project project src) (merge_into t))
          (when (merged_from project src) (merge_into t)) rows))
      (record { valid = Quiet-Valid _ _ q v; goal = Quiet-Target _ project t _ q g })

pub merge_sources-Merging :
    (project t : ℕ) (sources : List ℕ) (rows rows' : Table)
    → Merging project t rows
    → merge_sources project t sources rows ≡ ok rows'
    → Merging project t rows'
unfolding merge_sources
merge_sources-Merging project t [] rows rows' m h =
    let e : rows ≡ rows' = ground arith in subst (Merging project t) e m
merge_sources-Merging project t (src ∷ sources) rows rows' m h = elim (Bool-cases (src == t)) [
  | inl self ↦ absurd (ground arith)
  | inr other ↦ elim (Option-cases (select (in_project project src) rows)) [
    | inl none' ↦ absurd (ground arith)
    | inr (s, found) ↦
        let pos = All-select HasId (in_project project src) rows s m.valid.has_id found in
        let n = select-test (in_project project src) rows s found in
        merge_sources-Merging project t sources (absorb project t src s.times_seen rows) rows'
          (absorb-Merging project t src s.times_seen rows (ground arith) (ground arith) m)
          (ground arith)
  ]
]
