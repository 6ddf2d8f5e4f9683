-- ===== src/Issues/Merges.antt =====
-- The merges of internal/metadata/issues.go: the parent of an issue, and updates of the rows; SplitIssue.
use leser.Prelude.{
  ℕ, ◌<◌, ◌≡◌, ◌⊎◌, sym, ap, ◌∙◌, some, map, All, arith, ◌==◌, Bool-cases, inl, inr,
}
use mathlib.Core.Path.{subst}
use leser.Issues.{Issue, ok, Table, select, when, by_id, split_here, split_issue}
use leser.Issues.Table.{DistinctIds, changed, select-map, All-map, DistinctIds-map}

-- The issue that another one is merged into: in the same project, and not merged itself.
pub record Parent (rows : Table) (i : Issue) : Type 0 where
  pub parent : Issue
  pub found : select (by_id i.merged_into) rows ≡ some parent
  pub project : parent.project_id ≡ i.project_id
  pub top : parent.merged_into ≡ 0

unfoldable pub OneHop : Table → Issue → Type 0
OneHop rows i = (i.merged_into ≡ 0) ⊎ Parent rows i

abbrev pub HasId : Issue → Type 0
HasId i = 0 < i.id

-- Ids are distinct and not 0, and every merge is one hop deep.
pub record Valid (rows : Table) : Type 0 where
  pub distinct : DistinctIds rows
  pub has_id : All HasId rows
  pub one_hop : All (OneHop rows) rows

pub map-Valid :
    (g : Issue → Issue) (rows : Table)
    → ((i : Issue) → (g i).id ≡ i.id)
    → Valid rows
    → ((i : Issue) → OneHop rows i → OneHop (map g rows) (g i))
    → Valid (map g rows)
map-Valid g rows same v hop = record {
  distinct = DistinctIds-map g rows same v.distinct;
  has_id = All-map HasId HasId g rows (λ i h. omega (arith, same i, h)) v.has_id;
  one_hop = All-map (OneHop rows) (OneHop (map g rows)) g rows hop v.one_hop;
}

-- An update that touches neither ids, projects nor merges
pub record Quiet (g : Issue → Issue) : Type 0 where
  pub id : (i : Issue) → (g i).id ≡ i.id
  pub project : (i : Issue) → (g i).project_id ≡ i.project_id
  pub merged : (i : Issue) → (g i).merged_into ≡ i.merged_into

pub select-by_id-map :
    (g : Issue → Issue) (rows : Table) (id : ℕ)
    → ((i : Issue) → (g i).id ≡ i.id)
    → select (by_id id) (map g rows) ≡ changed g (select (by_id id) rows)
select-by_id-map g rows id same = select-map (by_id id) g rows (λ i. ap (λ n. n == id) (same i))

pub Quiet-Valid : (g : Issue → Issue) (rows : Table) → Quiet g → Valid rows → Valid (map g rows)
unfolding OneHop
Quiet-Valid g rows q v = map-Valid g rows q.id v (λ i h. elim h [
  | inl top ↦ inl (q.merged i ∙ top)
  | inr p ↦ inr (record {
    parent = g p.parent;
    found =
        select-by_id-map g rows (g i).merged_into q.id
        ∙ ap (λ n. changed g (select (by_id n) rows)) (q.merged i)
        ∙ ap (changed g) p.found;
    project = q.project p.parent ∙ p.project ∙ sym (q.project i);
    top = q.merged p.parent ∙ p.top;
  })
])

pub split-Valid :
    (project src : ℕ) (rows rows' : Table)
    → Valid rows
    → split_issue project src rows ≡ ok rows'
    → Valid rows'
unfolding split_issue OneHop
split-Valid project src rows rows' v h =
    let g =
      when (split_here project src) (λ i. record i { merged_into = 0; status = "unresolved" }) in
    let same : (i : Issue) → (g i).id ≡ i.id = λ i. ground arith in
    let e : map g rows ≡ rows' = ground arith in
    subst Valid e (
      map-Valid g rows same v (λ i h. elim h [
        | inl top ↦ inl (ground arith)
        | inr p ↦ elim (Bool-cases (split_here project src i)) [
          | inl yes' ↦ inl (ground arith)
          | inr no' ↦ inr (record {
            parent = p.parent;
            found = rw no' (
                select-by_id-map g rows i.merged_into same
                ∙ ap (changed g) p.found
                ∙ ground (arith, p.top));
            project = ground (arith, p.project);
            top = p.top;
          })
        ]
      ]))
