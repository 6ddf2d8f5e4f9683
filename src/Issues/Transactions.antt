-- ===== src/Issues/Transactions.antt =====
-- The transactions of internal/metadata/issues.go, one after another.
use leser.Prelude.{
  ℕ, ◌+◌, ◌≡◌, ◌⊎◌, refl, sym, ap, ◌∙◌, List, [], ◌∷◌, ◌++◌, map, any, All-append, All-weaken,
  arith, String, Bool-cases, Option-cases, inl, inr,
}
use mathlib.Core.Path.{subst}
use leser.Issues.{
  Issue, References, inserted, IssueUpsert, IssueOutcome, Error, Result, ok, err, Table, select,
  when, update, by_id, in_project, by_fingerprint, last_id, new_issue, target, target_status,
  new_status, see, insert_issue, count_event, upsert_issue, set_issue_status, may_be_target,
  merge_issues, split_issue,
}
use leser.Issues.Table.{
  DistinctIds, select-test, any-select, select-by_id, select-snoc, DistinctIds-snoc,
}
use leser.Issues.Merges.{OneHop, HasId, Valid, Quiet, Quiet-Valid, split-Valid}
use leser.Issues.Merging.{merge_sources-Merging}

pub data Op : Type 0 where
  upsert : References → IssueUpsert → Op
  set_status : ℕ → ℕ → String → Op
  merge : ℕ → ℕ → List ℕ → Op
  split : ℕ → ℕ → Op

abbrev pub tables : Result (IssueOutcome × Table) → Result Table
tables (ok (out, rows)) = ok rows
tables (err e) = err e

unfoldable pub apply : Op → Table → Result Table
apply (upsert refs u) rows = tables (upsert_issue refs u rows)
apply (set_status project id status) rows = set_issue_status project id status rows
apply (merge project t sources) rows = merge_issues project t sources rows
apply (split project src) rows = split_issue project src rows

-- A transaction that fails is rolled back.
abbrev pub or_else : Table → Result Table → Table
or_else rows (ok rows') = rows'
or_else rows (err e) = rows

unfoldable pub run : List Op → Table → Table
unfolding apply
run [] rows = rows
run (op ∷ ops) rows = run ops (or_else rows (apply op rows))

pub Result-cases :
    {A : Type 0} (r : Result A) → ((a : A) × (r ≡ ok a)) ⊎ ((e : Error) × (r ≡ err e))
Result-cases (ok a) = inl (a, refl)
Result-cases (err e) = inr (e, refl)

pub see-Quiet :
    (u : IssueUpsert) (status : String) (id : ℕ) → Quiet (when (by_id id) (see u status))
unfolding see
see-Quiet u status id = record {
  id = λ i. ground arith;
  project = λ i. ground arith;
  merged = λ i. ground arith;
}

status-Quiet :
    (project id : ℕ) (status : String)
    → Quiet (when (in_project project id) (λ i. record i { status = status }))
status-Quiet project id status = record {
  id = λ i. ground arith;
  project = λ i. ground arith;
  merged = λ i. ground arith;
}

set_status-Valid :
    (project id : ℕ) (status : String) (rows rows' : Table)
    → Valid rows
    → set_issue_status project id status rows ≡ ok rows'
    → Valid rows'
unfolding set_issue_status
set_status-Valid project id status rows rows' v h =
    let e : map (when (in_project project id) (λ i. record i { status = status })) rows ≡ rows' =
      ground arith in
    subst Valid e (Quiet-Valid _ rows (status-Quiet project id status) v)

pub merge-Valid :
    (project t : ℕ) (sources : List ℕ) (rows rows' : Table)
    → Valid rows
    → merge_issues project t sources rows ≡ ok rows'
    → Valid rows'
unfolding merge_issues
merge-Valid project t sources rows rows' v h =
    elim (Bool-cases (any (may_be_target project t) rows)) [
      | inr none' ↦ absurd (ground arith)
      | inl some' ↦
          let (i, found) = any-select (may_be_target project t) rows some' in
          let test = select-test (may_be_target project t) rows i found in
          let n : i.id ≡ t = ground arith in
          (merge_sources-Merging project t sources rows rows'
            (record {
              valid = v;
              goal = record {
                issue = i;
                found =
                    ap (λ k. select (by_id k) rows) (sym n)
                    ∙ select-by_id (may_be_target project t) rows i v.distinct found;
                of_project = ground arith;
                top = ground arith;
              };
            })
            (ground arith)).valid
    ]

insert-Valid : (u : IssueUpsert) (rows : Table) → Valid rows → Valid (inserted u rows).1
unfolding inserted new_issue OneHop
insert-Valid u rows v =
    let new = new_issue u (last_id rows + 1) in
    record {
      distinct = DistinctIds-snoc rows new v.distinct (omega arith);
      has_id = All-append HasId rows (new ∷ []) v.has_id (omega arith, tt);
      one_hop =
          All-append (OneHop (rows ++ new ∷ [])) rows (new ∷ [])
            (All-weaken (OneHop rows) (OneHop (rows ++ new ∷ [])) rows
              (λ i h. elim h [
                | inl top ↦ inl top
                | inr p ↦ inr (record {
                  parent = p.parent;
                  found = select-snoc (by_id i.merged_into) rows new ∙ ground (arith, p.found);
                  project = p.project;
                  top = p.top;
                })
              ])
              v.one_hop)
            (inl refl, tt);
    }

count-Valid :
    (u : IssueUpsert) (i : Issue) (rows : Table) (out : IssueOutcome) (rows' : Table)
    → Valid rows
    → count_event u i rows ≡ ok (out, rows')
    → Valid rows'
unfolding count_event update
count-Valid u i rows out rows' v h = elim (Result-cases (target_status i rows)) [
  | inr (e, bad) ↦ absurd (ground arith)
  | inl (status, good) ↦
      let q = see-Quiet u (new_status status) (target i) in
      elim (Option-cases (
        select (by_id (target i))
          (map (when (by_id (target i)) (see u (new_status status))) rows))) [
            | inl none' ↦ absurd (ground arith)
            | inr (seen, found) ↦
                let e : map (when (by_id (target i)) (see u (new_status status))) rows ≡ rows' =
                  ground arith in
                subst Valid e (Quiet-Valid _ rows q v)
          ]
]

upsert-Valid :
    (refs : References) (u : IssueUpsert) (rows : Table) (out : IssueOutcome) (rows' : Table)
    → Valid rows
    → upsert_issue refs u rows ≡ ok (out, rows')
    → Valid rows'
unfolding upsert_issue insert_issue
upsert-Valid refs u rows out rows' v h =
    elim (Option-cases (select (by_fingerprint u.project_id u.fingerprint) rows)) [
      | inl new ↦
          let e : (inserted u rows).1 ≡ rows' = ground arith in
          subst Valid e (insert-Valid u rows v)
      | inr (i, found) ↦ count-Valid u i rows out rows' v (ground arith)
    ]

kept :
    {rows : Table} (r : Result Table)
    → ((rows' : Table) → r ≡ ok rows' → Valid rows')
    → Valid rows
    → Valid (or_else rows r)
kept (ok rows') f v = f rows' refl
kept (err e) f v = v

apply-Valid : (op : Op) (rows : Table) → Valid rows → Valid (or_else rows (apply op rows))
unfolding apply
apply-Valid (upsert refs u) rows v = elim (Result-cases (upsert_issue refs u rows)) [
  | inl ((out, rows'), done) ↦ rw (done, apply) (upsert-Valid refs u rows out rows' v done)
  | inr (e, failed) ↦ rw (failed, apply) v
]
apply-Valid (set_status project id status) rows v =
    kept (set_issue_status project id status rows)
      (λ rows' h. set_status-Valid project id status rows rows' v h) v
apply-Valid (merge project t sources) rows v =
    kept (merge_issues project t sources rows)
      (λ rows' h. merge-Valid project t sources rows rows' v h) v
apply-Valid (split project src) rows v =
    kept (split_issue project src rows) (λ rows' h. split-Valid project src rows rows' v h) v

-- After any transactions on an empty table, ids are distinct and not 0, and an issue that is merged is
-- merged into an issue of its project that is not merged itself.
pub run-Valid : (ops : List Op) → Valid (run ops [])
unfolding run DistinctIds
run-Valid ops = go ops [] (record { distinct = tt; has_id = tt; one_hop = tt })
  where
    go : (ops : List Op) (rows : Table) → Valid rows → Valid (run ops rows)
    go [] rows v = v
    go (op ∷ ops) rows v = go ops _ (apply-Valid op rows v)
