-- ===== src/Issues/Counts.antt =====
-- UpsertIssue of internal/metadata/issues.go: the counts of the issues.
use leser.Prelude.{
  ℕ, ◌+◌, ◌<◌, ◌≡◌, refl, ap, ◌∙◌, false, none, some, [], ◌∷◌, map, arith, String, str_eq, ==_iff,
  ◌==◌, Bool-cases, inl, inr,
}
use leser.Issues.{
  Issue, References, IssueUpsert, IssueOutcome, ok, Table, select, when, update, by_id,
  by_fingerprint, target, target_status, new_status, see, count_event, upsert_issue,
}
use leser.Issues.Table.{DistinctIds, changed, select-test, All-select, select-by_id}
use leser.Issues.Merges.{OneHop, Valid, select-by_id-map}
use leser.Issues.Transactions.{see-Quiet}

unfoldable pub total_seen : Table → ℕ
total_seen [] = 0
total_seen (i ∷ rows) = i.times_seen + total_seen rows

unseen-total :
    (u : IssueUpsert) (status : String) (id : ℕ) (rows : Table)
    → select (by_id id) rows ≡ none
    → total_seen (map (when (by_id id) (see u status)) rows) ≡ total_seen rows
unfolding total_seen select see
unseen-total u status id [] h = refl
unseen-total u status id (i ∷ rows) h = ground (arith, unseen-total u status id rows)

seen-total :
    (u : IssueUpsert) (status : String) (id : ℕ) (rows : Table) (t : Issue)
    → DistinctIds rows
    → select (by_id id) rows ≡ some t
    → total_seen (map (when (by_id id) (see u status)) rows) ≡ total_seen rows + 1
unfolding total_seen select see DistinctIds
seen-total u status id [] t d h = cc
seen-total u status id (i ∷ rows) t d h = ground (
  arith,
  d.0,
  ==_iff i.id id,
  ap (λ n. select (by_id n) rows),
  unseen-total u status id rows,
  seen-total u status id rows t d.1,
)

-- An event counted: the outcome, the table, and the issue that it counts into.
pub record Counted (refs : References) (u : IssueUpsert) (rows : Table) : Type 0 where
  pub outcome : IssueOutcome
  pub after : Table
  pub issue : Issue
  pub result : upsert_issue refs u rows ≡ ok (outcome, after)
  pub once : total_seen after ≡ total_seen rows + 1
  pub found : select (by_id outcome.id) after ≡ some issue
  pub project : issue.project_id ≡ u.project_id
  pub seen : outcome.times_seen ≡ issue.times_seen
  pub unresolved : str_eq outcome.status "resolved" ≡ false

not_resolved : (status : String) → str_eq (new_status status) "resolved" ≡ false
unfolding new_status
not_resolved status = elim (Bool-cases (str_eq status "resolved")) [
  | inl yes' ↦ rw (yes', new_status) refl
  | inr no' ↦ rw (no', new_status) no'
]

-- The row that an event of an issue counts into, and its status
pub target-Parent :
    (i : Issue) (rows : Table)
    → select (by_id i.id) rows ≡ some i
    → OneHop rows i
    → (t : Issue) × (select (by_id (target i)) rows ≡ some t)
      × (target_status i rows ≡ ok t.status)
      × (t.project_id ≡ i.project_id)
unfolding OneHop target target_status
target-Parent i rows self h = elim (Bool-cases (i.merged_into == 0)) [
  | inl top ↦ (i, rw top self, rw top refl, refl)
  | inr merged ↦ elim h [
    | inl top ↦ absurd (ground arith)
    | inr p ↦ (p.parent, rw merged p.found, rw (merged, p.found) refl, p.project)
  ]
]

count-Counted :
    (refs : References) (u : IssueUpsert) (rows : Table) (i : Issue)
    → Valid rows
    → select (by_fingerprint u.project_id u.fingerprint) rows ≡ some i
    → upsert_issue refs u rows ≡ count_event u i rows
    → Counted refs u rows
unfolding count_event update new_status
count-Counted refs u rows i v h r =
    let p = by_fingerprint u.project_id u.fingerprint in
    let test = select-test p rows i h in
    let (t, found, status, project) =
      target-Parent i rows (select-by_id p rows i v.distinct h)
        (All-select (OneHop rows) p rows i v.one_hop h) in
    let q = see-Quiet u (new_status t.status) (target i) in
    let g = when (by_id (target i)) (see u (new_status t.status)) in
    let at : select (by_id (target i)) (map g rows) ≡ some (g t) =
      select-by_id-map g rows (target i) q.id ∙ ap (changed g) found in
    record {
      outcome = record {
        id = target i;
        is_new = false;
        regressed = str_eq t.status "resolved";
        times_seen = (g t).times_seen;
        status = new_status t.status;
      };
      after = map g rows;
      issue = g t;
      result = r ∙ rw (status, at, count_event) refl;
      once = seen-total u (new_status t.status) (target i) rows t v.distinct found;
      found = at;
      project = q.project t ∙ project ∙ ground arith;
      seen = refl;
      unresolved = not_resolved t.status;
    }

-- An event of a known issue
pub known-Counted :
    (refs : References) (u : IssueUpsert) (rows : Table) (i : Issue)
    → Valid rows
    → 0 < u.project_id
    → str_eq u.fingerprint "" ≡ false
    → select (by_fingerprint u.project_id u.fingerprint) rows ≡ some i
    → Counted refs u rows
unfolding upsert_issue
known-Counted refs u rows i v p f found = count-Counted refs u rows i v found (ground arith)
