-- ===== src/Issues/Redirects.antt =====
-- MergeIssues and then UpsertIssue of internal/metadata/issues.go, on the fingerprint of a source.
use leser.Prelude.{ℕ, ◌≡◌, false, some, String}
use leser.Issues.{
  Issue, References, IssueUpsert, IssueOutcome, ok, Table, select, when, by_id, in_project,
  by_fingerprint, upsert_issue, merge_into, add_seen, merged_from,
}

-- The issue of a fingerprint, and what it is merged into
pub record Points (project t : ℕ) (fp : String) (rows : Table) : Type 0 where
  pub issue : Issue
  pub found : select (by_fingerprint project fp) rows ≡ some issue
  pub merged : issue.merged_into ≡ t

module _ (project t : ℕ) (fp : String) where
  -- What absorb does to a row
  abbrev absorbed : ℕ → ℕ → Issue → Issue
  absorbed src count i = when (by_id t) (add_seen count) (
      when (merged_from project src) (merge_into t)
        (when (in_project project src) (merge_into t) i))

-- An event counted into an issue that is known already
pub record Redirected (refs : References) (t : ℕ) (u : IssueUpsert) (rows : Table) : Type 0 where
  pub outcome : IssueOutcome
  pub after : Table
  pub result : upsert_issue refs u rows ≡ ok (outcome, after)
  pub into : outcome.id ≡ t
  pub known : outcome.is_new ≡ false
