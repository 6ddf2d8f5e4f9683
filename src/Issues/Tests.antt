-- ===== src/Issues/Tests.antt =====
-- Runs of internal/metadata/issues.go, and its theorems at inputs that meet their hypotheses.
use leser.Prelude.{ℕ, ◌≡◌, refl, false, List, [], ◌∷◌, String, ◌==◌}
use leser.Issues.{
  Issue, References, foreign_key, inserted, IssueUpsert, Table, ok, err, select, update, last_id,
  new_issue, target, target_status, new_status, see, insert_issue, count_event, upsert_issue,
  set_issue_status, absorb, merge_sources, merge_issues, split_issue, self_merge,
}
use leser.Issues.Merges.{Valid}
use leser.Issues.Transactions
use leser.Issues.Transactions.{Op, upsert, set_status, merge, apply, run}
use leser.Issues.Counts
use leser.Issues.Redirects

abbrev refs : References
refs = record { has_org = λ org. org == 1; has_project = λ project. project == 3 }

abbrev event : String → IssueUpsert
event fp = record {
  org_id = 1;
  project_id = 3;
  fingerprint = fp;
  basis = "";
  title = fp;
  level = "error";
  seen_at = 9;
}

abbrev row : ℕ → String → ℕ → String → ℕ → Issue
row id fp seen status merged = record {
  id = id;
  org_id = 1;
  project_id = 3;
  fingerprint = fp;
  basis = "";
  title = fp;
  level = "error";
  status = status;
  first_seen = 9;
  last_seen = 9;
  times_seen = seen;
  merged_into = merged;
}

abbrev ops : List Op
ops =
    upsert refs (event "a")
    ∷ upsert refs (event "b")
    ∷ upsert refs (event "b")
    ∷ set_status 3 1 "resolved"
    ∷ []

abbrev two : Table
two = row 1 "a" 1 "resolved" 0 ∷ row 2 "b" 2 "unresolved" 0 ∷ []

abbrev merged : Table
merged = row 1 "a" 3 "resolved" 0 ∷ row 2 "b" 2 "unresolved" 1 ∷ []

program : Unit {0}
unfolding select update last_id new_issue target target_status new_status see inserted insert_issue
    count_event upsert_issue set_issue_status absorb merge_sources merge_issues split_issue apply
    run
program = tt

counted : run ops [] ≡ two
unfolding program
counted = refl

merges : merge_issues 3 1 (2 ∷ []) two ≡ ok merged
unfolding program
merges = refl

-- An event of the merged issue reopens the target, which was resolved.
regresses :
    run (upsert refs (event "b") ∷ []) merged
    ≡ row 1 "a" 4 "regressed" 0 ∷ row 2 "b" 2 "unresolved" 1 ∷ []
unfolding program
regresses = refl

itself : merge_issues 3 1 (1 ∷ []) two ≡ err self_merge
unfolding program
itself = refl

run-Valid_example : Valid (run ops [])
run-Valid_example = Transactions.run-Valid ops

unknown_project :
    upsert_issue (record refs { has_project = λ project. false }) (event "c") two ≡ err foreign_key
unfolding program
unknown_project = refl
