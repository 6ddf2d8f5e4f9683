-- ===== src/Issues.antt =====
-- internal/metadata/issues.go: the issues table and the transactions on it. A statement of SQL is the
-- function on the list of rows that it describes; a transaction that fails leaves the table as it was.
use leser.Prelude.{
  ℕ, ◌+◌, Bool, true, false, not, ◌&&◌, ◌||◌, Option, none, some, List, [], ◌∷◌, ◌++◌, map, any,
  String, str_eq, max, ◌==◌, if◌then◌else◌,
}
pub mod Table
pub mod Merges
pub mod Merging
pub mod Transactions
pub mod Counts
pub mod Redirects
mod Tests

-- merged_into 0 is NULL.
pub record Issue : Type 0 where
  pub id : ℕ
  pub org_id : ℕ
  pub project_id : ℕ
  pub fingerprint : String
  pub basis : String
  pub title : String
  pub level : String
  pub status : String
  pub first_seen : ℕ
  pub last_seen : ℕ
  pub times_seen : ℕ
  pub merged_into : ℕ

pub record IssueUpsert : Type 0 where
  pub org_id : ℕ
  pub project_id : ℕ
  pub fingerprint : String
  pub basis : String
  pub title : String
  pub level : String
  pub seen_at : ℕ

pub record IssueOutcome : Type 0 where
  pub id : ℕ
  pub is_new : Bool
  pub regressed : Bool
  pub times_seen : ℕ
  pub status : String

-- The rows of organizations and projects, which the table's REFERENCES ask for
pub record References : Type 0 where
  pub has_org : ℕ → Bool
  pub has_project : ℕ → Bool

pub data Error : Type 0 where
  bad_upsert not_found self_merge no_rows foreign_key : Error
  invalid_status : String → Error

pub data Result (A : Type 0) : Type 0 where
  ok : A → Result A
  err : Error → Result A

infixl 5 ◌>>=◌
abbrev pub ◌>>=◌ : {A B : Type 0} → Result A → (A → Result B) → Result B
ok a >>= f = f a
err e >>= f = err e

abbrev pub found_or : {A : Type 0} → Error → Option A → Result A
found_or e none = err e
found_or e (some a) = ok a

abbrev pub Table : Type 0
Table = List Issue

-- SELECT ... WHERE, UPDATE ... WHERE
unfoldable pub select : (Issue → Bool) → Table → Option Issue
select p [] = none
select p (i ∷ rows) = let rest = select p rows in if p i then some i else rest

abbrev pub when : (Issue → Bool) → (Issue → Issue) → Issue → Issue
when p f i = if p i then f i else i

unfoldable pub update : (Issue → Bool) → (Issue → Issue) → Table → Table
update p f rows = map (when p f) rows

abbrev pub by_id : ℕ → Issue → Bool
by_id id i = i.id == id

abbrev pub in_project : ℕ → ℕ → Issue → Bool
in_project project id i = (i.id == id) && (i.project_id == project)

abbrev pub by_fingerprint : ℕ → String → Issue → Bool
by_fingerprint project fp i = (i.project_id == project) && str_eq i.fingerprint fp

-- INTEGER PRIMARY KEY: one above the highest id
unfoldable pub last_id : Table → ℕ
last_id [] = 0
last_id (i ∷ rows) = max i.id (last_id rows)

unfoldable pub new_issue : IssueUpsert → ℕ → Issue
new_issue u id = record {
  id = id;
  org_id = u.org_id;
  project_id = u.project_id;
  fingerprint = u.fingerprint;
  basis = u.basis;
  title = u.title;
  level = u.level;
  status = "unresolved";
  first_seen = u.seen_at;
  last_seen = u.seen_at;
  times_seen = 1;
  merged_into = 0;
}

-- The issue that an event of an issue counts into.
unfoldable pub target : Issue → ℕ
target i = if i.merged_into == 0 then i.id else i.merged_into

unfoldable pub target_status : Issue → Table → Result String
target_status i rows =
    if i.merged_into == 0
    then ok i.status
    else elim (select (by_id i.merged_into) rows) [ none ↦ err no_rows | some t ↦ ok t.status ]

unfoldable pub new_status : String → String
new_status status = if str_eq status "resolved" then "regressed" else status

unfoldable pub see : IssueUpsert → String → Issue → Issue
see u status i = record i {
  last_seen = max i.last_seen u.seen_at;
  times_seen = i.times_seen + 1;
  level = u.level;
  status = status;
}

unfoldable pub inserted : IssueUpsert → Table → IssueOutcome × Table
inserted u rows =
    let id = last_id rows + 1 in
    (
      record { id = id; is_new = true; regressed = false; times_seen = 1; status = "unresolved" },
      rows ++ new_issue u id ∷ [],
    )

-- The row must refer to an organization and a project that there are.
unfoldable pub insert_issue : References → IssueUpsert → Table → Result (IssueOutcome × Table)
unfolding inserted
insert_issue refs u rows =
    if refs.has_org u.org_id && refs.has_project u.project_id
    then ok (inserted u rows)
    else err foreign_key

unfoldable pub count_event : IssueUpsert → Issue → Table → Result (IssueOutcome × Table)
count_event u i rows = do
  status ← target_status i rows
  let rows' = update (by_id (target i)) (see u (new_status status)) rows
  seen ← found_or no_rows (select (by_id (target i)) rows')
  ok (
    record {
      id = target i;
      is_new = false;
      regressed = str_eq status "resolved";
      times_seen = seen.times_seen;
      status = new_status status;
    },
    rows',
  )

unfoldable pub upsert_issue : References → IssueUpsert → Table → Result (IssueOutcome × Table)
upsert_issue refs u rows =
    if (u.project_id == 0) || str_eq u.fingerprint ""
    then err bad_upsert
    else elim (select (by_fingerprint u.project_id u.fingerprint) rows) [
      | none ↦ insert_issue refs u rows
      | some i ↦ count_event u i rows
    ]

unfoldable pub get_issue : ℕ → ℕ → Table → Result Issue
get_issue project id rows = found_or not_found (select (in_project project id) rows)

-- An UPDATE that must affect a row
abbrev pub update_some : (Issue → Bool) → (Issue → Issue) → Table → Result Table
update_some p f rows = if any p rows then ok (update p f rows) else err not_found

unfoldable pub set_issue_status : ℕ → ℕ → String → Table → Result Table
unfolding update
set_issue_status project id status rows =
    if str_eq status "unresolved" || str_eq status "resolved" || str_eq status "ignored"
    then update_some (in_project project id) (λ i. record i { status = status }) rows
    else err (invalid_status status)

abbrev pub merge_into : ℕ → Issue → Issue
merge_into t i = record i { merged_into = t }

abbrev pub add_seen : ℕ → Issue → Issue
add_seen count i = record i { times_seen = i.times_seen + count }

abbrev pub merged_from : ℕ → ℕ → Issue → Bool
merged_from project src i = (i.merged_into == src) && (i.project_id == project)

-- The three updates for one source
unfoldable pub absorb : ℕ → ℕ → ℕ → ℕ → Table → Table
absorb project t src count rows = update (by_id t) (add_seen count) (
    update (merged_from project src) (merge_into t)
      (update (in_project project src) (merge_into t) rows))

-- The loop of MergeIssues over the sources
unfoldable pub merge_sources : ℕ → ℕ → List ℕ → Table → Result Table
merge_sources project t [] rows = ok rows
merge_sources project t (src ∷ sources) rows = if src == t then err self_merge else do
  s ← found_or not_found (select (in_project project src) rows)
  merge_sources project t sources (absorb project t src s.times_seen rows)

abbrev pub may_be_target : ℕ → ℕ → Issue → Bool
may_be_target project t i = in_project project t i && (i.merged_into == 0)

unfoldable pub merge_issues : ℕ → ℕ → List ℕ → Table → Result Table
merge_issues project t sources rows =
    if any (may_be_target project t) rows
    then merge_sources project t sources rows
    else err not_found

abbrev pub split_here : ℕ → ℕ → Issue → Bool
split_here project src i = in_project project src i && not (i.merged_into == 0)

unfoldable pub split_issue : ℕ → ℕ → Table → Result Table
unfolding update
split_issue project src rows =
    update_some (split_here project src) (λ i. record i { merged_into = 0; status = "unresolved" })
      rows
