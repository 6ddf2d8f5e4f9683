-- ===== src/Eventstore/Groups.antt =====
-- Row groups as writeSegment of internal/eventstore/store.go has them written, and the pruning of
-- query.go.
use leser.Prelude.{
  ℕ, ◌≤◌, ◌<◌, ◌≡◌, refl, ap, Bool, true, false, Option, none, some, List, [], ◌∷◌, ◌++◌, String,
  eq_iff, All, All-append, All-weaken, length-append, arith, length, last?, if◌then◌else◌,
  Option-cases, inl, inr,
}
use leser.Eventstore.{
  Event, Query, Page, RowGroup, wants, matches, out_of_time, pruned_by_time, absent,
  pruned_by_bloom, group_rows,
}

-- The rows that match, in order
unfoldable pub matching : Query → List Event → List Event
matching q [] = []
matching q (e ∷ rows) = let rest = matching q rows in if matches q e then e ∷ rest else rest

pub matching-append :
    (q : Query) (xs ys : List Event) → matching q (xs ++ ys) ≡ matching q xs ++ matching q ys
unfolding matching
matching-append q [] ys = refl
matching-append q (e ∷ xs) ys = ground (arith, matching-append q xs ys)

pub matching-All :
    (q : Query) (rows : List Event) → All (λ e. matches q e ≡ false) rows → matching q rows ≡ []
unfolding matching
matching-All q [] h = refl
matching-All q (e ∷ rows) h = ground (arith, h.0, matching-All q rows h.1)

-- Rows by time, as writeSegment sorts them
unfoldable pub Sorted : List Event → Type 0
Sorted [] = Unit
Sorted (e ∷ rows) = All (λ f. e.timestamp ≤ f.timestamp) rows × Sorted rows

abbrev pub admits : Option (String → Bool) → String → Bool
admits none value = true
admits (some filter) value = filter value

abbrev pub Within : Page → Event → Type 0
Within p e = (p.min ≤ e.timestamp) × (e.timestamp ≤ p.max)

abbrev pub PageOk : Page → Type 0
PageOk p = (0 < length p.rows) × All (Within p) p.rows

-- What the index and the filters of a written group say is so of its rows.
pub record Indexed (g : RowGroup) : Type 0 where
  pub sorted : Sorted (group_rows g.pages)
  pub bounds : All PageOk g.pages
  pub fingerprints : All (λ e. admits g.fingerprints e.fingerprint ≡ true) (group_rows g.pages)
  pub releases : All (λ e. admits g.releases e.release ≡ true) (group_rows g.pages)
  pub user_ids : All (λ e. admits g.user_ids e.user_id ≡ true) (group_rows g.pages)

first_page :
    (p : Page) (rest : List Event)
    → PageOk p
    → Sorted (p.rows ++ rest)
    → All (λ e. p.min ≤ e.timestamp) (p.rows ++ rest)
unfolding Sorted
first_page p rest ok s = go p.rows ok.0 ok.1 s
  where
    go :
        (rows : List Event)
        → 0 < length rows
        → All (Within p) rows
        → Sorted (rows ++ rest)
        → All (λ e. p.min ≤ e.timestamp) (rows ++ rest)
    go [] h w s = absurd (omega arith)
    go (e ∷ rows) h w s = (
      w.0.0,
      All-weaken (λ f. e.timestamp ≤ f.timestamp) (λ f. p.min ≤ f.timestamp) (rows ++ rest)
          (λ f l. omega (arith, l, w.0.0)) s.0,
    )

All-in :
    (P : Event → Type 0) (xs : List Event) (f : Event) (ys : List Event)
    → All P (xs ++ f ∷ ys)
    → P f
All-in P [] f ys h = h.0
All-in P (x ∷ xs) f ys h = All-in P xs f ys h.1

-- Rows before a row are not later than it.
before :
    (bound : ℕ) (xs : List Event) (f : Event) (ys : List Event)
    → Sorted (xs ++ f ∷ ys)
    → f.timestamp ≤ bound
    → All (λ e. e.timestamp ≤ bound) xs
unfolding Sorted
before bound [] f ys s h = tt
before bound (e ∷ xs) f ys s h = (
  omega (arith, All-in (λ g. e.timestamp ≤ g.timestamp) xs f ys s.0, h),
  before bound xs f ys s.1 h,
)

Sorted-after : (xs ys : List Event) → Sorted (xs ++ ys) → Sorted ys
unfolding Sorted
Sorted-after [] ys s = s
Sorted-after (x ∷ xs) ys s = Sorted-after xs ys s.1

before_later :
    (bound : ℕ) (xs ys : List Event)
    → 0 < length ys
    → Sorted (xs ++ ys)
    → All (λ e. e.timestamp ≤ bound) ys
    → All (λ e. e.timestamp ≤ bound) (xs ++ ys)
before_later bound xs [] h s a = absurd (omega arith)
before_later bound xs (f ∷ ys) h s a =
    All-append (λ e. e.timestamp ≤ bound) xs (f ∷ ys) (before bound xs f ys s a.0) a

last_page :
    (p : Page) (pages : List Page) (last : Page)
    → last? (p ∷ pages) ≡ some last
    → All PageOk (p ∷ pages)
    → Sorted (group_rows (p ∷ pages))
    → All (λ e. e.timestamp ≤ last.max) (group_rows (p ∷ pages))
unfolding group_rows
last_page p [] last h ok s =
    let same : p ≡ last = ground arith in
    All-append (λ e. e.timestamp ≤ last.max) p.rows []
      (All-weaken (Within p) (λ e. e.timestamp ≤ last.max) p.rows
        (λ e w. omega (arith, w.1, ap (λ x. x.max) same)) ok.0.1)
      tt
last_page p (p' ∷ pages) last h ok s =
    before_later last.max p.rows (p'.rows ++ group_rows pages)
      (omega (arith, ok.1.0.0, length-append p'.rows (group_rows pages))) s
      (last_page p' pages last h ok.1 (Sorted-after p.rows _ s))

All-both :
    (P Q R : Event → Type 0) (rows : List Event)
    → ((e : Event) → P e → Q e → R e)
    → All P rows
    → All Q rows
    → All R rows
All-both P Q R [] f a b = tt
All-both P Q R (e ∷ rows) f a b = (f e a.0 b.0, All-both P Q R rows f a.1 b.1)

late :
    (q : Query) (first last : Page) (e : Event)
    → out_of_time q first last ≡ true
    → first.min ≤ e.timestamp
    → e.timestamp ≤ last.max
    → matches q e ≡ false
unfolding out_of_time matches
late q first last e h lo hi = ground arith

pub pruned_by_time-matching :
    (q : Query) (g : RowGroup)
    → Indexed g
    → pruned_by_time q g ≡ true
    → matching q (group_rows g.pages) ≡ []
unfolding pruned_by_time group_rows
pruned_by_time-matching q g i h = go g.pages i.bounds i.sorted (ground arith)
  where
    go :
        (pages : List Page)
        → All PageOk pages
        → Sorted (group_rows pages)
        → elim pages [
          | [] ↦ false
          | first ∷ rest ↦ elim (last? (first ∷ rest)) [
            | none ↦ false
            | some last ↦ out_of_time q first last
          ]
        ]
          ≡ true
        → matching q (group_rows pages) ≡ []
    go [] ok s h = absurd (ground arith)
    go (p ∷ pages) ok s h = elim (Option-cases (last? (p ∷ pages))) [
      | inl none' ↦ absurd (ground arith)
      | inr (last, at) ↦ matching-All q _ (
          All-both _ _ (λ e. matches q e ≡ false) _
            (λ e lo hi. late q p last e (ground arith) lo hi)
            (first_page p (group_rows pages) ok.0 s) (last_page p pages last at ok s))
    ]

unmatched :
    (q : Query) (e : Event) (filters : Option (String → Bool)) (want have : String)
    → admits filters have ≡ true
    → absent want filters ≡ true
    → wants want have ≡ false
unmatched q e none want have a h = cc
unmatched q e (some filter) want have a h = ground (arith, eq_iff have want, ap filter)

pub pruned_by_bloom-matching :
    (q : Query) (g : RowGroup)
    → Indexed g
    → pruned_by_bloom q g ≡ true
    → matching q (group_rows g.pages) ≡ []
unfolding pruned_by_bloom matches
pruned_by_bloom-matching q g i h =
    let rows = group_rows g.pages in
    let two =
      All-both (λ e. admits g.releases e.release ≡ true) (λ e. admits g.user_ids e.user_id ≡ true)
        (λ e. (admits g.releases e.release ≡ true) × (admits g.user_ids e.user_id ≡ true)) rows
        (λ e a b. (a, b)) i.releases i.user_ids in
    matching-All q rows (
      All-both (λ e. admits g.fingerprints e.fingerprint ≡ true)
        (λ e. (admits g.releases e.release ≡ true) × (admits g.user_ids e.user_id ≡ true))
        (λ e. matches q e ≡ false) rows
        (λ e a b. ground (
          arith,
          unmatched q e g.fingerprints q.fingerprint e.fingerprint a,
          unmatched q e g.releases q.release e.release b.0,
          unmatched q e g.user_ids q.user_id e.user_id b.1,
        ))
        i.fingerprints two)
