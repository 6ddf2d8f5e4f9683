-- ===== src/Eventstore/Aggregate/Counts.antt =====
-- The maps of counters of internal/eventstore/aggregate.go: what has been counted under a key.
use mathlib.Core.List.{Permᴰ}
use text.Mathlib.TextEquality.{eq_iff}
use leser.Prelude.{
  ℕ, Bool, take, ◌+◌, ◌≤◌, ◌≡◌, refl, ap, ◌∙◌, not, ◌&&◌, List, [], ◌∷◌, String, str_eq, length,
  arith, ◌==◌, if◌then◌else◌,
}
use leser.Prelude.Permutations.{sort_by-Permᴰ}
use leser.Prelude.Sorting.{keep, sort_by, Ordered, TotalOrder, sort_by-Ordered}
use leser.Eventstore.{Event}
use leser.Eventstore.Aggregate.{Bucket, Kv, bump, bump_bucket, kv_le, bucket_le, top}

-- The sum of what `f` gives for the entries
unfoldable pub sum_of {ℓ} : {A : Type ℓ} → (A → ℕ) → List A → ℕ
sum_of f [] = 0
sum_of f (x ∷ xs) = f x + sum_of f xs

pub sum_of-Permᴰ {ℓ} :
    {A : Type ℓ} {xs ys : List A} (f : A → ℕ) → Permᴰ xs ys → sum_of f xs ≡ sum_of f ys
unfolding sum_of
sum_of-Permᴰ f Permᴰ.nil = refl
sum_of-Permᴰ f (Permᴰ.cons p h) = omega (arith, ap f p, sum_of-Permᴰ f h)
sum_of-Permᴰ f (Permᴰ.swap p q) = omega (arith, ap f p, ap f q)
sum_of-Permᴰ f (Permᴰ.trans h k) = sum_of-Permᴰ f h ∙ sum_of-Permᴰ f k

-- The counts under a key, and the number of entries that it has
abbrev pub counted : String → Kv → ℕ
counted k kv = if str_eq kv.key k then kv.count else 0

abbrev pub entry : String → Kv → ℕ
entry k kv = if str_eq kv.key k then 1 else 0

abbrev pub counted_in : ℕ → Bucket → ℕ
counted_in start b = if b.start == start then b.count else 0

abbrev pub entry_in : ℕ → Bucket → ℕ
entry_in start b = if b.start == start then 1 else 0

counted-bump :
    (k j : String) (kvs : List Kv)
    → sum_of (counted k) (bump j kvs) ≡ (if str_eq j k then 1 else 0) + sum_of (counted k) kvs
unfolding sum_of bump
counted-bump k j [] = ground arith
counted-bump k j (kv ∷ kvs) =
    ground (arith, eq_iff kv.key j, eq_iff kv.key k, eq_iff j k, counted-bump k j kvs)

entry-bump :
    (k j : String) (kvs : List Kv)
    → sum_of (entry k) (bump j kvs)
      ≡ (if str_eq j k && (sum_of (entry k) kvs == 0) then 1 else sum_of (entry k) kvs)
unfolding sum_of bump
entry-bump k j [] = ground arith
entry-bump k j (kv ∷ kvs) =
    ground (arith, eq_iff kv.key j, eq_iff kv.key k, eq_iff j k, entry-bump k j kvs)

counted-bump_bucket :
    (k j : ℕ) (buckets : List Bucket)
    → sum_of (counted_in k) (bump_bucket j buckets)
      ≡ (if j == k then 1 else 0) + sum_of (counted_in k) buckets
unfolding sum_of bump_bucket
counted-bump_bucket k j [] = ground arith
counted-bump_bucket k j (b ∷ buckets) = ground (arith, counted-bump_bucket k j buckets)

entry-bump_bucket :
    (k j : ℕ) (buckets : List Bucket)
    → sum_of (entry_in k) (bump_bucket j buckets)
      ≡ (if (j == k) && (sum_of (entry_in k) buckets == 0) then 1 else sum_of (entry_in k) buckets)
unfolding sum_of bump_bucket
entry-bump_bucket k j [] = ground arith
entry-bump_bucket k j (b ∷ buckets) = ground (arith, entry-bump_bucket k j buckets)

-- The rows counted by a key
unfoldable pub bumps : (Event → String) → List Event → List Kv → List Kv
bumps key [] kvs = kvs
bumps key (e ∷ rows) kvs = bumps key rows (bump (key e) kvs)

unfoldable pub bump_buckets : (Event → ℕ) → List Event → List Bucket → List Bucket
bump_buckets start [] buckets = buckets
bump_buckets start (e ∷ rows) buckets = bump_buckets start rows (bump_bucket (start e) buckets)

-- The number of the rows with a key
abbrev pub with_key : (Event → String) → String → List Event → ℕ
with_key key k rows = length (keep (λ e. str_eq (key e) k) rows)

abbrev pub with_start : (Event → ℕ) → ℕ → List Event → ℕ
with_start start s rows = length (keep (λ e. start e == s) rows)

module _ (key : Event → String) (k : String) where
  counted-bumps :
      (rows : List Event) (kvs : List Kv)
      → sum_of (counted k) (bumps key rows kvs) ≡ with_key key k rows + sum_of (counted k) kvs
  unfolding bumps keep
  counted-bumps [] kvs = omega arith
  counted-bumps (e ∷ rows) kvs =
      ground (arith, counted-bumps rows (bump (key e) kvs), counted-bump k (key e) kvs)

  entry-bumps :
      (rows : List Event) (kvs : List Kv)
      → sum_of (entry k) kvs ≤ 1
      → sum_of (entry k) (bumps key rows kvs) ≤ 1
  unfolding bumps
  entry-bumps [] kvs h = h
  entry-bumps (e ∷ rows) kvs h =
      entry-bumps rows (bump (key e) kvs) (ground (arith, entry-bump k (key e) kvs))

module _ (start : Event → ℕ) (s : ℕ) where
  counted-bump_buckets :
      (rows : List Event) (buckets : List Bucket)
      → sum_of (counted_in s) (bump_buckets start rows buckets)
        ≡ with_start start s rows + sum_of (counted_in s) buckets
  unfolding bump_buckets keep
  counted-bump_buckets [] buckets = omega arith
  counted-bump_buckets (e ∷ rows) buckets = ground (
    arith,
    counted-bump_buckets rows (bump_bucket (start e) buckets),
    counted-bump_bucket s (start e) buckets,
  )

  entry-bump_buckets :
      (rows : List Event) (buckets : List Bucket)
      → sum_of (entry_in s) buckets ≤ 1
      → sum_of (entry_in s) (bump_buckets start rows buckets) ≤ 1
  unfolding bump_buckets
  entry-bump_buckets [] buckets h = h
  entry-bump_buckets (e ∷ rows) buckets h =
      entry-bump_buckets rows (bump_bucket (start e) buckets)
        (ground (arith, entry-bump_bucket s (start e) buckets))

abbrev named : Kv → Bool
named kv = not (str_eq kv.key "")

-- The entries without the empty key
counted-named :
    (k : String) (kvs : List Kv)
    → sum_of (counted k) (keep named kvs) ≡ (if str_eq k "" then 0 else sum_of (counted k) kvs)
unfolding sum_of keep
counted-named k [] = ground arith
counted-named k (kv ∷ kvs) =
    ground (arith, eq_iff kv.key "", eq_iff kv.key k, eq_iff k "", counted-named k kvs)

entry-named :
    (k : String) (kvs : List Kv)
    → sum_of (entry k) (keep named kvs) ≡ (if str_eq k "" then 0 else sum_of (entry k) kvs)
unfolding sum_of keep
entry-named k [] = ground arith
entry-named k (kv ∷ kvs) =
    ground (arith, eq_iff kv.key "", eq_iff kv.key k, eq_iff k "", entry-named k kvs)

-- The greatest counts of the rows by a key: `all` has one entry for each key of the rows but the empty one,
-- with the number of the rows that have it.
pub record Top (n : ℕ) (key : Event → String) (rows : List Event) (tops : List Kv) : Type 0 where
  pub all : List Kv
  pub first : tops ≡ take n (sort_by kv_le all)
  pub counts :
      (k : String) → sum_of (counted k) all ≡ (if str_eq k "" then 0 else with_key key k rows)
  pub single : (k : String) → sum_of (entry k) all ≤ 1

pub top-bumps :
    (n : ℕ) (key : Event → String) (rows : List Event) → Top n key rows (top n (bumps key rows []))
unfolding top sum_of
top-bumps n key rows = record {
  all = keep named (bumps key rows []);
  first = refl;
  counts = λ k. ground (arith, counted-named k (bumps key rows []), counted-bumps key k rows []);
  single = λ k.
      ground (arith, entry-named k (bumps key rows []), entry-bumps key k rows [] (omega arith));
}

-- The rows by time: one bucket for each start, in the order of time.
pub record Timeline (start : Event → ℕ) (rows : List Event) (buckets : List Bucket) : Type 0 where
  pub counts : (s : ℕ) → sum_of (counted_in s) buckets ≡ with_start start s rows
  pub single : (s : ℕ) → sum_of (entry_in s) buckets ≤ 1
  pub ordered : Ordered bucket_le buckets

bucket_le-TotalOrder : TotalOrder bucket_le
bucket_le-TotalOrder = record { total = λ x y h. ground arith; trans = λ x y z h k. ground arith }

pub sort_by-Timeline :
    (start : Event → ℕ) (rows : List Event)
    → Timeline start rows (sort_by bucket_le (bump_buckets start rows []))
unfolding sum_of
sort_by-Timeline start rows =
    let all = bump_buckets start rows [] in
    let same = sort_by-Permᴰ bucket_le all in
    record {
      counts = λ s.
          omega (arith, sum_of-Permᴰ (counted_in s) same, counted-bump_buckets start s rows []);
      single = λ s.
          omega (
            arith,
            sum_of-Permᴰ (entry_in s) same,
            entry-bump_buckets start s rows [] (omega arith),
          );
      ordered = sort_by-Ordered bucket_le bucket_le-TotalOrder all;
    }
