-- ===== src/Ring/Sorts.antt =====
-- What sort.Slice promises to SetNodes of internal/cluster/ring.go, and that its result is no other where no two
-- entries have the same hash.
use mathlib.Core.List.{Permᴰ}
use mathlib.Core.List.Permᴰ as PermD
use mathlib.Core.Path.{subst}
use leser.Prelude.{
  ◌≡◌, refl, sym, ap, ◌∙◌, Bool, true, false, not, ◌&&◌, List, [], ◌∷◌, any, All, arith, ◌==◌,
  Bool-cases, inl, inr,
}
use leser.Prelude.Permutations.{All-Permᴰ, sort_by-Permᴰ}
use leser.Prelude.Sorting.{keep, All-keep, Ordered, insert_by, sort_by, sort_by-Ordered}
use leser.Ring.{RingEntry, hash_le}
use leser.Ring.Nodes.{hash_le-TotalOrder}

-- sort.Slice puts the entries it is given in the order of their hashes.
pub record Sorts (sort : List RingEntry → List RingEntry) : Type 0 where
  pub same : (es : List RingEntry) → Permᴰ (sort es) es
  pub ordered : (es : List RingEntry) → Ordered hash_le (sort es)

-- No two entries have the same hash.
unfoldable pub distinct_hashes : List RingEntry → Bool
distinct_hashes [] = true
distinct_hashes (e ∷ es) = not (any (λ f. f.hash == e.hash) es) && distinct_hashes es

abbrev pub Apart : RingEntry → List RingEntry → Type 0
Apart e es = All (λ f. (f.hash == e.hash) ≡ false) es

unfoldable pub Distinct : List RingEntry → Type 0
Distinct [] = Unit
Distinct (e ∷ es) = Apart e es × Distinct es

Apart-of :
    (e : RingEntry) (es : List RingEntry) → any (λ f. f.hash == e.hash) es ≡ false → Apart e es
Apart-of e [] h = tt
Apart-of e (f ∷ es) h = (ground arith, Apart-of e es (ground arith))

pub Distinct-of : (es : List RingEntry) → distinct_hashes es ≡ true → Distinct es
unfolding distinct_hashes Distinct
Distinct-of [] h = tt
Distinct-of (e ∷ es) h = (Apart-of e es (ground arith), Distinct-of es (ground arith))

pub Distinct-keep :
    (p : RingEntry → Bool) (es : List RingEntry) → Distinct es → Distinct (keep p es)
unfolding Distinct keep
Distinct-keep p [] d = tt
Distinct-keep p (e ∷ es) d = elim (Bool-cases (p e)) [
  | inl kept ↦ rw kept (All-keep p (λ f. (f.hash == e.hash) ≡ false) es d.0, Distinct-keep p es d.1)
  | inr gone ↦ rw gone (Distinct-keep p es d.1)
]

Distinct-Permᴰ : {es fs : List RingEntry} → Permᴰ es fs → Distinct es → Distinct fs
unfolding Distinct
Distinct-Permᴰ Permᴰ.nil d = tt
Distinct-Permᴰ (Permᴰ.cons {a = a} {b = b} {l₂ = fs} p h) d = (
  subst (λ x. Apart x fs) p (All-Permᴰ (λ f. (f.hash == a.hash) ≡ false) h d.0),
  Distinct-Permᴰ h d.1,
)
Distinct-Permᴰ (Permᴰ.swap {a = a} {b = b} {a' = a'} {b' = b'} {l = l} p q) d = (
  (ground (arith, d.0.0, ap (λ e. e.hash) p, ap (λ e. e.hash) q), subst (λ x. Apart x l) q d.1.0),
  (subst (λ x. Apart x l) p d.0.1, d.1.1),
)
Distinct-Permᴰ (Permᴰ.trans h k) d = Distinct-Permᴰ k (Distinct-Permᴰ h d)

insert_by-insert_by :
    (e f : RingEntry) (es : List RingEntry)
    → (f.hash == e.hash) ≡ false
    → insert_by hash_le e (insert_by hash_le f es) ≡ insert_by hash_le f (insert_by hash_le e es)
unfolding insert_by
insert_by-insert_by e f [] h = ground arith
insert_by-insert_by e f (g ∷ es) h = ground (arith, insert_by-insert_by e f es h)

sort_by_unique :
    {es fs : List RingEntry} → Permᴰ es fs → Distinct es → sort_by hash_le es ≡ sort_by hash_le fs
unfolding sort_by Distinct
sort_by_unique Permᴰ.nil d = refl
sort_by_unique (Permᴰ.cons {a = a} {b = b} p h) d =
    λ i. insert_by hash_le (p i) (sort_by_unique h d.1 i)
sort_by_unique (Permᴰ.swap {a = a} {b = b} {a' = a'} {b' = b'} {l = l} p q) d =
    insert_by-insert_by a b (sort_by hash_le l) d.0.0
    ∙ (λ i. insert_by hash_le (q i) (insert_by hash_le (p i) (sort_by hash_le l)))
sort_by_unique (Permᴰ.trans h k) d = sort_by_unique h d ∙ sort_by_unique k (Distinct-Permᴰ h d)

insert_by_first :
    (e : RingEntry) (es : List RingEntry)
    → All (λ f. hash_le e f ≡ true) es
    → insert_by hash_le e es ≡ e ∷ es
unfolding insert_by
insert_by_first e [] h = refl
insert_by_first e (f ∷ es) h = rw h.0 refl

sort_by-of_Ordered : (es : List RingEntry) → Ordered hash_le es → sort_by hash_le es ≡ es
unfolding sort_by Ordered
sort_by-of_Ordered [] o = refl
sort_by-of_Ordered (e ∷ es) o =
    ap (insert_by hash_le e) (sort_by-of_Ordered es o.1) ∙ insert_by_first e es o.0

-- On entries of distinct hashes there is only one result.
pub sort_lem :
    (sort : List RingEntry → List RingEntry) (es : List RingEntry)
    → Sorts sort
    → Distinct es
    → sort es ≡ sort_by hash_le es
sort_lem sort es s d =
    sym (sort_by-of_Ordered (sort es) (s.ordered es))
    ∙ sym (sort_by_unique (PermD.symm (s.same es)) d)

pub sort_by-Sorts : Sorts (sort_by hash_le)
sort_by-Sorts = record {
  same = sort_by-Permᴰ hash_le;
  ordered = sort_by-Ordered hash_le hash_le-TotalOrder;
}
