-- ===== src/Prelude/Sorting.antt =====
-- Go's sort.Slice and sort.Strings as an insertion sort, and the filter of a list.
use mathlib.Core.Bool.{Bool, true, false}
use mathlib.Core.List.{List, [], ◌∷◌, ◌++◌}
use mathlib.Core.Logic.{inl, inr}
use mathlib.Core.Path.{◌≡◌, refl}
use native.Mathlib.Omega.{arith}
use leser.Prelude.Lists.{All, All-weaken}
use leser.Prelude.Tests.{Bool-cases, if◌then◌else◌}

module _ {ℓ} {A : Type ℓ} (p : A → Bool) where
  unfoldable pub keep : List A → List A
  keep [] = []
  keep (x ∷ xs) = let rest = keep xs in if p x then x ∷ rest else rest

  pub keep-append : (xs ys : List A) → keep (xs ++ ys) ≡ keep xs ++ keep ys
  unfolding keep
  keep-append [] ys = refl
  keep-append (x ∷ xs) ys = ground (arith, keep-append xs ys)

  pub All-keep {κ} : (P : A → Type κ) (xs : List A) → All P xs → All P (keep xs)
  unfolding keep
  All-keep P [] h = tt
  All-keep P (x ∷ xs) h = elim (Bool-cases (p x)) [
    | inl yes' ↦ rw yes' (h.0, All-keep P xs h.1)
    | inr no' ↦ rw no' (All-keep P xs h.1)
  ]

module _ {ℓ} {A : Type ℓ} (le : A → A → Bool) where
  unfoldable pub insert_by : A → List A → List A
  insert_by x [] = x ∷ []
  insert_by x (y ∷ ys) = let rest = insert_by x ys in if le x y then x ∷ y ∷ ys else y ∷ rest

  unfoldable pub sort_by : List A → List A
  unfolding insert_by
  sort_by [] = []
  sort_by (x ∷ xs) = insert_by x (sort_by xs)

  unfoldable pub Ordered : List A → Type ℓ
  Ordered [] = Unit
  Ordered (x ∷ xs) = All (λ y. le x y ≡ true) xs × Ordered xs

-- The tests of an order
pub record TotalOrder {ℓ} {A : Type ℓ} (le : A → A → Bool) : Type ℓ where
  pub total : (x y : A) → le x y ≡ false → le y x ≡ true
  pub trans : (x y z : A) → le x y ≡ true → le y z ≡ true → le x z ≡ true

module _ {ℓ} {A : Type ℓ} (le : A → A → Bool) (order : TotalOrder le) where
  All-insert_by {κ} :
      (P : A → Type κ) (x : A) (ys : List A) → P x → All P ys → All P (insert_by le x ys)
  unfolding insert_by
  All-insert_by P x [] h a = (h, tt)
  All-insert_by P x (y ∷ ys) h a = elim (Bool-cases (le x y)) [
    | inl yes' ↦ rw yes' (h, a)
    | inr no' ↦ rw no' (a.0, All-insert_by P x ys h a.1)
  ]

  below :
      (x y : A) (ys : List A)
      → le x y ≡ true
      → Ordered le (y ∷ ys)
      → All (λ z. le x z ≡ true) (y ∷ ys)
  unfolding Ordered
  below x y ys h o = (h, All-weaken _ _ ys (λ z k. order.trans x y z h k) o.0)

  insert_by-Ordered : (x : A) (ys : List A) → Ordered le ys → Ordered le (insert_by le x ys)
  unfolding insert_by Ordered
  insert_by-Ordered x [] o = (tt, tt)
  insert_by-Ordered x (y ∷ ys) o = elim (Bool-cases (le x y)) [
    | inl yes' ↦ rw yes' (below x y ys yes' o, o)
    | inr no' ↦ rw no' (
      All-insert_by (λ z. le y z ≡ true) x ys (order.total x y no') o.0,
      insert_by-Ordered x ys o.1,
    )
  ]

  pub sort_by-Ordered : (xs : List A) → Ordered le (sort_by le xs)
  unfolding sort_by
  sort_by-Ordered [] = unfold Ordered in tt
  sort_by-Ordered (x ∷ xs) = insert_by-Ordered x (sort_by le xs) (sort_by-Ordered xs)

  insert_by_front : (x : A) (ys : List A) → All (λ y. le x y ≡ true) ys → insert_by le x ys ≡ x ∷ ys
  unfolding insert_by
  insert_by_front x [] h = refl
  insert_by_front x (y ∷ ys) h = ground (arith, h.0)

  keep-insert_by :
      (p : A → Bool) (x : A) (ys : List A)
      → Ordered le ys
      → keep p (insert_by le x ys) ≡ (if p x then insert_by le x (keep p ys) else keep p ys)
  unfolding insert_by keep Ordered
  keep-insert_by p x [] o = ground arith
  keep-insert_by p x (y ∷ ys) o = elim (Bool-cases (le x y)) [
    | inl yes' ↦
        let front =
          insert_by_front x (keep p (y ∷ ys)) (All-keep p _ (y ∷ ys) (below x y ys yes' o)) in
        ground (arith, front)
    | inr no' ↦ ground (arith, keep-insert_by p x ys o.1)
  ]

  pub keep-sort_by : (p : A → Bool) (xs : List A) → keep p (sort_by le xs) ≡ sort_by le (keep p xs)
  unfolding sort_by keep
  keep-sort_by p [] = refl
  keep-sort_by p (x ∷ xs) =
      ground (arith, keep-insert_by p x (sort_by le xs) (sort_by-Ordered xs), keep-sort_by p xs)
