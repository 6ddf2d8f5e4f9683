-- ===== src/Prelude/Permutations.antt =====
-- Lists in another order: what is gathered from them, what holds of all their elements, and the order
-- that a sort leaves.
use mathlib.Core.Bool.{Bool}
use mathlib.Core.List.{List, [], ◌∷◌, ◌++◌, append-nil, append_assoc}
use mathlib.Core.List.{Permᴰ}
use mathlib.Core.List.Permᴰ as PermD
use mathlib.Core.Logic.{inl, inr}
use mathlib.Core.Path.{◌≡◌, refl, sym, ap, ◌∙◌, subst}
use Prim.Native.Nat.{suc}
use leser.Prelude.Lists.{All, length}
use leser.Prelude.Sorting.{insert_by, sort_by}
use leser.Prelude.Tests.{Bool-cases}

-- The lists of all elements, one after the other
unfoldable pub gather {ℓ κ} : {A : Type ℓ} {B : Type κ} → (A → List B) → List A → List B
gather f [] = []
gather f (x ∷ xs) = f x ++ gather f xs

pub gather-append {ℓ κ} :
    {A : Type ℓ} {B : Type κ} (f : A → List B) (xs ys : List A)
    → gather f (xs ++ ys) ≡ gather f xs ++ gather f ys
unfolding gather
gather-append f [] ys = refl
gather-append f (x ∷ xs) ys =
    ap (λ zs. f x ++ zs) (gather-append f xs ys)
    ∙ sym (append_assoc (f x) (gather f xs) (gather f ys))

module _ {ℓ} {A : Type ℓ} where
  pub Permᴰ-of_eq : {xs ys : List A} → xs ≡ ys → Permᴰ xs ys
  Permᴰ-of_eq {xs} h = subst (λ zs. Permᴰ xs zs) h (PermD.refl xs)

  pub Permᴰ-append :
      {xs xs' ys ys' : List A} → Permᴰ xs xs' → Permᴰ ys ys' → Permᴰ (xs ++ ys) (xs' ++ ys')
  Permᴰ-append {xs' = xs'} {ys = ys} d e =
      Permᴰ.trans (PermD.append_right ys d) (PermD.append_left xs' e)

  -- Two lists are exchanged before a third.
  pub Permᴰ-exchange : (xs ys zs : List A) → Permᴰ (xs ++ (ys ++ zs)) (ys ++ (xs ++ zs))
  Permᴰ-exchange [] ys zs = PermD.refl (ys ++ zs)
  Permᴰ-exchange (x ∷ xs) ys zs =
      Permᴰ.trans (Permᴰ.cons refl (Permᴰ-exchange xs ys zs))
        (PermD.symm (PermD.middle x ys (xs ++ zs)))

pub Permᴰ-swap {ℓ} : {A : Type ℓ} (xs ys : List A) → Permᴰ (xs ++ ys) (ys ++ xs)
Permᴰ-swap xs ys =
    Permᴰ.trans (PermD.append_left xs (Permᴰ-of_eq (sym (append-nil ys))))
      (Permᴰ.trans (Permᴰ-exchange xs ys []) (PermD.append_left ys (Permᴰ-of_eq (append-nil xs))))

module _ {ℓ} {A : Type ℓ} where
  pub gather-Permᴰ {κ} :
      {B : Type κ} (f : A → List B) {xs ys : List A}
      → Permᴰ xs ys
      → Permᴰ (gather f xs) (gather f ys)
  unfolding gather
  gather-Permᴰ f Permᴰ.nil = Permᴰ.nil
  gather-Permᴰ f (Permᴰ.cons {a = a} {l₁ = l₁} {l₂ = l₂} e d) =
      subst (λ z. Permᴰ (f a ++ gather f l₁) (f z ++ gather f l₂)) e
        (PermD.append_left (f a) (gather-Permᴰ f d))
  gather-Permᴰ f (Permᴰ.swap {a = a} {b = b} {b' = b'} {l = l} e e') =
      subst (λ z. Permᴰ (f a ++ (f b ++ gather f l)) (f z ++ (f b' ++ gather f l))) e'
        (subst (λ z. Permᴰ (f a ++ (f b ++ gather f l)) (f b ++ (f z ++ gather f l))) e
          (Permᴰ-exchange (f a) (f b) (gather f l)))
  gather-Permᴰ f (Permᴰ.trans d d') = Permᴰ.trans (gather-Permᴰ f d) (gather-Permᴰ f d')

  pub length-Permᴰ : {xs ys : List A} → Permᴰ xs ys → length xs ≡ length ys
  length-Permᴰ Permᴰ.nil = refl
  length-Permᴰ (Permᴰ.cons e d) = ap suc (length-Permᴰ d)
  length-Permᴰ (Permᴰ.swap e e') = refl
  length-Permᴰ (Permᴰ.trans d d') = length-Permᴰ d ∙ length-Permᴰ d'

  pub All-Permᴰ {κ} : (P : A → Type κ) {xs ys : List A} → Permᴰ xs ys → All P xs → All P ys
  All-Permᴰ P Permᴰ.nil h = tt
  All-Permᴰ P (Permᴰ.cons e d) h = (subst P e h.0, All-Permᴰ P d h.1)
  All-Permᴰ P (Permᴰ.swap e e') h = (subst P e' h.1.0, (subst P e h.0, h.1.1))
  All-Permᴰ P (Permᴰ.trans d d') h = All-Permᴰ P d' (All-Permᴰ P d h)

  insert_by-Permᴰ : (le : A → A → Bool) (x : A) (xs : List A) → Permᴰ (insert_by le x xs) (x ∷ xs)
  unfolding insert_by
  insert_by-Permᴰ le x [] = PermD.refl (x ∷ [])
  insert_by-Permᴰ le x (y ∷ ys) = elim (Bool-cases (le x y)) [
    | inl yes' ↦ rw yes' (PermD.refl (x ∷ y ∷ ys))
    | inr no' ↦
        rw no' (Permᴰ.trans (Permᴰ.cons refl (insert_by-Permᴰ le x ys)) (Permᴰ.swap refl refl))
  ]

  pub sort_by-Permᴰ : (le : A → A → Bool) (xs : List A) → Permᴰ (sort_by le xs) xs
  unfolding sort_by
  sort_by-Permᴰ le [] = Permᴰ.nil
  sort_by-Permᴰ le (x ∷ xs) =
      Permᴰ.trans (insert_by-Permᴰ le x (sort_by le xs)) (Permᴰ.cons refl (sort_by-Permᴰ le xs))
