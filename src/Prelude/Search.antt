-- ===== src/Prelude/Search.antt =====
-- Go's sort.Search: binary search for the first index at which a test holds.
use Prim.Native.Nat.{ℕ, zero, suc, ◌+◌, ◌/◌, ◌≤◌, ◌<◌}
use mathlib.Core.Bool.{Bool, true, false}
use mathlib.Core.List.{List, [], ◌∷◌, ◌++◌}
use mathlib.Core.Logic.{inl, inr}
use mathlib.Core.Option.{none, some}
use mathlib.Core.Path.{◌≡◌, refl}
use native.Mathlib.Omega.{arith}
use leser.Prelude.Lists.{length, get_elem?, All, length-append}
use leser.Prelude.Tests.{ltb, Bool-cases, if◌then◌else◌}

search_loop : ℕ → (ℕ → Bool) → ℕ → ℕ → ℕ
search_loop zero f lo hi = lo
search_loop (suc fuel) f lo hi =
    let h = (lo + hi) / 2 in
    let right = search_loop fuel f (h + 1) hi in
    let left = search_loop fuel f lo h in
    let step : ℕ = elim (f h) [ false ↦ right | true ↦ left ] in if ltb lo hi then step else lo

-- The range halves at least, so `n` rounds are enough.
unfoldable pub search : ℕ → (ℕ → Bool) → ℕ
unfolding search_loop
search n f = search_loop n f 0 n

module _ (n : ℕ) (f : ℕ → Bool) (t : ℕ) (below : (j : ℕ) → j < t → f j ≡ false)
    (above : (j : ℕ) → t ≤ j → j < n → f j ≡ true) where
  search_loop_lem :
      (fuel lo hi : ℕ) → hi ≤ lo + fuel → lo ≤ t → t ≤ hi → hi ≤ n → search_loop fuel f lo hi ≡ t
  unfolding search_loop
  search_loop_lem zero lo hi a p q r = omega arith
  search_loop_lem (suc fuel) lo hi a p q r = elim (Bool-cases (ltb lo hi)) [
    | inr done ↦ rw done (ground arith)
    | inl more ↦
        let h = (lo + hi) / 2 in
        rw more (elim (Bool-cases (f h)) [
          | inl yes' ↦
              rw yes' (
                search_loop_lem fuel lo h (ground arith) p (ground (arith, below h)) (ground arith))
          | inr no' ↦
              rw no' (search_loop_lem fuel (h + 1) hi (ground arith) (ground (arith, above h)) q r)
        ])
  ]

  -- The search finds the index from which on the test holds.
  pub search_lem : t ≤ n → search n f ≡ t
  unfolding search
  search_lem h = search_loop_lem n 0 n (omega arith) (omega arith) h (omega arith)

-- The test on the element at an index, as the closures given to sort.Search make it.
abbrev pub elem_test {ℓ} : {A : Type ℓ} → (A → Bool) → List A → ℕ → Bool
elem_test p xs i = elim (get_elem? xs i) [ none ↦ false | some x ↦ p x ]

module _ {ℓ} {A : Type ℓ} (p : A → Bool) where
  elem_test_below :
      (pre post : List A) (j : ℕ)
      → All (λ x. p x ≡ false) pre
      → j < length pre
      → elem_test p (pre ++ post) j ≡ false
  elem_test_below [] post j h l = absurd (omega arith)
  elem_test_below (x ∷ pre) post zero h l = h.0
  elem_test_below (x ∷ pre) post (suc j) h l = elem_test_below pre post j h.1 (omega arith)

  elem_test-All :
      (post : List A) (j : ℕ)
      → All (λ x. p x ≡ true) post
      → j < length post
      → elem_test p post j ≡ true
  elem_test-All [] j h l = absurd (omega arith)
  elem_test-All (x ∷ post) zero h l = h.0
  elem_test-All (x ∷ post) (suc j) h l = elem_test-All post j h.1 (omega arith)

  elem_test_above :
      (pre post : List A) (j : ℕ)
      → All (λ x. p x ≡ true) post
      → length pre ≤ j
      → j < length (pre ++ post)
      → elem_test p (pre ++ post) j ≡ true
  elem_test_above [] post j h l u = elem_test-All post j h u
  elem_test_above (x ∷ pre) post zero h l u = absurd (omega arith)
  elem_test_above (x ∷ pre) post (suc j) h l u =
      elem_test_above pre post j h (omega arith) (omega arith)

  -- Where the test fails on a front part and holds on the rest, the search finds the border.
  pub search_border :
      (pre post : List A)
      → All (λ x. p x ≡ false) pre
      → All (λ x. p x ≡ true) post
      → search (length (pre ++ post)) (elem_test p (pre ++ post)) ≡ length pre
  search_border pre post f t =
      search_lem _ _ (length pre) (λ j h. elem_test_below pre post j f h)
        (λ j h u. elem_test_above pre post j t h u) (omega (arith, length-append pre post))

pub get_elem?-append {ℓ} :
    {A : Type ℓ} (pre : List A) (x : A) (post : List A)
    → get_elem? (pre ++ x ∷ post) (length pre) ≡ some x
get_elem?-append [] x post = refl
get_elem?-append (y ∷ pre) x post = get_elem?-append pre x post
