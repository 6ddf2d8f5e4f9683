-- ===== src/Cache/Items.antt =====
-- The elements of the LRU of internal/cache/lru.go: their keys and the sum of their bytes.
use leser.Prelude.{
  ℕ, ◌+◌, ◌≡◌, none, some, List, [], ◌∷◌, String, str_eq, eq_iff, eq_refl, arith, length, last?,
  if◌then◌else◌,
}
use leser.Cache.{Item, find, without}

module _ {V : Type 0} where
  unfoldable pub Distinct : List (Item V) → Type 0
  Distinct [] = Unit
  Distinct (en ∷ items) = (find en.key items ≡ none) × Distinct items

  unfoldable pub size : List (Item V) → ℕ
  size [] = 0
  size (en ∷ items) = en.bytes + size items

  pub find-without :
      (gone key : String) (items : List (Item V))
      → Distinct items
      → find key (without gone items) ≡ (if str_eq gone key then none else find key items)
  unfolding find without Distinct
  find-without gone key [] d = ground arith
  find-without gone key (en ∷ items) d = ground (
    arith,
    d.0,
    find-without gone key items d.1,
    eq_iff gone key,
    eq_iff en.key gone,
    eq_iff en.key key,
  )

  pub without-Distinct :
      (gone : String) (items : List (Item V)) → Distinct items → Distinct (without gone items)
  unfolding without Distinct
  without-Distinct gone [] d = tt
  without-Distinct gone (en ∷ items) d =
      ground (arith, d.0, d.1, find-without gone en.key items d.1, without-Distinct gone items d.1)

  pub size-without :
      (items : List (Item V)) (key : String) (en : Item V)
      → find key items ≡ some en
      → (size (without key items) + en.bytes ≡ size items)
        × (length (without key items) + 1 ≡ length items)
  unfolding find without size
  size-without [] key en h = cc
  size-without (f ∷ items) key en h = ground (arith, size-without items key en)

  pub find-key :
      (items : List (Item V)) (key : String) (en : Item V) → find key items ≡ some en → en.key ≡ key
  unfolding find
  find-key [] key en h = cc
  find-key (f ∷ items) key en h = ground (arith, eq_iff f.key key, find-key items key en)

  -- The last element is the one that its key finds.
  pub find-last :
      (items : List (Item V)) (en : Item V)
      → Distinct items
      → last? items ≡ some en
      → find en.key items ≡ some en
  unfolding find Distinct
  find-last [] en d h = cc
  find-last (f ∷ []) en d h = ground (arith, eq_refl f.key)
  find-last (f ∷ g ∷ items) en d h =
      let deeper = find-last (g ∷ items) en d.1 h in
      ground (arith, deeper, d.0, eq_iff f.key en.key)
