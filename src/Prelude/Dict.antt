-- ===== src/Prelude/Dict.antt =====
-- A Go map with text keys, as an association list: the order of iteration is not modelled.
use Prim.Native.String.{String}
use mathlib.Core.Path.{◌≡◌}
use mathlib.Core.List.{List, [], ◌∷◌}
use mathlib.Core.Option.{Option, none, some}
use native.Mathlib.Omega.{arith}
use text.Mathlib.Text.{◌==◌ as str_eq}
use text.Mathlib.TextEquality.{eq_iff}
use leser.Prelude.Tests.{if◌then◌else◌}

pub record Slot {ℓ} (V : Type ℓ) : Type ℓ where
  pub key : String
  pub value : V

abbrev pub Dict {ℓ} : Type ℓ → Type ℓ
Dict V = List (Slot V)

module _ {ℓ} {V : Type ℓ} where
  -- value, ok := table[key]
  unfoldable pub lookup : String → Dict V → Option V
  lookup key [] = none
  lookup key (s ∷ table) =
      let deeper = lookup key table in if str_eq s.key key then some s.value else deeper

  -- delete(table, key)
  unfoldable pub remove : String → Dict V → Dict V
  remove key [] = []
  remove key (s ∷ table) =
      let rest = remove key table in if str_eq s.key key then rest else s ∷ rest

  -- table[key] = value
  unfoldable pub insert : String → V → Dict V → Dict V
  insert key value table = record { key = key; value = value } ∷ remove key table

  pub lookup-remove :
      (gone key : String) (table : Dict V)
      → lookup key (remove gone table) ≡ (if str_eq gone key then none else lookup key table)
  unfolding lookup remove
  lookup-remove gone key [] = ground arith
  lookup-remove gone key (s ∷ table) =
      ground
        (arith, lookup-remove gone key table, eq_iff gone key, eq_iff s.key gone, eq_iff s.key key)

  pub lookup-insert :
      (new key : String) (value : V) (table : Dict V)
      → lookup key (insert new value table)
        ≡ (if str_eq new key then some value else lookup key table)
  unfolding lookup insert
  lookup-insert new key value table = ground (arith, lookup-remove new key table)
