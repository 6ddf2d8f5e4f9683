-- ===== src/Sketch/Tests.antt =====
-- Runs of internal/eventstore's sketch.
use leser.Prelude.{◌^◌, ◌≡◌, refl, [], ◌∷◌}
use leser.Prelude.Bytes.{Bytes}
use leser.Sketch.{fnv64a, leading_zeros, rank_of, merge}

abbrev ann : Bytes
ann = b'a' ∷ []

abbrev bob : Bytes
bob = b'b' ∷ []

-- A test vector of FNV-1a
fnv_a : fnv64a ann ≡ 0xaf63_dc4c_8601_ec8c
unfolding fnv64a
fnv_a = refl

no_zeros : leading_zeros 64 (2 ^ 63) ≡ 0
unfolding leading_zeros
no_zeros = refl

rank_of_zero : rank_of 0 ≡ 64
unfolding rank_of
rank_of_zero = refl

merged : merge (1 ∷ 5 ∷ []) (3 ∷ 2 ∷ []) ≡ 3 ∷ 5 ∷ []
unfolding merge
merged = refl
