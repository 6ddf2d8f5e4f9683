-- ===== src/Grouping/Hashes.antt =====
-- What hashParts of internal/grouping/grouping.go gives to SHA-1.
use leser.Prelude.{◌≡◌, ◌≢◌, refl, sym, ap, ◌∙◌, List, [], ◌∷◌, ◌++◌, All, arith}
use leser.Prelude.Bytes.{Bytes}
use leser.Prelude.Texts.{split_at}
use leser.Grouping.{hash_input}

abbrev pub NoNul : Bytes → Type 0
NoNul s = All (λ b. b ≢ 0) s

split_at-NoNul : (s : Bytes) → NoNul s → split_at 0 s ≡ s ∷ []
unfolding split_at
split_at-NoNul [] h = refl
split_at-NoNul (b ∷ s) h = ground (arith, h.0, split_at-NoNul s h.1)

split_at-append : (s t : Bytes) → NoNul s → split_at 0 (s ++ 0 ∷ t) ≡ s ∷ split_at 0 t
unfolding split_at
split_at-append [] t h = ground arith
split_at-append (b ∷ s) t h = ground (arith, h.0, split_at-append s t h.1)

split_at-hash_input :
    (ns : Bytes) (parts : List Bytes)
    → NoNul ns
    → All NoNul parts
    → split_at 0 (hash_input ns parts) ≡ ns ∷ parts
unfolding hash_input
split_at-hash_input ns [] h k = split_at-NoNul ns h
split_at-hash_input ns (p ∷ parts) h k =
    split_at-append ns (hash_input p parts) h
    ∙ ap (λ rest. ns ∷ rest) (split_at-hash_input p parts k.0 k.1)

-- As long as no namespace and no part has a zero byte, what is hashed determines them: two fingerprints are of
-- different bytes, unless their namespace and all their parts are the same, in the same order.
pub hash_input-injective :
    (ns ns' : Bytes) (parts parts' : List Bytes)
    → NoNul ns
    → NoNul ns'
    → All NoNul parts
    → All NoNul parts'
    → hash_input ns parts ≡ hash_input ns' parts'
    → ns ∷ parts ≡ ns' ∷ parts'
hash_input-injective ns ns' parts parts' h h' k k' same =
    sym (split_at-hash_input ns parts h k)
    ∙ ap (split_at 0) same
    ∙ split_at-hash_input ns' parts' h' k'
