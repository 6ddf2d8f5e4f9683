-- ===== src/Ring/Tests.antt =====
-- Runs of internal/cluster's ring, and its theorem at a ring of two nodes.
use leser.Prelude.{◌≡◌, refl, true, none, some, [], ◌∷◌}
use leser.Prelude.Bytes.{Bytes, bytes_eq}
use leser.Prelude.Search.{search}
use leser.Prelude.Sorting.{keep, insert_by, sort_by}
use leser.Ring.Sorts.{distinct_hashes, sort_by-Sorts}
use leser.Ring.{
  hash_le, fnv32a, finalize, hash_key, vnode, vnodes, all_vnodes, uniq, set_nodes, owner_for,
}
use leser.Prelude.Texts.{itoa, text_le}
use leser.Ring.Nodes.{other}
use leser.Ring.Owners

abbrev node_a : Bytes
node_a = b'a' ∷ []

abbrev node_b : Bytes
node_b = b'b' ∷ []

abbrev key : Bytes
key = b'7' ∷ []

program : Unit {0}
unfolding bytes_eq search keep insert_by sort_by fnv32a finalize hash_key itoa vnode vnodes
    all_vnodes uniq text_le set_nodes owner_for
program = tt

-- The test vectors of FNV-1a
fnv_empty : fnv32a [] ≡ 0x811c_9dc5
unfolding program
fnv_empty = refl

fnv_a : fnv32a node_a ≡ 0xe40c_292c
unfolding program
fnv_a = refl

label : itoa 2 42 ≡ b'4' ∷ b'2' ∷ []
unfolding program
label = refl

nobody : owner_for key (set_nodes (sort_by hash_le) []) ≡ none
unfolding program
nobody = refl

owned : owner_for key (set_nodes (sort_by hash_le) (node_b ∷ node_a ∷ node_b ∷ [])) ≡ some node_b
unfolding program
owned = refl

apart : distinct_hashes (all_vnodes (sort_by text_le (uniq (node_b ∷ node_a ∷ node_b ∷ [])))) ≡ true
unfolding program distinct_hashes
apart = refl

owner_for-keep_example :
    owner_for key
      (set_nodes (sort_by hash_le) (keep (other node_a) (node_b ∷ node_a ∷ node_b ∷ [])))
    ≡ some node_b
unfolding bytes_eq
owner_for-keep_example =
    Owners.owner_for-keep (sort_by hash_le) key node_b node_a (node_b ∷ node_a ∷ node_b ∷ [])
      sort_by-Sorts apart owned refl
