-- ===== src/Ring/Nodes.antt =====
-- SetNodes of internal/cluster/ring.go on the members without one of them.
use leser.Prelude.{
  ℕ, zero, suc, ◌+◌, ◌≡◌, refl, ap, ◌∙◌, Bool, true, false, not, List, [], ◌∷◌, any, arith,
  if◌then◌else◌,
}
use leser.Prelude.Bytes.{Bytes, bytes_eq, bytes_eq_iff}
use leser.Prelude.Sorting.{keep, keep-append, sort_by, keep-sort_by, TotalOrder}
use leser.Ring.{RingEntry, vnode, vnodes, all_vnodes, uniq, hash_le, set_nodes}
use leser.Prelude.Texts.{text_le}

pub hash_le-TotalOrder : TotalOrder hash_le
hash_le-TotalOrder = record { total = λ x y h. ground arith; trans = λ x y z h k. ground arith }

text_le_total : (xs ys : Bytes) → text_le xs ys ≡ false → text_le ys xs ≡ true
unfolding text_le
text_le_total [] ys h = cc
text_le_total (x ∷ xs) [] h = refl
text_le_total (x ∷ xs) (y ∷ ys) h = ground (arith, text_le_total xs ys)

text_le_trans :
    (xs ys zs : Bytes) → text_le xs ys ≡ true → text_le ys zs ≡ true → text_le xs zs ≡ true
unfolding text_le
text_le_trans [] ys zs h k = refl
text_le_trans (x ∷ xs) [] zs h k = cc
text_le_trans (x ∷ xs) (y ∷ ys) [] h k = cc
text_le_trans (x ∷ xs) (y ∷ ys) (z ∷ zs) h k = ground (arith, text_le_trans xs ys zs)

text_le-TotalOrder : TotalOrder text_le
text_le-TotalOrder = record { total = text_le_total; trans = text_le_trans }

module _ (gone : Bytes) where
  abbrev pub other : Bytes → Bool
  other id = not (bytes_eq id gone)

  abbrev pub others : RingEntry → Bool
  others e = other e.node

  keep-vnodes :
      (count v : ℕ) (id : Bytes)
      → keep others (vnodes count v id) ≡ (if other id then vnodes count v id else [])
  unfolding keep vnodes vnode
  keep-vnodes zero v id = ground arith
  keep-vnodes (suc count) v id = ground (arith, keep-vnodes count (v + 1) id)

  keep-all_vnodes : (ids : List Bytes) → keep others (all_vnodes ids) ≡ all_vnodes (keep other ids)
  unfolding all_vnodes keep
  keep-all_vnodes [] = refl
  keep-all_vnodes (id ∷ ids) = ground (
    arith,
    keep-append others (vnodes 100 0 id) (all_vnodes ids),
    keep-vnodes 100 0 id,
    keep-all_vnodes ids,
  )

  any-keep :
      (id : Bytes) (ids : List Bytes)
      → other id ≡ true
      → any (bytes_eq id) (keep other ids) ≡ any (bytes_eq id) ids
  unfolding keep
  any-keep id [] h = refl
  any-keep id (j ∷ ids) h = ground (arith, bytes_eq_iff id j, ap other, any-keep id ids h)

  keep-uniq : (ids : List Bytes) → keep other (uniq ids) ≡ uniq (keep other ids)
  unfolding keep uniq
  keep-uniq [] = refl
  keep-uniq (id ∷ ids) = ground (arith, any-keep id ids, keep-uniq ids)

  pub keep-sorted_vnodes :
      (ids : List Bytes)
      → keep others (all_vnodes (sort_by text_le (uniq ids)))
        ≡ all_vnodes (sort_by text_le (uniq (keep other ids)))
  keep-sorted_vnodes ids =
      keep-all_vnodes (sort_by text_le (uniq ids))
      ∙ ap all_vnodes (
          keep-sort_by text_le text_le-TotalOrder other (uniq ids)
          ∙ ap (sort_by text_le) (keep-uniq ids))

  pub keep-set_nodes :
      (ids : List Bytes)
      → keep others (set_nodes (sort_by hash_le) ids).entries
        ≡ (set_nodes (sort_by hash_le) (keep other ids)).entries
  unfolding set_nodes
  keep-set_nodes ids =
      keep-sort_by hash_le hash_le-TotalOrder others (all_vnodes (sort_by text_le (uniq ids)))
      ∙ ap (sort_by hash_le) (keep-sorted_vnodes ids)
