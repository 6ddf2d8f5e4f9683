-- ===== src/Ring/Owners.antt =====
-- OwnerFor of internal/cluster/ring.go: the next entry on the ring, and the ring without a node.
use leser.Prelude.{
  ℕ, ◌≡◌, refl, sym, ap, ◌∙◌, true, false, not, Option, none, some, List, [], ◌∷◌, ◌++◌, All,
  All-weaken, arith, length, length-append, get_elem?, leb, if◌then◌else◌, Bool-cases, Option-cases,
  inl, inr,
}
use mathlib.Core.Path.{subst}
use leser.Prelude.Bytes.{Bytes, bytes_eq}
use leser.Prelude.Search.{search_border, get_elem?-append}
use leser.Prelude.Sorting.{keep, Ordered, sort_by, sort_by-Ordered}
use leser.Prelude.Texts.{text_le}
use leser.Ring.Sorts.{Sorts, Distinct, distinct_hashes, Distinct-of, Distinct-keep, sort_lem}
use leser.Ring.{RingEntry, hash_key, hash_le, owner_index, owner_for, set_nodes, all_vnodes, uniq}
use leser.Ring.Nodes.{hash_le-TotalOrder, other, others, keep-set_nodes, keep-sorted_vnodes}

abbrev first : List RingEntry → Option RingEntry
first [] = none
first (e ∷ entries) = some e

-- The first entry at a hash or above, by a plain walk; past the end, the first of all
unfoldable pub at_or_above : ℕ → List RingEntry → Option RingEntry
at_or_above h [] = none
at_or_above h (e ∷ entries) =
    let rest = at_or_above h entries in if leb h e.hash then some e else rest

unfoldable pub successor : ℕ → List RingEntry → Option RingEntry
unfolding at_or_above
successor h entries = elim (at_or_above h entries) [ some e ↦ some e | none ↦ first entries ]

-- The entries below a hash, and those from it on
record Border (h : ℕ) (entries : List RingEntry) : Type 0 where
  pre : List RingEntry
  post : List RingEntry
  split : entries ≡ pre ++ post
  low : All (λ e. leb h e.hash ≡ false) pre
  high : All (λ e. leb h e.hash ≡ true) post
  here : at_or_above h entries ≡ first post

border : (h : ℕ) (entries : List RingEntry) → Ordered hash_le entries → Border h entries
unfolding at_or_above Ordered
border h [] o = record { pre = []; post = []; split = refl; low = tt; high = tt; here = refl }
border h (e ∷ entries) o = elim (Bool-cases (leb h e.hash)) [
  | inl above ↦ record {
    pre = [];
    post = e ∷ entries;
    split = refl;
    low = tt;
    high = (
      above,
      All-weaken (λ f. hash_le e f ≡ true) (λ f. leb h f.hash ≡ true) entries (λ f k. ground arith)
          o.0,
    );
    here = rw above refl;
  }
  | inr below ↦
      let b = border h entries o.1 in
      record {
        pre = e ∷ b.pre;
        post = b.post;
        split = ap (λ x. e ∷ x) b.split;
        low = (below, b.low);
        high = b.high;
        here = rw below b.here;
      }
]

get_elem?-first : (entries : List RingEntry) → get_elem? entries 0 ≡ first entries
get_elem?-first [] = refl
get_elem?-first (e ∷ entries) = refl

owner_index-successor :
    (h : ℕ) (entries : List RingEntry)
    → Ordered hash_le entries
    → get_elem? entries (owner_index h entries) ≡ successor h entries
unfolding successor
owner_index-successor h entries o =
    let b = border h entries o in
    subst
      (λ x.
        get_elem? x (owner_index h x)
        ≡ elim (at_or_above h entries) [ some e ↦ some e | none ↦ first x ])
      (sym b.split) (go b.pre b.post b.low b.high b.here)
  where
    go :
        (pre post : List RingEntry)
        → All (λ e. leb h e.hash ≡ false) pre
        → All (λ e. leb h e.hash ≡ true) post
        → at_or_above h entries ≡ first post
        → get_elem? (pre ++ post) (owner_index h (pre ++ post))
          ≡ elim (at_or_above h entries) [ some e ↦ some e | none ↦ first (pre ++ post) ]
    go pre [] low high here = ground (
      arith,
      search_border (λ e. leb h e.hash) pre [] low high,
      length-append {0} pre [],
      get_elem?-first (pre ++ []),
    )
    go pre (e ∷ post) low high here = ground (
      arith,
      search_border (λ e. leb h e.hash) pre (e ∷ post) low high,
      length-append {0} pre (e ∷ post),
      get_elem?-append pre e post,
    )

module _ (gone : Bytes) where
  keep-above :
      (h : ℕ) (entries : List RingEntry) (e : RingEntry)
      → at_or_above h entries ≡ some e
      → others gone e ≡ true
      → at_or_above h (keep (others gone) entries) ≡ some e
  unfolding at_or_above keep
  keep-above h [] e s o = cc
  keep-above h (f ∷ entries) e s o = ground (arith, ap (others gone), keep-above h entries e)

  keep-above_none :
      (h : ℕ) (entries : List RingEntry)
      → at_or_above h entries ≡ none
      → at_or_above h (keep (others gone) entries) ≡ none
  unfolding at_or_above keep
  keep-above_none h [] s = refl
  keep-above_none h (f ∷ entries) s = ground (arith, keep-above_none h entries)

  keep-first :
      (entries : List RingEntry) (e : RingEntry)
      → first entries ≡ some e
      → others gone e ≡ true
      → first (keep (others gone) entries) ≡ some e
  unfolding keep
  keep-first [] e s o = cc
  keep-first (f ∷ entries) e s o = ground (arith, ap (others gone))

-- The walk over the ring without a node
kept-successor :
    (gone : Bytes) (h : ℕ) (entries : List RingEntry) (e : RingEntry)
    → successor h entries ≡ some e
    → others gone e ≡ true
    → successor h (keep (others gone) entries) ≡ some e
unfolding successor
kept-successor gone h entries e s o = elim (Option-cases (at_or_above h entries)) [
  | inl none' ↦ ground (arith, keep-above_none gone h entries none', keep-first gone entries e)
  | inr (f, found) ↦ ground (arith, keep-above gone h entries f found, ap (others gone))
]

empty-successor :
    (h : ℕ) (entries : List RingEntry) → length entries ≡ 0 → successor h entries ≡ none
unfolding successor at_or_above
empty-successor h [] e = refl
empty-successor h (f ∷ entries) e = absurd (omega arith)

owner_for-successor :
    (key : Bytes) (ids : List Bytes)
    → owner_for key (set_nodes (sort_by hash_le) ids)
      ≡ elim (successor (hash_key key) (set_nodes (sort_by hash_le) ids).entries) [
        | none ↦ none
        | some e ↦ some e.node
      ]
unfolding owner_for
owner_for-successor key ids =
    let entries = (set_nodes (sort_by hash_le) ids).entries in
    let o : Ordered hash_le entries =
      unfold set_nodes in sort_by-Ordered hash_le hash_le-TotalOrder _ in
    ground (
      arith,
      owner_index-successor (hash_key key) entries o,
      empty-successor (hash_key key) entries,
    )

sorted-owner_for-keep :
    (key owner gone : Bytes) (ids : List Bytes)
    → owner_for key (set_nodes (sort_by hash_le) ids) ≡ some owner
    → bytes_eq owner gone ≡ false
    → owner_for key (set_nodes (sort_by hash_le) (keep (other gone) ids)) ≡ some owner
sorted-owner_for-keep key owner gone ids h d =
    elim (Option-cases (successor (hash_key key) (set_nodes (sort_by hash_le) ids).entries)) [
      | inl none' ↦ absurd (ground (arith, owner_for-successor key ids))
      | inr (e, found) ↦
          let at = owner_for-successor key ids in
          let same : e.node ≡ owner = ground arith in
          let kept =
            kept-successor gone (hash_key key) (set_nodes (sort_by hash_le) ids).entries e found
              (ap (other gone) same ∙ ap not d) in
          owner_for-successor key (keep (other gone) ids)
          ∙ ap (λ x. elim (successor (hash_key key) x) [ none ↦ none | some f ↦ some f.node ])
              (sym (keep-set_nodes gone ids))
          ∙ ap (λ x. elim x [ none ↦ none | some f ↦ some f.node ]) kept
          ∙ ap some same
    ]

set_nodes-sort :
    (sort : List RingEntry → List RingEntry) (ids : List Bytes)
    → Sorts sort
    → Distinct (all_vnodes (sort_by text_le (uniq ids)))
    → set_nodes sort ids ≡ set_nodes (sort_by hash_le) ids
unfolding set_nodes
set_nodes-sort sort ids s d =
    ap (λ es. record { entries = es; nodes = uniq ids }) (sort_lem sort _ s d)

-- With any sort.Slice that puts the virtual nodes in the order of their hashes, and where no two of them have
-- the same hash: a key that another node owns keeps its owner when a node leaves, so only the keys of
-- that node move.
pub owner_for-keep :
    (sort : List RingEntry → List RingEntry) (key owner gone : Bytes) (ids : List Bytes)
    → Sorts sort
    → distinct_hashes (all_vnodes (sort_by text_le (uniq ids))) ≡ true
    → owner_for key (set_nodes sort ids) ≡ some owner
    → bytes_eq owner gone ≡ false
    → owner_for key (set_nodes sort (keep (other gone) ids)) ≡ some owner
owner_for-keep sort key owner gone ids s distinct h d =
    let apart = Distinct-of _ distinct in
    let fewer =
      subst Distinct (keep-sorted_vnodes gone ids) (Distinct-keep (others gone) _ apart) in
    ap (owner_for key) (set_nodes-sort sort (keep (other gone) ids) s fewer)
    ∙ sorted-owner_for-keep key owner gone ids
        (ap (owner_for key) (sym (set_nodes-sort sort ids s apart)) ∙ h) d
