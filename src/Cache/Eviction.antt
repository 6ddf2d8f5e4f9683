-- ===== src/Cache/Eviction.antt =====
-- removeElement, Delete and the eviction loop of internal/cache/lru.go.
use leser.Prelude.{
  ℕ, zero, suc, ◌≤◌, ◌<◌, ◌≡◌, ◌≢◌, ◌⊎◌, inl, inr, refl, ap, ◌∙◌, sym, none, some, List, [], ◌∷◌,
  String, eq_iff, eq_refl, arith, length, last?, ltb, tests, Bool-cases, Option-cases,
}
use leser.Cache.{Item, Lru, find, without, remove_element, evict, delete}
use leser.Cache.Items.{
  Distinct, size, find-without, without-Distinct, size-without, find-key, find-last,
}

module _ {V : Type 0} where
  -- Keys are distinct and the bytes are counted; Bounded: they are within the limit, too.
  pub record Counted (c : Lru V) : Type 0 where
    pub distinct : Distinct c.items
    pub counted : c.cur_bytes ≡ size c.items

  pub record Bounded (c : Lru V) : Type 0 where
    pub ok : Counted c
    pub bound : c.cur_bytes ≤ c.max_bytes

  -- The cache after evictions: what it still has is what it had.
  pub record Shrunk (c d : Lru V) : Type 0 where
    pub ok : Counted d
    pub max_bytes : d.max_bytes ≡ c.max_bytes
    pub ttl : d.ttl ≡ c.ttl
    pub less : d.cur_bytes ≤ c.cur_bytes
    pub kept : (key : String) → (find key d.items ≡ none) ⊎ (find key d.items ≡ find key c.items)

  pub remove_element-Shrunk :
      (en : Item V) (c : Lru V)
      → Counted c
      → find en.key c.items ≡ some en
      → Shrunk c (remove_element en c)
  unfolding remove_element
  remove_element-Shrunk en c k h = record {
    ok = record {
      distinct = without-Distinct en.key c.items k.distinct;
      counted = omega (arith, k.counted, size-without c.items en.key en h);
    };
    max_bytes = refl;
    ttl = refl;
    less = omega arith;
    kept = λ key. ground (arith, find-without en.key key c.items k.distinct);
  }

  pub Shrunk-refl : (c : Lru V) → Counted c → Shrunk c c
  Shrunk-refl c k = record {
    ok = k;
    max_bytes = refl;
    ttl = refl;
    less = omega arith;
    kept = λ key. inr refl;
  }

  pub Shrunk-trans : (c d e : Lru V) → Shrunk c d → Shrunk d e → Shrunk c e
  Shrunk-trans c d e p q = record {
    ok = q.ok;
    max_bytes = q.max_bytes ∙ p.max_bytes;
    ttl = q.ttl ∙ p.ttl;
    less = omega (arith, p.less, q.less);
    kept = λ key. elim (q.kept key) [
      | inl gone ↦ inl gone
      | inr same ↦ elim (p.kept key) [ inl gone ↦ inl (same ∙ gone) | inr old ↦ inr (same ∙ old) ]
    ];
  }

  pub delete-Shrunk : (key : String) (c : Lru V) → Counted c → Shrunk c (delete key c)
  unfolding delete
  delete-Shrunk key c k = elim (Option-cases (find key c.items)) [
    | inl absent ↦ rw (absent, delete) (Shrunk-refl c k)
    | inr (en, found) ↦
        rw (found, delete)
          (remove_element-Shrunk en c k
            (ap (λ x. find x c.items) (find-key c.items key en found) ∙ found))
  ]

  -- The evictions end below the limit, and spare a front element that fits.
  pub record Evicted (c d : Lru V) : Type 0 where
    pub shrunk : Shrunk c d
    pub bound : d.cur_bytes ≤ d.max_bytes

  last-of_size : (items : List (Item V)) → last? items ≡ none → size items ≡ 0
  unfolding size
  last-of_size [] h = refl
  last-of_size (en ∷ []) h = cc
  last-of_size (en ∷ f ∷ items) h = absurd (no (f ∷ items) f items refl h)
    where
      no : (xs : List (Item V)) (x : Item V) (ys : List (Item V)) → xs ≡ x ∷ ys → last? xs ≢ none
      no [] x ys e h = cc
      no (a ∷ []) x ys e h = cc
      no (a ∷ b ∷ xs) x ys e h = no (b ∷ xs) b xs refl h

  none-size : (items : List (Item V)) → length items ≤ 0 → size items ≡ 0
  unfolding size
  none-size [] h = refl
  none-size (en ∷ items) h = absurd (omega arith)

  pub evict-Evicted :
      (fuel : ℕ) (c : Lru V) → Counted c → length c.items ≤ fuel → Evicted c (evict fuel c)
  unfolding evict
  evict-Evicted zero c k h = record {
    shrunk = Shrunk-refl c k;
    bound = omega (arith, k.counted, none-size c.items h);
  }
  evict-Evicted (suc fuel) c k h = elim (Bool-cases (ltb c.max_bytes c.cur_bytes)) [
    | inr fits ↦ rw (fits, evict) (record { shrunk = Shrunk-refl c k; bound = ground arith })
    | inl over ↦ elim (Option-cases (last? c.items)) [
      | inl empty ↦ absurd (omega (tests, over, k.counted, last-of_size c.items empty))
      | inr (back, at) ↦
          let found = find-last c.items back k.distinct at in
          let step = remove_element-Shrunk back c k found in
          let later =
            evict-Evicted fuel (remove_element back c) step.ok
              (unfold remove_element in omega (arith, size-without c.items back.key back found)) in
          rw (over, at, evict)
            (record { shrunk = Shrunk-trans c _ _ step later.shrunk; bound = later.bound })
    ]
  ]

  without-last :
      (rest : List (Item V)) (en back : Item V)
      → Distinct (en ∷ rest)
      → last? (en ∷ rest) ≡ some back
      → 0 < size rest
      → without back.key (en ∷ rest) ≡ en ∷ without back.key rest
  unfolding without Distinct size
  without-last [] en back d at h = absurd (omega arith)
  without-last (f ∷ rest) en back d at h =
      ground (arith, d.0, find-last (f ∷ rest) back d.1 at, eq_iff en.key back.key)

  front : (en : Item V) (rest : List (Item V)) → find en.key (en ∷ rest) ≡ some en
  unfolding find
  front en rest = ground (arith, eq_refl en.key)

  -- A front element that fits on its own is not the last one while the cache is over its limit.
  pub evict-front :
      (fuel : ℕ) (c : Lru V) (en : Item V) (rest : List (Item V))
      → Counted c
      → c.items ≡ en ∷ rest
      → en.bytes ≤ c.max_bytes
      → find en.key (evict fuel c).items ≡ some en
  unfolding evict
  evict-front zero c en rest k at h = rw (at, evict) (front en rest)
  evict-front (suc fuel) c en rest k at h =
      let sum = k.counted ∙ ap size at in
      elim (Bool-cases (ltb c.max_bytes c.cur_bytes)) [
        | inr fits ↦ rw (fits, evict) (rw at (front en rest))
        | inl over ↦ elim (Option-cases (last? c.items)) [
          | inl empty ↦ absurd (omega (tests, over, k.counted, last-of_size c.items empty))
          | inr (back, last) ↦
              let found = find-last c.items back k.distinct last in
              let step = remove_element-Shrunk back c k found in
              let rest_at =
                ap (without back.key) at
                ∙ without-last rest en back (rw at at k.distinct) (ap last? (sym at) ∙ last)
                    (unfold size in omega (tests, over, sum, h)) in
              rw (over, last, evict)
                (evict-front fuel (remove_element back c) en (without back.key rest) step.ok
                  (unfold remove_element in rest_at) (unfold remove_element in h))
        ]
      ]
