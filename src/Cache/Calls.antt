-- ===== src/Cache/Calls.antt =====
-- The calls of internal/cache/lru.go: what a cache holds, and how much, after each.
use leser.Prelude.{
  ℕ, ◌+◌, ◌≤◌, ◌≡◌, ◌⊎◌, inl, inr, refl, ap, ◌∙◌, false, none, some, List, [], ◌∷◌, String, str_eq,
  eq_iff, arith, ltb, Bool-cases, Option-cases, if◌then◌else◌,
}
use leser.Cache.{
  Item, Lru, new, miss, find, without, remove_element, push_front, put, set, get, delete, expired,
  charged, run, Op, do_get, do_delete, do_set,
}
use leser.Cache.Items.{Distinct, size, find-without, without-Distinct, size-without, find-key}
use leser.Cache.Eviction.{
  Counted, Bounded, Shrunk, Evicted, remove_element-Shrunk, delete-Shrunk, evict-Evicted,
  evict-front,
}

module _ {V : Type 0} where
  find-delete : (key : String) (c : Lru V) → Counted c → find key (delete key c).items ≡ none
  unfolding delete remove_element
  find-delete key c k = elim (Option-cases (find key c.items)) [
    | inl absent ↦ rw (absent, delete) absent
    | inr (en, found) ↦
        let same = find-key c.items key en found in
        rw (found, delete)
          (find-without en.key key c.items k.distinct ∙ ground (arith, same, eq_iff en.key key))
  ]

  find-delete_at :
      (key other : String) (c : Lru V)
      → Counted c
      → find other (delete key c).items ≡ (if str_eq key other then none else find other c.items)
  unfolding delete remove_element
  find-delete_at key other c k = elim (Option-cases (find key c.items)) [
    | inl absent ↦ rw (absent, delete) (ground (arith, absent, eq_iff key other))
    | inr (en, found) ↦
        let same = find-key c.items key en found in
        rw (found, delete)
          (find-without en.key other c.items k.distinct
            ∙ ap (λ x. if str_eq x other then none else find other c.items) same)
  ]

  push_front-Counted :
      (en : Item V) (c : Lru V) → Counted c → find en.key c.items ≡ none → Counted (push_front en c)
  unfolding push_front Distinct size
  push_front-Counted en c k absent = record {
    distinct = (absent, k.distinct);
    counted = omega (arith, k.counted);
  }

  pub find-push_front :
      (en : Item V) (c : Lru V) (key : String)
      → find key (push_front en c).items ≡ (if str_eq en.key key then some en else find key c.items)
  unfolding push_front find
  find-push_front en c key = refl

  abbrev pub item : ℕ → String → V → ℕ → Lru V → Item V
  item now key val bytes c = record { key = key; val = val; bytes = bytes; expires = now + c.ttl }

  pushed-Counted :
      (now : ℕ) (key : String) (val : V) (bytes : ℕ) (c : Lru V)
      → Counted c
      → Counted (push_front (item now key val bytes c) (delete key c))
  pushed-Counted now key val bytes c k =
      push_front-Counted (item now key val bytes c) (delete key c) (delete-Shrunk key c k).ok
        (find-delete key c k)

  put-Evicted :
      (now : ℕ) (key : String) (val : V) (bytes : ℕ) (c : Lru V)
      → Counted c
      → Evicted (push_front (item now key val bytes c) (delete key c)) (put now key val bytes c)
  unfolding put
  put-Evicted now key val bytes c k =
      evict-Evicted _ _ (pushed-Counted now key val bytes c k) (omega arith)

  -- What Set stores is found, if it fits into the cache at all.
  find-put :
      (now : ℕ) (key : String) (val : V) (bytes : ℕ) (c : Lru V)
      → Counted c
      → bytes ≤ c.max_bytes
      → find key (put now key val bytes c).items ≡ some (item now key val bytes c)
  unfolding put
  find-put now key val bytes c k h =
      let max = (delete-Shrunk key c k).max_bytes in
      evict-front _ _ (item now key val bytes c) (delete key c).items
        (pushed-Counted now key val bytes c k) (unfold push_front in refl)
        (unfold push_front in omega (arith, max, h))

  -- Set does not change what another key finds, but it may evict it.
  find-put_other :
      (now : ℕ) (key other : String) (val : V) (bytes : ℕ) (c : Lru V)
      → Counted c
      → str_eq key other ≡ false
      → (find other (put now key val bytes c).items ≡ none)
        ⊎ (find other (put now key val bytes c).items ≡ find other c.items)
  find-put_other now key other val bytes c k h =
      let a = (put-Evicted now key val bytes c k).shrunk.kept other in
      let b = find-push_front (item now key val bytes c) (delete key c) other in
      let d = (delete-Shrunk key c k).kept other in ground (arith, a, b, d, h)

  set-Bounded :
      (now : ℕ) (key : String) (val : V) (bytes : ℕ) (c : Lru V)
      → Bounded c
      → Bounded (set now key val bytes c)
  unfolding set
  set-Bounded now key val bytes c k = elim (Bool-cases (ltb c.max_bytes (charged bytes))) [
    | inl large ↦ rw large k
    | inr fits ↦
        let e = put-Evicted now key val (charged bytes) c k.ok in
        rw fits (record { ok = e.shrunk.ok; bound = e.bound })
  ]

  Shrunk-Bounded : (c d : Lru V) → Bounded c → Shrunk c d → Bounded d
  Shrunk-Bounded c d k s = record { ok = s.ok; bound = omega (arith, s.less, s.max_bytes, k.bound) }

  miss-Bounded : (c : Lru V) → Bounded c → Bounded (miss c).1
  miss-Bounded c k = record {
    ok = record { distinct = k.ok.distinct; counted = k.ok.counted };
    bound = k.bound;
  }

  touch-Bounded :
      {key : String} (en : Item V) (c : Lru V)
      → Bounded c
      → en.key ≡ key
      → find key c.items ≡ some en
      → Bounded (record c { items = en ∷ without key c.items; hits = c.hits + 1 })
  unfolding Distinct size
  touch-Bounded {key} en c k name found = record {
    ok = record {
      distinct = (
        find-without key en.key c.items k.ok.distinct ∙ ground (arith, name, eq_iff key en.key),
        without-Distinct key c.items k.ok.distinct,
      );
      counted = omega (arith, k.ok.counted, size-without c.items key en found);
    };
    bound = k.bound;
  }

  get-Bounded : (now : ℕ) (key : String) (c : Lru V) → Bounded c → Bounded (get now key c).1
  unfolding get
  get-Bounded now key c k = elim (Option-cases (find key c.items)) [
    | inl absent ↦ rw (absent, get) (miss-Bounded c k)
    | inr (en, found) ↦
        let name = find-key c.items key en found in
        rw (found, get)
          (elim (Bool-cases (expired now c en)) [
            | inl old ↦ rw old (
                miss-Bounded _ (
                  Shrunk-Bounded c _ k
                    (remove_element-Shrunk en c k.ok (ap (λ x. find x c.items) name ∙ found))))
            | inr live ↦ rw live (touch-Bounded en c k name found)
          ])
  ]

  run-Bounded : (ops : List (Op V)) (c : Lru V) → Bounded c → Bounded (run ops c)
  unfolding run
  run-Bounded [] c k = k
  run-Bounded (do_get now key ∷ ops) c k = run-Bounded ops _ (get-Bounded now key c k)
  run-Bounded (do_delete key ∷ ops) c k =
      run-Bounded ops _ (Shrunk-Bounded c _ k (delete-Shrunk key c k.ok))
  run-Bounded (do_set now key val bytes ∷ ops) c k =
      run-Bounded ops _ (set-Bounded now key val bytes c k)

  -- Whatever calls are made on a new cache, its keys are distinct, its count is the sum of the elements'
  -- bytes, and is within the limit.
  pub run-new-Bounded :
      (max_bytes ttl : ℕ) (ops : List (Op V)) → Bounded (run ops (new max_bytes ttl))
  unfolding new Distinct size
  run-new-Bounded max_bytes ttl ops =
      run-Bounded ops _
        (record { ok = record { distinct = tt; counted = refl }; bound = omega arith })

  -- In a cache within its limit, a value of which the charged bytes fit the limit is found by Get after
  -- Set, until its time to live is over.
  pub get-set :
      (now later : ℕ) (key : String) (val : V) (bytes : ℕ) (c : Lru V)
      → Bounded c
      → charged bytes ≤ c.max_bytes
      → later ≤ now + c.ttl
      → (get later key (set now key val bytes c)).0 ≡ some val
  unfolding get set expired
  get-set now later key val bytes c k fits h =
      ground (arith, find-put now key val (charged bytes) c k.ok fits)

  -- In a cache within its limit, Set of one key does not change what Get returns for another, but that it
  -- may return nothing.
  get-set_other :
      (now later : ℕ) (key other : String) (val : V) (bytes : ℕ) (c : Lru V)
      → Bounded c
      → str_eq key other ≡ false
      → ((get later other (set now key val bytes c)).0 ≡ none)
        ⊎ ((get later other (set now key val bytes c)).0 ≡ (get later other c).0)
  unfolding get set expired
  get-set_other now later key other val bytes c k h =
      let ttl : (put now key val (charged bytes) c).ttl ≡ (delete key c).ttl =
        unfold push_front in (put-Evicted now key val (charged bytes) c k.ok).shrunk.ttl in
      let ttl' = (delete-Shrunk key c k.ok).ttl in
      ground (arith, find-put_other now key other val (charged bytes) c k.ok h, ttl, ttl')

  -- In a cache within its limit, Get finds nothing under a key after Delete, and what it found under any
  -- other.
  get-delete :
      (later : ℕ) (key other : String) (c : Lru V)
      → Bounded c
      → (get later other (delete key c)).0
        ≡ (if str_eq key other then none else (get later other c).0)
  unfolding get expired
  get-delete later key other c k =
      ground (arith, find-delete_at key other c k.ok, (delete-Shrunk key c k.ok).ttl)
