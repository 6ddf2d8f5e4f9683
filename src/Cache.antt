-- ===== src/Cache.antt =====
-- internal/cache/lru.go. The list `ll` and the map `items` hold the same elements and change together:
-- one list, most recent first, is searched by key. Sizes and times are not negative.
use leser.Prelude.{
  ℕ, zero, suc, ◌+◌, ◌-◌, Bool, true, false, ◌&&◌, Option, none, some, List, [], ◌∷◌, String,
  str_eq, length, last?, ltb, ◌==◌, if◌then◌else◌,
}
pub mod Items
pub mod Eviction
pub mod Calls
mod Tests

-- entry
pub record Item (V : Type 0) : Type 0 where
  pub key : String
  pub val : V
  pub bytes : ℕ
  pub expires : ℕ

-- LRU
pub record Lru (V : Type 0) : Type 0 where
  pub max_bytes : ℕ
  pub cur_bytes : ℕ
  pub ttl : ℕ
  pub items : List (Item V)
  pub hits : ℕ
  pub misses : ℕ

-- bytes <= 0 counts as 1
abbrev pub charged : ℕ → ℕ
charged bytes = if bytes == 0 then 1 else bytes

-- A call at a time.
pub data Op (V : Type 0) : Type 0 where
  do_get : ℕ → String → Op V
  do_delete : String → Op V
  do_set : ℕ → String → V → ℕ → Op V

module _ {V : Type 0} where
  -- el, ok := c.items[key]
  unfoldable pub find : String → List (Item V) → Option (Item V)
  find key [] = none
  find key (en ∷ items) = let rest = find key items in if str_eq en.key key then some en else rest

  -- The list and the map without the element of a key.
  unfoldable pub without : String → List (Item V) → List (Item V)
  without key [] = []
  without key (en ∷ items) =
      let rest = without key items in if str_eq en.key key then items else en ∷ rest

  unfoldable pub new : ℕ → ℕ → Lru V
  new max_bytes ttl = record {
    max_bytes = if max_bytes == 0 then 1048576 else max_bytes;
    cur_bytes = 0;
    ttl = ttl;
    items = [];
    hits = 0;
    misses = 0;
  }

  unfoldable pub remove_element : Item V → Lru V → Lru V
  remove_element en c = record c {
    items = without en.key c.items;
    cur_bytes = c.cur_bytes - en.bytes;
  }

  unfoldable pub expired : ℕ → Lru V → Item V → Bool
  expired now c en = ltb 0 c.ttl && ltb en.expires now

  abbrev pub miss : Lru V → Option V × Lru V
  miss c = (none, record c { misses = c.misses + 1 })

  unfoldable pub get : ℕ → String → Lru V → Option V × Lru V
  unfolding expired
  get now key c = elim (find key c.items) [
    | none ↦ miss c
    | some en ↦
        if expired now c en
        then miss (remove_element en c)
        else (some en.val, record c { items = en ∷ without key c.items; hits = c.hits + 1 })
  ]

  unfoldable pub delete : String → Lru V → Lru V
  delete key c = elim (find key c.items) [ none ↦ c | some en ↦ remove_element en c ]

  -- The loop that evicts from the back. Each round removes an element, so their number is enough fuel.
  unfoldable pub evict : ℕ → Lru V → Lru V
  evict zero c = c
  evict (suc fuel) c =
      if ltb c.max_bytes c.cur_bytes
      then elim (last? c.items) [ none ↦ c | some back ↦ evict fuel (remove_element back c) ]
      else c

  unfoldable pub push_front : Item V → Lru V → Lru V
  push_front en c = record c { items = en ∷ c.items; cur_bytes = c.cur_bytes + en.bytes }

  unfoldable pub put : ℕ → String → V → ℕ → Lru V → Lru V
  put now key val bytes c =
      let c' =
        push_front (record { key = key; val = val; bytes = bytes; expires = now + c.ttl })
          (delete key c) in
      evict (length c'.items) c'

  unfoldable pub set : ℕ → String → V → ℕ → Lru V → Lru V
  set now key val bytes c =
      if ltb c.max_bytes (charged bytes) then c else put now key val (charged bytes) c

  -- A sequence of calls.
  unfoldable pub run : List (Op V) → Lru V → Lru V
  run [] c = c
  run (do_get now key ∷ ops) c = run ops (get now key c).1
  run (do_delete key ∷ ops) c = run ops (delete key c)
  run (do_set now key val bytes ∷ ops) c = run ops (set now key val bytes c)
