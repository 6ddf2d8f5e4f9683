-- ===== src/Ingest/Dedupe.antt =====
-- The set of event ids of internal/ingest/pipeline.go, in two generations.
use leser.Prelude.{
  ℕ, suc, ◌+◌, ◌≤◌, ◌<◌, ◌≡◌, Bool, true, false, ◌&&◌, ◌||◌, List, [], ◌∷◌, String, str_eq, any,
  length, leb, ◌==◌, inl, inr, arith, if◌then◌else◌, ◌⊎◌, eq_refl,
}

-- projectKey: the eight bytes of the project and the event's id
pub record ProjectKey : Type 0 where
  pub project : ℕ
  pub id : String

abbrev pub same_event : ProjectKey → ProjectKey → Bool
same_event k l = k.project == l.project && str_eq k.id l.id

pub record Dedupe : Type 0 where
  pub cap : ℕ
  pub cur : List ProjectKey
  pub prev : List ProjectKey

abbrev pub new_dedupe : ℕ → Dedupe
new_dedupe capacity = record { cap = capacity; cur = []; prev = [] }

abbrev pub holds : ProjectKey → List ProjectKey → Bool
holds key keys = any (same_event key) keys

-- When the current generation is full, it becomes the previous one.
abbrev rotate : Dedupe → Dedupe
rotate d = if leb d.cap (length d.cur) then record { cap = d.cap; cur = []; prev = d.cur } else d

unfoldable pub first_seen : ProjectKey → Dedupe → Bool × Dedupe
first_seen key d =
    if holds key d.cur || holds key d.prev
    then (false, d)
    else (true, record (rotate d) { cur = key ∷ (rotate d).cur })

unfoldable pub see_all : List ProjectKey → Dedupe → Dedupe
see_all [] d = d
see_all (k ∷ keys) d = see_all keys (first_seen k d).1

-- A key that is remembered for n calls more
Kept : ProjectKey → ℕ → Dedupe → Type 0
Kept key n d = (holds key d.cur ≡ true) ⊎ ((holds key d.prev ≡ true) × (length d.cur + n ≤ d.cap))

first_seen-cap : (k : ProjectKey) (d : Dedupe) → (first_seen k d).1.cap ≡ d.cap
unfolding first_seen
first_seen-cap k d = ground arith

any_more :
    (key k : ProjectKey) (keys : List ProjectKey)
    → holds key keys ≡ true
    → holds key (k ∷ keys) ≡ true
any_more key k keys h = ground arith

first_seen-Kept :
    (key k : ProjectKey) (n : ℕ) (d : Dedupe)
    → suc n ≤ d.cap
    → Kept key (suc n) d
    → Kept key n (first_seen k d).1
unfolding first_seen Kept
first_seen-Kept key k n d fits (inl now) = ground (arith, any_more key k d.cur now)
first_seen-Kept key k n d fits (inr (before, room)) = ground (arith, any_more key k d.cur)

same_event_refl : (key : ProjectKey) → same_event key key ≡ true
same_event_refl key = ground (arith, eq_refl key.id)

new-Kept :
    (key : ProjectKey) (n : ℕ) (d : Dedupe)
    → (first_seen key d).0 ≡ true
    → Kept key n (first_seen key d).1
unfolding first_seen Kept
new-Kept key n d new = inl (ground (arith, same_event_refl key))

known-Kept : (key : ProjectKey) (d : Dedupe) → Kept key 0 d → (first_seen key d).0 ≡ false
unfolding first_seen Kept
known-Kept key d (inl now) = ground arith
known-Kept key d (inr (before, room)) = ground arith

see_all-Kept :
    (key : ProjectKey) (keys : List ProjectKey) (d : Dedupe)
    → length keys ≤ d.cap
    → Kept key (length keys) d
    → (first_seen key (see_all keys d)).0 ≡ false
unfolding see_all
see_all-Kept key [] d few kept = known-Kept key d kept
see_all-Kept key (k ∷ keys) d few kept =
    see_all-Kept key keys (first_seen k d).1 (omega (arith, few, first_seen-cap k d))
      (first_seen-Kept key k (length keys) d few kept)

-- A key that was seen first is not so again, as long as no more calls have come since than a generation holds
-- keys, whatever keys they were for.
pub first_seen-again :
    (key : ProjectKey) (keys : List ProjectKey) (d : Dedupe)
    → (first_seen key d).0 ≡ true
    → length keys ≤ d.cap
    → (first_seen key (see_all keys (first_seen key d).1)).0 ≡ false
first_seen-again key keys d new few =
    see_all-Kept key keys (first_seen key d).1 (omega (arith, first_seen-cap key d, few))
      (new-Kept key (length keys) d new)

-- Neither generation holds more keys than it may.
pub Bounded : Dedupe → Type 0
Bounded d = (length d.cur ≤ d.cap) × (length d.prev ≤ d.cap)

first_seen-Bounded :
    (key : ProjectKey) (d : Dedupe) → 0 < d.cap → Bounded d → Bounded (first_seen key d).1
unfolding first_seen Bounded
first_seen-Bounded key d some_cap b = ground (arith, b.0, b.1)
