-- ===== src/Ingest/Pipeline/Processing.antt =====
-- process of internal/ingest/pipeline.go: where the events of a record go.
use mathlib.Core.List.{Permᴰ}
use mathlib.Core.List.Permᴰ as PermD
use mathlib.Core.Path.{subst}
use leser.Prelude.{
  ℕ, ◌+◌, ◌≡◌, refl, ap, Bool, true, false, not, ◌&&◌, some, List, [], ◌∷◌, ◌++◌, str_eq,
  append_assoc, All, length, Bool-cases, Option-cases, inl, inr, arith, if◌then◌else◌, ◌⊎◌,
}
use leser.Prelude.Permutations.{Permᴰ-append, Permᴰ-of_eq}
use leser.Eventstore.{Event, Store, append}
use leser.Eventstore.Scans.{all_segments}
use leser.Eventstore.Flush.{Partition, flush}
use leser.Eventstore.Flush.Writes.{Faithful}
use leser.Eventstore.Flush.Bag.{held, Good, accepted, accepted_in, append_lem, Good-same, flush_lem}
use leser.Ingest.Dedupe.{Dedupe, ProjectKey, first_seen}
use leser.Ingest.Pipeline.{
  Pipeline, Pending, Attempt, Ending, stored_it, gave_up, blocked, drop_duplicate, to_store_event,
  store_event, hit, store_events,
}

-- The file system keeps what it is given, and an iteration visits each partition once.
abbrev pub SoundAttempt : Attempt → Type 0
SoundAttempt a = Faithful a.disk × ((parts : List Partition) → Permᴰ (a.visit parts) parts)

-- The store holds an event more, or the same events.
abbrev Added : Event → Store → Ending → Store → Type 0
Added e s stored_it s' = Permᴰ (held s') (e ∷ held s)
Added e s gave_up s' = Permᴰ (held s') (held s)
Added e s blocked s' = Permᴰ (held s') (held s)

append-one :
    (now : ℕ) (e : Event) (s s' : Store)
    → append now (e ∷ []) s ≡ some s'
    → Good s
    → Good s' × Permᴰ (held s') (e ∷ held s)
append-one now e s s' done g =
    let (buf, segs, count) = append_lem now (e ∷ []) s s' done in
    (
      Good-same s s' g segs (omega (arith, count)),
      Permᴰ.trans (Permᴰ-append (Permᴰ-of_eq buf) (Permᴰ-of_eq (ap all_segments segs))) (
          Permᴰ.trans (Permᴰ-of_eq (append_assoc s.buf (e ∷ []) (all_segments s.segs)))
            (PermD.middle e s.buf (all_segments s.segs))),
    )

pub flush-same :
    (a : Attempt) (s : Store)
    → SoundAttempt a
    → Good s
    → Good (flush a.disk a.visit [] s).1 × Permᴰ (held (flush a.disk a.visit [] s).1) (held s)
unfolding accepted_in accepted
flush-same a s sound g = flush_lem a.disk a.visit [] s sound g

Added-trans :
    (e : Event) (s s1 s' : Store) (ending : Ending)
    → Permᴰ (held s1) (held s)
    → Added e s1 ending s'
    → Added e s ending s'
Added-trans e s s1 s' stored_it p h = Permᴰ.trans h (Permᴰ.cons refl p)
Added-trans e s s1 s' gave_up p h = Permᴰ.trans h p
Added-trans e s s1 s' blocked p h = Permᴰ.trans h p

pub store_event-Added :
    (attempts : List Attempt) (e : Event) (s : Store)
    → All SoundAttempt attempts
    → Good s
    → All SoundAttempt (store_event attempts e s).left
      × Good (store_event attempts e s).store
      × Added e s (store_event attempts e s).ending (store_event attempts e s).store
unfolding store_event
store_event-Added [] e s sound g = (tt, g, PermD.refl (held s))
store_event-Added (a ∷ attempts) e s sound g = elim (Option-cases (append a.now (e ∷ []) s)) [
  | inr (s', done) ↦
      let (good, more) = append-one a.now e s s' done g in
      rw (done, store_event) (sound.1, good, more)
  | inl full ↦
      let s1 = (flush a.disk a.visit [] s).1 in
      let (good, same) = flush-same a s sound.0 g in
      elim (Bool-cases a.done) [
        | inl done ↦ rw (full, store_event) (rw (done, store_event) (sound.1, good, same))
        | inr going ↦
            let (left, good', more) = store_event-Added attempts e s1 sound.1 good in
            rw (full, store_event)
              (rw (going, store_event)
                (left, good', Added-trans e s s1 _ (store_event attempts e s1).ending same more))
      ]
]

-- The events of a record that are to be stored: those without an id, and those of which the id is seen first.
pub record Fresh : Type 0 where
  pub events : List Event
  pub seen : Dedupe

unfoldable pub fresh : ℕ → List Pending → Dedupe → Fresh
fresh project_id [] d = record { events = []; seen = d }
fresh project_id (pe ∷ pending) d =
    let seen = first_seen (record { project = project_id; id = pe.ex.event_id }) d in
    let d1 = if not (str_eq pe.ex.event_id "") then seen.1 else d in
    let rest = fresh project_id pending d1 in
    if not (str_eq pe.ex.event_id "") && not seen.0
    then rest
    else record rest { events = to_store_event project_id pe.ex pe.payload ∷ rest.events }

-- What has become of the events of a record: each is stored, or counted as a duplicate.
pub record Processed (project_id : ℕ) (pending : List Pending) (p p' : Pipeline) : Type 0 where
  pub rows : Permᴰ (held p'.store) ((fresh project_id pending p.dedupe).events ++ held p.store)
  pub stored_count : p'.stored ≡ p.stored + length (fresh project_id pending p.dedupe).events
  pub dropped :
      p'.drops.duplicate_count + length (fresh project_id pending p.dedupe).events
      ≡ p.drops.duplicate_count + length pending
  pub malformed_drops : p'.drops.malformed_count ≡ p.drops.malformed_count

abbrev pub Processed? : ℕ → List Pending → Pipeline → Ending × Pipeline → Type 0
Processed? project_id pending p (stored_it, p') = Processed project_id pending p p'
Processed? project_id pending p (gave_up, p') = Unit
Processed? project_id pending p (blocked, p') = Unit

pub Ending-cases : (e : Ending) → (e ≡ stored_it) ⊎ ((e ≡ gave_up) ⊎ (e ≡ blocked))
Ending-cases stored_it = inl refl
Ending-cases gave_up = inr (inl refl)
Ending-cases blocked = inr (inr refl)

abbrev key_of : ℕ → Pending → ProjectKey
key_of project_id pe = record { project = project_id; id = pe.ex.event_id }

abbrev noted : ℕ → Pending → Pipeline → Pipeline
noted project_id pe p = record p {
  dedupe =
      if not (str_eq pe.ex.event_id "")
      then (first_seen (key_of project_id pe) p.dedupe).1
      else p.dedupe;
}

abbrev known : ℕ → Pending → Pipeline → Bool
known project_id pe p =
    not (str_eq pe.ex.event_id "") && not (first_seen (key_of project_id pe) p.dedupe).0

skip-Processed :
    (project_id : ℕ) (pe : Pending) (pending : List Pending) (p : Pipeline) (r : Ending × Pipeline)
    → known project_id pe p ≡ true
    → Processed? project_id pending (drop_duplicate (noted project_id pe p)) r
    → Processed? project_id (pe ∷ pending) p r
unfolding fresh
skip-Processed project_id pe pending p (gave_up, p') dup h = tt
skip-Processed project_id pe pending p (blocked, p') dup h = tt
skip-Processed project_id pe pending p (stored_it, p') dup h = record {
  rows = rw (dup, fresh) h.rows;
  stored_count = rw (dup, fresh) h.stored_count;
  dropped = rw (dup, fresh) (omega (arith, h.dropped));
  malformed_drops = h.malformed_drops;
}

store-Processed :
    (project_id : ℕ) (pe : Pending) (pending : List Pending) (p : Pipeline) (s : Store)
    (r : Ending × Pipeline)
    → known project_id pe p ≡ false
    → Permᴰ (held s) (to_store_event project_id pe.ex pe.payload ∷ held p.store)
    → Processed? project_id pending
        (hit project_id pe (record (noted project_id pe p) { store = s }))
        r
    → Processed? project_id (pe ∷ pending) p r
unfolding fresh
store-Processed project_id pe pending p s (gave_up, p') new one h = tt
store-Processed project_id pe pending p s (blocked, p') new one h = tt
store-Processed project_id pe pending p s (stored_it, p') new one h =
    let later = fresh project_id pending (noted project_id pe p).dedupe in
    record {
      rows =
          rw (new, fresh)
            (Permᴰ.trans h.rows (
              Permᴰ.trans (PermD.append_left later.events one) (
                PermD.middle (to_store_event project_id pe.ex pe.payload) later.events
                  (held p.store))));
      stored_count = rw (new, fresh) (omega (arith, h.stored_count));
      dropped = rw (new, fresh) (omega (arith, h.dropped));
      malformed_drops = h.malformed_drops;
    }

pub store_events-Processed :
    (project_id : ℕ) (attempts : List Attempt) (pending : List Pending) (p : Pipeline)
    → All SoundAttempt attempts
    → Good p.store
    → Processed? project_id pending p (store_events project_id attempts pending p)
unfolding store_events
store_events-Processed project_id attempts [] p sound g =
    unfold fresh in
    record {
      rows = PermD.refl (held p.store);
      stored_count = omega arith;
      dropped = omega arith;
      malformed_drops = refl;
    }
store_events-Processed project_id attempts (pe ∷ pending) p sound g =
    let p1 = noted project_id pe p in
    let e = to_store_event project_id pe.ex pe.payload in
    let looped = store_event attempts e p.store in
    let (left, good, added) = store_event-Added attempts e p.store sound g in
    elim (Bool-cases (known project_id pe p)) [
      | inl dup ↦
          rw (dup, store_events)
            (skip-Processed project_id pe pending p
              (store_events project_id attempts pending (drop_duplicate p1)) dup
              (store_events-Processed project_id attempts pending (drop_duplicate p1) sound g))
      | inr new ↦
          rw (new, store_events)
            (elim (Ending-cases looped.ending) [
              | inr (inl up) ↦ rw (up, store_events) tt
              | inr (inr stuck) ↦ rw (stuck, store_events) tt
              | inl done ↦
                  let one : Permᴰ (held looped.store) (e ∷ held p.store) =
                    subst (λ x. Added e p.store x looped.store) done added in
                  rw (done, store_events)
                    (store-Processed project_id pe pending p looped.store _ new one (
                      store_events-Processed project_id looped.left pending
                        (hit project_id pe (record p1 { store = looped.store })) left good))
            ])
    ]
