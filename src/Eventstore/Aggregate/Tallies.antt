-- ===== src/Eventstore/Aggregate/Tallies.antt =====
-- Aggregate of internal/eventstore/aggregate.go against the tally of all matching rows.

use leser.Prelude.{
  ℕ, ◌+◌, ◌-◌, ◌%◌, length, ◌≤◌, ◌≡◌, Option, some, List, [], ◌∷◌, String, str_eq, All,
  if◌then◌else◌,
}
use leser.Prelude.Bytes.{Bytes}
use leser.Sketch.{Registers, new_hll, add_all}
use leser.Eventstore.{Event, SegMeta}
use leser.Eventstore.Scans.{all_groups}
use leser.Eventstore.Aggregate.{Stats, Tally, add_event}
use leser.Eventstore.Aggregate.Counts.{bumps, bump_buckets, Top, Timeline}

module _ (utf8 : String → Bytes) (footer_sketch : SegMeta → Option Registers)
    (bucket_nanos : ℕ) where
  abbrev add_one : Event → Tally → Tally
  add_one e t = add_event utf8 footer_sketch bucket_nanos e t

  -- The events one by one
  unfoldable pub tally : List Event → Tally → Tally
  tally [] t = t
  tally (e ∷ rows) t = tally rows (add_one e t)

  unfoldable pub user_ids : List Event → List Bytes
  user_ids [] = []
  user_ids (e ∷ rows) =
      let rest = user_ids rows in if str_eq e.user_id "" then rest else utf8 e.user_id ∷ rest

  -- A footer's sketch is that of the users of the rows.
  abbrev pub Footers : List SegMeta → Type 0
  Footers segs =
      All
        (λ m.
          (h : Registers)
          → footer_sketch m ≡ some h
          → h ≡ add_all (user_ids (all_groups m.groups)) new_hll)
        segs

  abbrev Own : SegMeta → Event → Type 0
  Own m e = (e.project_id ≡ m.project_id) × (m.min_ts ≤ e.timestamp) × (e.timestamp ≤ m.max_ts)

-- What Aggregate answers of some events, with buckets of a size and the `n` greatest counts
pub record Aggregated (size n : ℕ) (ids : List Bytes) (rows : List Event) (stats : Stats)
    : Type 0 where
  pub total : stats.total ≡ length rows
  pub buckets : Timeline (λ e. e.timestamp - e.timestamp % size) rows stats.buckets
  pub levels : Top n (λ e. e.level) rows stats.top_levels
  pub releases : Top n (λ e. e.release) rows stats.top_releases
  pub environments : Top n (λ e. e.environment) rows stats.top_environments
  pub fingerprints : Top n (λ e. e.fingerprint) rows stats.top_fingerprints
  pub users : stats.unique_users ≡ add_all ids new_hll

module _ (utf8 : String → Bytes) (footer_sketch : SegMeta → Option Registers) (size : ℕ) where
  -- The counters stand apart from each other.
  abbrev tallied : List Event → Tally → Tally
  tallied rows t = record {
    total = t.total + length rows;
    buckets = bump_buckets (λ e. e.timestamp - e.timestamp % size) rows t.buckets;
    levels = bumps (λ e. e.level) rows t.levels;
    releases = bumps (λ e. e.release) rows t.releases;
    environments = bumps (λ e. e.environment) rows t.environments;
    fingerprints = bumps (λ e. e.fingerprint) rows t.fingerprints;
    users = add_all (user_ids utf8 footer_sketch size rows) t.users;
  }
