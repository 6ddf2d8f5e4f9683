-- ===== src/Wal/Refresh.antt =====
-- Refresh of internal/wal/wal.go: a log that was opened read-only beside the process that owns the
-- files. `disk` is the directory while Refresh runs.
pub mod Following
pub mod Current
use leser.Prelude.{
  ℕ, ◌+◌, ltb, ◌==◌, if◌then◌else◌, Option, none, some, List, [], ◌∷◌, ◌++◌, last?, update_last,
}
use leser.Wal.Segment.{read_segment_header, scan_segment, valid, invalid}
use leser.Wal.Disk.{Disk, read_file, list_segments}
use leser.Wal.Log.{SegMeta, Error, end}

-- The fields of Log that a read-only log has a use for
pub record Follower : Type 0 where
  pub segs : List SegMeta
  pub next : ℕ

-- What readSegmentProbe returns: `not_ready` is errSegmentNotReady.
pub data Probe : Type 0 where
  ready : SegMeta → Probe
  not_ready : Probe
  failed : Error → Probe

unfoldable pub read_segment_probe : ℕ → Disk → ℕ → Probe
read_segment_probe max_record disk base = elim (read_file base disk) [
  | none ↦ not_ready
  | some f ↦ elim (read_segment_header f) [
    | invalid e ↦ not_ready
    | valid hdr_base ↦
        if hdr_base == base
        then (let scanned = scan_segment f max_record in
            ready (record { base = base; records = scanned.0; bytes = scanned.1 }))
        else failed (Error.wrong_base base hdr_base)
  ]
]

-- The loop of Refresh where no segment is known, with the segments so far
unfoldable pub first_segments : ℕ → Disk → List ℕ → List SegMeta → List SegMeta × Option Error
first_segments max_record disk [] segs = (segs, none)
first_segments max_record disk (base ∷ bases) segs =
    elim (read_segment_probe max_record disk base) [
      | not_ready ↦ (segs, none)
      | failed e ↦ (segs, some e)
      | ready s ↦ first_segments max_record disk bases (segs ++ s ∷ [])
    ]

-- The loop of Refresh behind the last known segment, which ends at `expect`
unfoldable pub next_segments : ℕ → Disk → List ℕ → ℕ → List SegMeta → List SegMeta × Option Error
unfolding end
next_segments max_record disk [] expect segs = (segs, none)
next_segments max_record disk (base ∷ bases) expect segs =
    let skipped = next_segments max_record disk bases expect segs in
    let added : List SegMeta × Option Error = elim (read_segment_probe max_record disk base) [
      | not_ready ↦ (segs, none)
      | failed e ↦ (segs, some e)
      | ready s ↦ next_segments max_record disk bases (end s) (segs ++ s ∷ [])
    ] in
    if ltb base expect
    then skipped
    else if base == expect
    then added
    else (segs, some Error.corrupt)

-- The last known segment may have grown, and is read again.
unfoldable pub rescan : ℕ → Disk → List ℕ → List SegMeta → List SegMeta × Option Error
unfolding end
rescan max_record disk bases segs = elim (last? segs) [
  | none ↦ first_segments max_record disk bases segs
  | some last ↦ elim (read_segment_probe max_record disk last.base) [
    | not_ready ↦ next_segments max_record disk bases (end last) segs
    | failed e ↦ (segs, some e)
    | ready s ↦ next_segments max_record disk bases (end s) (update_last (λ _. s) segs)
  ]
]

-- An error returns with the segments so far, and before `next` is set.
unfoldable pub set_next : Follower → List SegMeta × Option Error → Follower × Option Error
unfolding end
set_next l (segs, some e) = (record l { segs = segs }, some e)
set_next l (segs, none) = elim (last? segs) [
  | none ↦ (record l { segs = segs }, none)
  | some last ↦ (record { segs = segs; next = end last }, none)
]

unfoldable pub refresh : ℕ → Disk → Follower → Follower × Option Error
unfolding rescan set_next
refresh max_record disk l = elim (list_segments disk) [
  | [] ↦ (l, none)
  | base ∷ bases ↦ set_next l (rescan max_record disk (base ∷ bases) l.segs)
]
