-- ===== src/Wal/Log.antt =====
-- Log of internal/wal/wal.go: its state, and load (recovery).
use leser.Prelude.{
  ℕ, ◌+◌, Bool, true, ◌&&◌, Option, none, some, List, [], ◌∷◌, last?, ◌==◌, if◌then◌else◌,
}
use leser.Wal.Record.{seg_header_len}
use leser.Wal.Segment.{
  create_segment, read_segment_header, scan_segment, HeaderError, valid, invalid,
}
use leser.Wal.Disk.{Disk, read_file, truncate_file, remove_file, create_file, list_segments}

pub data Error : Type 0 where
  closed too_large read_only corrupt file_exists no_file no_segment : Error
  bad_header : ℕ → HeaderError → Error
  wrong_base : ℕ → ℕ → Error

pub data Result {ℓ} (A : Type ℓ) : Type ℓ where
  ok : A → Result A
  err : Error → Result A

infixl 5 ◌>>=◌
abbrev pub ◌>>=◌ {ℓ κ} : {A : Type ℓ} {B : Type κ} → Result A → (A → Result B) → Result B
ok a >>= f = f a
err e >>= f = err e

abbrev pub or_err {ℓ} : {A : Type ℓ} → Option A → Error → Result A
or_err none e = err e
or_err (some a) e = ok a

pub data SyncPolicy : Type 0 where
  sync_batched sync_always sync_interval : SyncPolicy

pub record Options : Type 0 where
  pub segment_bytes : ℕ
  pub max_record_bytes : ℕ
  pub max_batch_bytes : ℕ
  pub policy : SyncPolicy
  pub read_only : Bool

-- segMeta
pub record SegMeta : Type 0 where
  pub base : ℕ
  pub records : ℕ
  pub bytes : ℕ

unfoldable pub end : SegMeta → ℕ
end s = s.base + s.records

-- The files are part of the state. `active` is the base of the file that the open handle writes, and
-- `synced` notes for a file how many of its bytes an fsync has made durable, the latest fsync first.
pub record Log : Type 0 where
  pub segs : List SegMeta
  pub active : ℕ
  pub next : ℕ
  pub synced : List (ℕ × ℕ)
  pub disk : Disk

unfoldable pub synced_of : ℕ → List (ℕ × ℕ) → ℕ
synced_of k [] = 0
synced_of k ((j, n) ∷ synced) = if j == k then n else synced_of k synced

unfoldable pub fresh : Disk → Result Log
fresh disk = do
  disk' ← or_err (create_file 0 (create_segment 0) disk) file_exists
  ok (record {
    segs = record { base = 0; records = 0; bytes = seg_header_len } ∷ [];
    active = 0;
    next = 0;
    synced = [];
    disk = disk';
  })

-- The loop of load over the bases. A header that cannot be read is dropped if it is the last.
unfoldable pub load_segments : ℕ → Disk → List ℕ → Result (List SegMeta × Disk)
load_segments max_record disk [] = ok ([], disk)
load_segments max_record disk (base ∷ rest) = do
  f ← or_err (read_file base disk) no_file
  elim (read_segment_header f) [
    | invalid e ↦ elim rest [
      | [] ↦ ok ([], remove_file base disk)
      | _ ∷ _ ↦ err (bad_header base e)
    ]
    | valid hdr_base ↦
        if hdr_base == base
        then (do
          let scanned = scan_segment f max_record
          (segs, disk') ← load_segments max_record disk rest
          ok (record { base = base; records = scanned.0; bytes = scanned.1 } ∷ segs, disk'))
        else err (wrong_base base hdr_base)
  ]

-- Each segment must end where the next one begins.
unfoldable pub chained : List SegMeta → Bool
unfolding end
chained [] = true
chained (s ∷ []) = true
chained (s ∷ t ∷ segs) = end s == t.base && chained (t ∷ segs)

-- The fsyncs of roll before the process was started: those of all segments but the last
unfoldable pub sealed_sizes : List SegMeta → List (ℕ × ℕ)
sealed_sizes [] = []
sealed_sizes (s ∷ []) = []
sealed_sizes (s ∷ t ∷ segs) = (s.base, s.bytes) ∷ sealed_sizes (t ∷ segs)

unfoldable pub reopen : List SegMeta → Disk → Result Log
unfolding end sealed_sizes
reopen segs disk = do
  last ← or_err (last? segs) no_segment
  ok (record {
    segs = segs;
    active = last.base;
    next = end last;
    synced = sealed_sizes segs;
    disk = truncate_file last.bytes last.base disk;
  })

unfoldable pub resume : List SegMeta × Disk → Result Log
resume ([], disk) = fresh disk
resume (s ∷ segs, disk) = if chained (s ∷ segs) then reopen (s ∷ segs) disk else err corrupt

-- load of a log that this process owns
unfoldable pub load : ℕ → Disk → Result Log
load max_record disk = elim (list_segments disk) [
  | [] ↦ fresh disk
  | base ∷ rest ↦ load_segments max_record disk (base ∷ rest) >>= resume
]
