-- ===== src/Wal/Writer.antt =====
-- The writing half of internal/wal/wal.go: Append's checks, the batch that writeLoop collects,
-- writeBatch and roll.
use leser.Prelude.{
  ℕ, ◌+◌, Bool, ◌&&◌, none, some, List, [], ◌∷◌, ◌++◌, map, length, last?, update_last, ltb,
  if◌then◌else◌,
}
use leser.Prelude.Bytes.{Bytes}
use leser.Wal.Record.{Entry, append_record, seg_header_len, rec_header_len, body_fixed_len}
use leser.Wal.Segment.{create_segment}
use leser.Wal.Disk.{append_file, create_file}
use leser.Wal.Log.{
  Result, ok, err, ◌>>=◌, or_err, closed, too_large, read_only, file_exists, no_segment, Options,
  SyncPolicy, sync_batched, sync_always, sync_interval, SegMeta, Log,
}

-- appendReq, less its reply channel
pub record Request : Type 0 where
  pub typ : ℕ
  pub payload : Bytes

-- The checks that Append makes before it queues a request.
unfoldable pub admit : Options → Bool → ℕ → Bytes → Result Request
admit opts is_closed typ payload =
    if opts.read_only
    then err read_only
    else if ltb opts.max_record_bytes (length payload + body_fixed_len)
    then err too_large
    else if is_closed
    then err closed
    else ok (record { typ = typ; payload = payload })

unfoldable pub request_bytes : Request → ℕ
request_bytes r = rec_header_len + body_fixed_len + length r.payload

-- The `collect` loop of writeLoop over the requests that arrive before the deadline: what joins the
-- batch, and what stays in the queue.
unfoldable pub collect : ℕ → ℕ → List Request → List Request × List Request
unfolding request_bytes
collect max_batch batch_bytes [] = ([], [])
collect max_batch batch_bytes (r ∷ queue) =
    let rest = collect max_batch (batch_bytes + request_bytes r) queue in
    if ltb batch_bytes max_batch then (r ∷ rest.0, rest.1) else ([], r ∷ queue)

-- One round of writeLoop over the queued requests: `arrived` of them are there before the deadline.
unfoldable pub next_batch : Options → List Request → List Request × List Request
unfolding collect
next_batch opts [] = ([], [])
next_batch opts (r ∷ queue) = elim opts.policy [
  | SyncPolicy.sync_always ↦ (r ∷ [], queue)
  | _ ↦ let more = collect opts.max_batch_bytes (request_bytes r) queue in (r ∷ more.0, more.1)
]

abbrev pub grow : ℕ → SegMeta → SegMeta
grow n s = record s { records = s.records + 1; bytes = s.bytes + n }

-- f.Sync() on the active file
unfoldable pub sync : Log → Log
sync l = elim (last? l.segs) [
  | none ↦ l
  | some s ↦ record l { synced = (l.active, s.bytes) ∷ l.synced }
]

-- Seals the active segment with an fsync, and makes the next one.
unfoldable pub roll : Log → Result Log
unfolding sync
roll l = do
  let l' = sync l
  disk' ← or_err (create_file l'.next (create_segment l'.next) l'.disk) file_exists
  ok (record l' {
    segs = l'.segs ++ record { base = l'.next; records = 0; bytes = seg_header_len } ∷ [];
    active = l'.next;
    disk = disk';
  })

-- The fsync of each record under SyncAlways
unfoldable pub sync_record : SyncPolicy → Log → Log
unfolding sync
sync_record sync_always l = sync l
sync_record sync_batched l = l
sync_record sync_interval l = l

-- The write of one encoded record to the active file, with the counters after it.
unfoldable pub put_record : Options → Bytes → Log → Log
unfolding sync_record
put_record opts rec l = sync_record opts.policy (record l {
  segs = update_last (grow (length rec)) l.segs;
  next = l.next + 1;
  disk = append_file rec l.active l.disk;
})

-- The body of the loop of writeBatch: the offset, and the log after the write.
unfoldable pub write_record : Options → Entry → Log → Result (ℕ × Log)
write_record opts e l = do
  active ← or_err (last? l.segs) no_segment
  let rec = append_record e
  l' ←
      if ltb opts.segment_bytes (active.bytes + length rec) && ltb 0 active.records
      then roll l
      else ok l
  ok (l'.next, put_record opts rec l')

unfoldable pub write_records : Options → List Entry → Log → Result (List ℕ × Log)
write_records opts [] l = ok ([], l)
write_records opts (e ∷ es) l = do
  (offset, l') ← write_record opts e l
  (offsets, l'') ← write_records opts es l'
  ok (offset ∷ offsets, l'')

unfoldable pub stamp : ℕ → Request → Entry
stamp now r = record { time = now; typ = r.typ; payload = r.payload }

-- The fsync at the end of writeBatch; `due` says that BatchWindow has passed since the last one.
unfoldable pub sync_batch : SyncPolicy → Bool → Log → Log
unfolding sync
sync_batch sync_batched due l = sync l
sync_batch sync_always due l = l
sync_batch sync_interval due l = if due then sync l else l

unfoldable pub write_batch : Options → ℕ → Bool → List Request → Log → Result (List ℕ × Log)
write_batch opts now due batch l = do
  (offsets, l') ← write_records opts (map (stamp now) batch) l
  ok (offsets, sync_batch opts.policy due l')
