-- ===== src/Wal/Tests.antt =====
-- Runs of internal/wal on small inputs, and its theorems at inputs that meet their hypotheses.
use leser.Prelude.{
  ◌+◌, ◌<◌, ◌≡◌, refl, false, [], ◌∷◌, ◌++◌, some, none, arith, length, take, max, inr, ◌⊎◌, ◌≤◌,
  ◌≢◌,
}
use leser.Prelude.Bytes.{put_le, get_le, bytes_eq}
use leser.Wal.Crc.{checksum}
use leser.Wal.Record.{Entry, append_record, scan_record, seg_header_len}
use leser.Wal.Record.RoundTrip
use leser.Wal.Record.RoundTrip.{Fits, record_len}
use leser.Wal.Segment.{create_segment, read_segment_header, scan_segment, valid}
use leser.Wal.Segment.Recovery
use leser.Wal.Segment.Recovery.{encode_all, seg_file, whole}
use leser.Wal.Segment.Headers
use leser.Wal.Disk.{
  list_segments, create_file, read_file, change_file, remove_file, sort_bases, insert_sorted,
}
use leser.Wal.Log.{
  Log, Options, SyncPolicy, ok, load, fresh, load_segments, resume, reopen, chained, end,
  sealed_sizes, synced_of,
}
use leser.Wal.Appends.{Sealed}
use leser.Wal.Writer.{
  Request, next_batch, write_batch, write_records, write_record, stamp, roll, put_record,
  sync_record, sync, sync_batch,
}
use leser.Wal.Layout.{entries, Holds, total, meta, metas, files}
use leser.Wal.Batches.{total_request_bytes, next_batch_lem}
use leser.Wal.Recovery.{opened, opened-Holds}
use leser.Wal.Durability
use leser.Wal.Durability.{Opens, crash, Survives}
use leser.Wal.Reader
use leser.Wal.Reader.{Reader}
use leser.Wal.Delivery.Next
use leser.Wal.Delivery.Next.{Delivers}
use leser.Wal.Retention
use leser.Wal.Retention.{RetentionPolicy, Retains}
use leser.Wal.Offsets
use leser.Wal.Refresh.{
  Follower, refresh, rescan, first_segments, next_segments, read_segment_probe, set_next,
}
use leser.Wal.Refresh.Current
use leser.Wal.Refresh.Current.{Earlier, current}

abbrev opts : Options
opts = record {
  segment_bytes = 50;
  max_record_bytes = 100;
  max_batch_bytes = 40;
  policy = SyncPolicy.sync_batched;
  read_only = false;
}

abbrev ping : Request
ping = record { typ = 1; payload = 7 ∷ 8 ∷ [] }

abbrev pong : Request
pong = record { typ = 2; payload = 9 ∷ [] }

abbrev first : Entry
first = record { time = 5; typ = 1; payload = 7 ∷ 8 ∷ [] }

abbrev second : Entry
second = record { time = 5; typ = 2; payload = 9 ∷ [] }

Fits-first : Fits 100 first
Fits-first = omega arith

Fits-second : Fits 100 second
Fits-second = omega arith

abbrev empty : Log
empty = opened 100 0 [] []

abbrev two : Log
two = opened 100 0 ((first ∷ []) ∷ []) (second ∷ [])

two-Holds : Holds 100 two 0 ((first ∷ []) ∷ []) (second ∷ [])
unfolding total
two-Holds =
    opened-Holds 100 0 _ _ (omega arith, tt) ((Fits-first, tt), tt) (Fits-second, tt) (omega arith)

empty-Holds : Holds 100 empty 0 [] []
unfolding total
empty-Holds = opened-Holds 100 0 [] [] tt tt tt (omega arith)

program : Unit {0}
unfolding put_le get_le bytes_eq checksum append_record scan_record create_segment
    read_segment_header scan_segment list_segments sort_bases insert_sorted create_file read_file
    change_file sealed_sizes synced_of remove_file load fresh load_segments resume reopen chained
    end write_batch write_records write_record stamp roll put_record sync_record sync sync_batch
    encode_all seg_file total meta metas files
program = tt

-- The second record does not fit the first segment, and goes to a new one at offset 1.
rolls :
    (write_batch opts 5 false (ping ∷ pong ∷ []) empty)
    ≡ ok (
      0 ∷ 1 ∷ [],
      record two { synced = (1, seg_header_len + 18) ∷ (0, seg_header_len + 19) ∷ [] },
    )
unfolding program
rolls = refl

reopened : load 100 two.disk ≡ ok two
unfolding program
reopened = refl

write_batch-Survives_example : Survives 100 0 opts 5 false empty [] (ping ∷ pong ∷ []) (λ k. 3)
unfolding stamp entries total Sealed
write_batch-Survives_example =
    Durability.write_batch-Survives 100 0 opts 5 false ping (pong ∷ []) [] [] empty (λ k. 3)
      (λ e. cc) empty-Holds tt (Fits-first, (Fits-second, tt)) (omega arith)

load-crash_example :
    Opens 100 (crash 30 two) 0 ((first ∷ []) ∷ []) (take (whole 10 (second ∷ [])) (second ∷ []))
load-crash_example = Durability.load-crash 100 0 10 ((first ∷ []) ∷ []) (second ∷ []) two two-Holds

load-crash_header_example : Opens 100 (crash 7 two) 0 [] (first ∷ [])
load-crash_header_example =
    Durability.load-crash_header 100 0 7 [] (first ∷ []) (second ∷ []) two two-Holds (omega arith)

abbrev reader : Reader
reader = record { pos = 1; committed = 0; cursor = none }

next-Delivers_example : Delivers 100 two 0 ((first ∷ []) ∷ []) (second ∷ []) reader
unfolding total
next-Delivers_example =
    Next.next-Delivers 100 0 ((first ∷ []) ∷ []) (second ∷ []) two reader two-Holds tt (omega arith)
      (omega arith)

abbrev policy : RetentionPolicy
policy = record { max_bytes = 50; max_age = 0; min_retain_offset = 1 }

retain-Retains_example : Retains 100 0 policy 9 two ((first ∷ []) ∷ []) (second ∷ [])
retain-Retains_example = Retention.retain-Retains 100 0 policy 9 two _ _ two-Holds

scan_record-append_record_example :
    scan_record (RoundTrip.file (1 ∷ []) first (3 ∷ []) 50 100 9) 1 50 100 9
    ≡ some (record { offset = 9; entry = first }, 1 + record_len first)
unfolding record_len
scan_record-append_record_example =
    RoundTrip.scan_record-append_record (1 ∷ []) first (3 ∷ []) 50 100 9 (omega arith) Fits-first

scan_segment_cut_example :
    scan_segment (take (seg_header_len + 25) (seg_file 4 (first ∷ second ∷ []))) 100 ≡ (
      whole 25 (first ∷ second ∷ []),
      seg_header_len
          + length (encode_all (take (whole 25 (first ∷ second ∷ [])) (first ∷ second ∷ []))),
    )
scan_segment_cut_example =
    Recovery.scan_segment_cut 4 25 100 (first ∷ second ∷ []) (Fits-first, (Fits-second, tt))

read_segment_header-create_segment_example :
    read_segment_header (create_segment 77 ++ 1 ∷ []) ≡ valid 77
read_segment_header-create_segment_example =
    Headers.read_segment_header-create_segment 77 (1 ∷ []) (omega arith)

next_batch_lem_example :
    ((next_batch opts (ping ∷ pong ∷ [])).0 ++ (next_batch opts (ping ∷ pong ∷ [])).1
      ≡ ping ∷ pong ∷ [])
    × ((ping ∷ pong ∷ [] ≡ []) ⊎ (0 < length (next_batch opts (ping ∷ pong ∷ [])).0))
    × ((length (next_batch opts (ping ∷ pong ∷ [])).0 ≤ 1)
        ⊎ ((total_request_bytes (take 1 (next_batch opts (ping ∷ pong ∷ [])).0) < 40)
            × (opts.policy ≢ SyncPolicy.sync_always)))
next_batch_lem_example = next_batch_lem opts (ping ∷ pong ∷ []) 0

new_reader-commit_example :
    ((Offsets.commit "pipeline" reader []).0.committed ≡ 1)
    × (Offsets.new_reader two (Offsets.commit "pipeline" reader []).1 "pipeline"
        ≡ Offsets.reader
            (record { pos = max 1 (Reader.oldest_offset two); committed = 1; cursor = none }))
unfolding Offsets.has_separator
new_reader-commit_example = Offsets.new_reader-commit "pipeline" reader [] two refl (omega arith)

-- A follower that has seen the first segment while it was empty
abbrev behind : Follower
behind = record { segs = record { base = 0; records = 0; bytes = seg_header_len } ∷ []; next = 0 }

behind-Earlier : Earlier 0 ((first ∷ []) ∷ []) (second ∷ []) behind.segs
unfolding metas meta total encode_all
behind-Earlier = record {
  seen = [];
  old = [];
  now = first ∷ [];
  more = (second ∷ []) ∷ [];
  known = refl;
  whole = refl;
  written = (omega arith, tt);
}

refreshed : refresh 100 two.disk behind ≡ (current two, none)
unfolding program refresh rescan first_segments next_segments read_segment_probe set_next
refreshed = refl

refresh-current_example : refresh 100 two.disk behind ≡ (current two, none)
refresh-current_example =
    Current.refresh-current 100 0 ((first ∷ []) ∷ []) (second ∷ []) two two-Holds behind
      (inr behind-Earlier)

refresh_twice_example :
    refresh 100 empty.disk (current empty)
    ≡ (record { segs = empty.segs ++ meta (0 + total []) [] ∷ []; next = empty.next }, none)
refresh_twice_example = Current.refresh_twice 100 0 [] empty (current empty) empty-Holds refl
