-- ===== src/Wal/Durability.antt =====
-- Crash safety of internal/wal: what a log that is opened after a crash holds. A crash takes the
-- end of a file away, from any byte on that no fsync has made durable.
use leser.Prelude.{
  ℕ, ◌+◌, ◌-◌, ◌≤◌, ◌<◌, ◌^◌, ◌≡◌, ◌≢◌, refl, sym, ap, ◌∙◌, List, [], ◌∷◌, ◌++◌, arith, length,
  take, take_of_length-le, length-take-le, length-take-le_length, All, map, length-append, Bool,
}
use leser.Wal.Record.{Entry, append_record, seg_header_len}
use leser.Wal.Record.RoundTrip.{Fits, record_len, length-append_record}
use leser.Wal.Segment.Recovery.{encode_all, seg_file, whole, All-take}
use leser.Prelude.Bytes.{put_le}
use leser.Wal.Segment.{create_segment}
use leser.Wal.Disk.{Disk, truncate_file, list_segments, sort_bases, create_file, read_file}
use leser.Wal.Log.{Log, Options, SyncPolicy, ok, load, fresh, synced_of, sealed_sizes}
use leser.Wal.Writer.{Request, stamp, write_batch}
use leser.Wal.Layout.{
  Chunks, total, entries, files, meta, metas, Holds, NonEmpty, total-snoc, change_file-files,
  change_file_one,
}
use leser.Wal.Batches.{write_batch-Appended, offsets_from}
use leser.Wal.Recovery.{load-Scans, opened, opened-Holds, load_torn_header}
use leser.Wal.Rescans.{cut-Scans, length-seg_file}
use leser.Wal.Appends.{Sealed}
use mathlib.Core.Path.{subst}

-- The directory after a crash that leaves `k` bytes of the active file.
abbrev pub crash : ℕ → Log → Disk
crash k l = truncate_file k l.active l.disk

-- The directory after the power is lost: of each file, `cut` says how many bytes are left beyond those
-- that an fsync has made durable.
abbrev pub power_loss : (ℕ → ℕ) → Log → Disk
power_loss cut l =
    map (λ file. (file.0, take (synced_of file.0 l.synced + cut file.0) file.1)) l.disk

-- The log that is opened on a directory, and what it holds.
pub record Opens (m : ℕ) (d : Disk) (b : ℕ) (cs : Chunks) (es : List Entry) : Type 0 where
  pub log : Log
  pub result : load m d ≡ ok log
  pub holds : Holds m log b cs es

crash-files :
    (m k b : ℕ) (cs : Chunks) (es : List Entry) (l : Log)
    → Holds m l b cs es
    → crash k l ≡ files b cs ++ (b + total cs, take k (seg_file (b + total cs) es)) ∷ []
crash-files m k b cs es l h =
    ap (truncate_file k l.active) h.disk
    ∙ change_file-files l.active _ _ b cs h.sealed (omega (arith, h.active))
    ∙ ap (λ x. files b cs ++ x) (change_file_one _ l.active (b + total cs) _ (sym h.active))

All-init :
    (P : List Entry → Type 0) (cs : Chunks) (c : List Entry) → All P (cs ++ c ∷ []) → All P cs
All-init P [] c h = tt
All-init P (d ∷ cs) c h = (h.0, All-init P cs c h.1)

All-last : (P : List Entry → Type 0) (cs : Chunks) (c : List Entry) → All P (cs ++ c ∷ []) → P c
All-last P [] c h = h.0
All-last P (d ∷ cs) c h = All-last P cs c h.1

Holds-at :
    (m : ℕ) (l : Log) (b : ℕ) (cs : Chunks) {es fs : List Entry}
    → es ≡ fs
    → Holds m l b cs es
    → Holds m l b cs fs
Holds-at m l b cs p h = rw p at h

-- On a log whose state and files agree, a crash that cuts the active file behind its header: load
-- opens a log with the sealed segments whole and, of the active one, exactly the records of which no
-- byte is missing.
pub load-crash :
    (m b j : ℕ) (cs : Chunks) (es : List Entry) (l : Log)
    → Holds m l b cs es
    → Opens m (crash (seg_header_len + j) l) b cs (take (whole j es) es)
load-crash m b j cs es l h =
    let kept = take (whole j es) es in
    record {
      log = opened m b cs kept;
      result =
          ap (load m) (crash-files m _ b cs es l h)
          ∙ load-Scans m b cs kept _ h.sealed h.sealed_fit (omega (arith, h.next, h.word))
              (cut-Scans m (b + total cs) j es h.fit (omega (arith, h.next, h.word)));
      holds =
          opened-Holds m b cs kept h.sealed h.sealed_fit (All-take (Fits m) (whole j es) es h.fit)
            (omega (arith, h.next, h.word, length-take-le_length (whole j es) es));
    }

-- On a log whose state and files agree, with a sealed segment, a crash that cuts the active file
-- within its header: load opens a log with the sealed segments whole, the last of them active again.
pub load-crash_header :
    (m b k : ℕ) (cs : Chunks) (c es : List Entry) (l : Log)
    → Holds m l b (cs ++ c ∷ []) es
    → k < seg_header_len
    → Opens m (crash k l) b cs c
load-crash_header m b k cs c es l h short =
    let n = total-snoc cs c in
    let ne : All NonEmpty cs = All-init NonEmpty cs c h.sealed in
    let w : All (All (Fits m)) cs = All-init (All (Fits m)) cs c h.sealed_fit in
    record {
      log = opened m b cs c;
      result =
          ap (load m) (crash-files m k b (cs ++ c ∷ []) es l h)
          ∙ load_torn_header m b cs c _ (take k (seg_file (b + total (cs ++ c ∷ [])) es)) h.sealed
              ne h.sealed_fit refl (omega (arith, h.next, h.word))
              (omega (arith, length-take-le k (seg_file (b + total (cs ++ c ∷ [])) es)));
      holds =
          opened-Holds m b cs c ne w (All-last (All (Fits m)) cs c h.sealed_fit)
            (omega (arith, h.next, h.word, n));
    }

whole_all : (j : ℕ) (es : List Entry) → length (encode_all es) ≤ j → whole j es ≡ length es
unfolding whole encode_all
whole_all j [] h = refl
whole_all j (e ∷ es) h =
    let l = length-append (append_record e) (encode_all es) in
    ground (
      arith,
      length-append_record e,
      l,
      whole_all (j - record_len e) es (omega (arith, length-append_record e, l)),
    )

-- A crash that takes none of the records of the active segment away takes nothing away.
load-crash_durable :
    (m b k : ℕ) (cs : Chunks) (es : List Entry) (l : Log)
    → Holds m l b cs es
    → seg_header_len + length (encode_all es) ≤ k
    → Opens m (crash k l) b cs es
load-crash_durable m b k cs es l h d =
    let j = k - seg_header_len in
    let at : k ≡ seg_header_len + j = omega arith in
    let all : take (whole j es) es ≡ es =
      take_of_length-le (whole j es) es (omega (arith, whole_all j es (omega arith))) in
    let o = load-crash m b j cs es l h in
    record {
      log = o.log;
      result = ap (λ n. load m (crash n l)) at ∙ o.result;
      holds = Holds-at m o.log b cs all o.holds;
    }

uncut :
    (cut : ℕ → ℕ) (synced : List (ℕ × ℕ)) (b : ℕ) (cs : Chunks) (rest : Disk)
    → Sealed synced b cs
    → map
        (λ file. (file.0, take (synced_of file.0 synced + cut file.0) file.1))
        (files b cs ++ rest)
      ≡ files b cs
        ++ map (λ file. (file.0, take (synced_of file.0 synced + cut file.0) file.1)) rest
unfolding files Sealed
uncut cut synced b [] rest s = refl
uncut cut synced b (c ∷ cs) rest s =
    let all : take (synced_of b synced + cut b) (seg_file b c) ≡ seg_file b c =
      take_of_length-le _ _ (omega (arith, s.0, length-seg_file b c)) in
    ap
      (λ f.
        (b, f)
        ∷ map (λ file. (file.0, take (synced_of file.0 synced + cut file.0) file.1))
            (files (b + length c) cs ++ rest))
      all
    ∙ ap (λ d. (b, seg_file b c) ∷ d) (uncut cut synced (b + length c) cs rest s.1)

-- Where the sealed segments are durable, only the active file is cut.
power_loss-crash :
    (m b : ℕ) (cut : ℕ → ℕ) (cs : Chunks) (es : List Entry) (l : Log)
    → Holds m l b cs es
    → Sealed l.synced b cs
    → power_loss cut l ≡ crash (synced_of l.active l.synced + cut l.active) l
power_loss-crash m b cut cs es l h s =
    ap (map _) h.disk
    ∙ uncut cut l.synced b cs _ s
    ∙ ap
        (λ k.
          files b cs
          ++ (b + total cs, take (synced_of k l.synced + cut k) (seg_file (b + total cs) es)) ∷ [])
        (sym h.active)
    ∙ sym (crash-files m _ b cs es l h)

-- A log after writeBatch, and the log that is opened after a loss of power.
pub record Survives (m b : ℕ) (opts : Options) (now : ℕ) (due : Bool) (l : Log) (old : List Entry)
    (batch : List Request) (cut : ℕ → ℕ) : Type 0 where
  pub log : Log
  pub result : write_batch opts now due batch l ≡ ok (offsets_from l.next (length batch), log)
  pub sealed : Chunks
  pub current : List Entry
  pub opens : Opens m (power_loss cut log) b sealed current
  pub content : entries sealed ++ current ≡ old ++ map (stamp now) batch

-- Under SyncBatched and SyncAlways a batch of requests that fit, on a log whose state and files agree and
-- whose sealed segments have been synced, is acknowledged with the offsets from `next` on. If the power
-- is then lost, and with it of any of the segment files, sealed or active, any number of the bytes that no
-- fsync has made durable, the log that load opens holds every entry from before and every request of
-- the batch, in order.
pub write_batch-Survives :
    (m b : ℕ) (opts : Options) (now : ℕ) (due : Bool) (r : Request) (batch : List Request)
    (cs : Chunks) (es : List Entry) (l : Log) (cut : ℕ → ℕ)
    → opts.policy ≢ SyncPolicy.sync_interval
    → Holds m l b cs es
    → Sealed l.synced b cs
    → All (Fits m) (map (stamp now) (r ∷ batch))
    → l.next + length (r ∷ batch) < 2 ^ 64
    → Survives m b opts now due l (entries cs ++ es) (r ∷ batch) cut
write_batch-Survives m b opts now due r batch cs es l cut p h s w word =
    let a = write_batch-Appended m b opts now due r batch cs es l h w word s in
    record {
      log = a.log;
      result = a.result;
      sealed = a.sealed;
      current = a.current;
      opens =
          subst (λ d. Opens m d b a.sealed a.current)
            (sym (power_loss-crash m b cut a.sealed a.current a.log a.holds a.sealed_durable))
            (load-crash_durable m b (synced_of a.log.active a.log.synced + cut a.log.active)
              a.sealed a.current a.log a.holds (omega (arith, a.durable p)));
      content = a.content;
    }

-- An empty directory is opened as a log that holds nothing.
pub load-empty : (m : ℕ) → Opens m [] 0 [] []
load-empty m = record {
  log = opened m 0 [] [];
  result =
      unfold load list_segments sort_bases fresh create_file read_file files metas meta total
        seg_file encode_all create_segment put_le sealed_sizes in
      refl;
  holds = opened-Holds m 0 [] [] tt tt tt (unfold total in omega arith);
}
