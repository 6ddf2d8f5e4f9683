-- ===== src/Wal/Appends.antt =====
-- writeBatch and roll of internal/wal/wal.go: what is in the log after a write.
use leser.Prelude.{
  ℕ, ◌+◌, ◌≤◌, ◌<◌, ◌^◌, ◌≡◌, refl, sym, ap, ◌∙◌, List, [], ◌∷◌, ◌++◌, none, some, arith,
  append_assoc, append-nil, length, All, All-append, length-append, Option-cases, Bool, true, false,
  Bool-cases, inl, inr, last?, last?-snoc, update_last, update_last-snoc, ltb, ◌&&◌,
}
use leser.Prelude.Bytes.{Bytes}
use leser.Wal.Record.{Entry, append_record, seg_header_len}
use leser.Wal.Record.RoundTrip.{Fits}
use leser.Wal.Segment.{create_segment}
use leser.Wal.Segment.Recovery.{encode_all, encode_all-append, seg_file}
use leser.Wal.Disk.{read_file, append_file, create_file}
use leser.Wal.Log.{Log, Options, SyncPolicy, ok, synced_of}
use leser.Wal.Writer.{roll, sync, sync_record, put_record, write_record, grow}
use leser.Wal.Layout.{
  Chunks, total, entries, meta, metas, files, Holds, NonEmpty, total-snoc, entries-snoc, metas-snoc,
  files-snoc, read_file-files, change_file-files, change_file_one,
}

-- All bytes of the active segment, which holds `es`, are durable.
abbrev pub Synced : Log → List Entry → Type 0
Synced l es = synced_of l.active l.synced ≡ seg_header_len + length (encode_all es)

synced_of_self : (k n : ℕ) (synced : List (ℕ × ℕ)) → synced_of k ((k, n) ∷ synced) ≡ n
unfolding synced_of
synced_of_self k n synced = ground arith

-- All bytes of the sealed segments `cs` are durable.
unfoldable pub Sealed : List (ℕ × ℕ) → ℕ → Chunks → Type 0
Sealed synced b [] = Unit
Sealed synced b (c ∷ cs) =
    (synced_of b synced ≡ seg_header_len + length (encode_all c)) × Sealed synced (b + length c) cs

-- An fsync of a later file
Sealed-more :
    (k n b : ℕ) (cs : Chunks) (synced : List (ℕ × ℕ))
    → All NonEmpty cs
    → b + total cs ≤ k
    → Sealed synced b cs
    → Sealed ((k, n) ∷ synced) b cs
unfolding Sealed total synced_of
Sealed-more k n b [] synced ne h s = tt
Sealed-more k n b (c ∷ cs) synced ne h s =
    (ground (arith, s.0), Sealed-more k n (b + length c) cs synced ne.1 (omega arith) s.1)

Sealed-snoc :
    (b : ℕ) (cs : Chunks) (es : List Entry) (synced : List (ℕ × ℕ))
    → Sealed synced b cs
    → synced_of (b + total cs) synced ≡ seg_header_len + length (encode_all es)
    → Sealed synced b (cs ++ es ∷ [])
unfolding Sealed total
Sealed-snoc b [] es synced s h = (ap (λ k. synced_of k synced) (omega arith) ∙ h, tt)
Sealed-snoc b (c ∷ cs) es synced s h = (
  s.0,
  Sealed-snoc (b + length c) cs es synced s.1 (ap (λ k. synced_of k synced) (omega arith) ∙ h),
)

next-sync : (l : Log) → (sync l).next ≡ l.next
unfolding sync
next-sync l = ground arith

next-sync_record : (p : SyncPolicy) (l : Log) → (sync_record p l).next ≡ l.next
unfolding sync_record
next-sync_record SyncPolicy.sync_always l = next-sync l
next-sync_record SyncPolicy.sync_batched l = refl
next-sync_record SyncPolicy.sync_interval l = refl

abbrev after_roll : List Entry → Log → Log
after_roll es l = record l {
  segs = l.segs ++ record { base = l.next; records = 0; bytes = seg_header_len } ∷ [];
  active = l.next;
  synced = (l.active, seg_header_len + length (encode_all es)) ∷ l.synced;
  disk = l.disk ++ (l.next, create_segment l.next) ∷ [];
}

module _ (m : ℕ) (b : ℕ) (cs : Chunks) (es : List Entry) where
  -- An fsync changes nothing that can be read.
  pub sync-Holds : (l : Log) → Holds m l b cs es → Holds m (sync l) b cs es
  unfolding sync
  sync-Holds l h = elim (Option-cases (last? l.segs)) [
    | inl e ↦ rw (e, sync) h
    | inr (s, e) ↦
        rw (e, sync)
          (record {
            segs = h.segs;
            disk = h.disk;
            active = h.active;
            next = h.next;
            sealed = h.sealed;
            sealed_fit = h.sealed_fit;
            fit = h.fit;
            word = h.word;
          })
  ]

  sync_lem :
      (l : Log)
      → Holds m l b cs es
      → sync l
        ≡ record l { synced = (l.active, seg_header_len + length (encode_all es)) ∷ l.synced }
  unfolding sync
  sync_lem l h =
      let e : last? l.segs ≡ some (meta (b + total cs) es) =
        ap last? h.segs ∙ last?-snoc (metas b cs) (meta (b + total cs) es) in
      rw (e, sync) (unfold meta in refl)

  pub sync-Synced : (l : Log) → Holds m l b cs es → Synced (sync l) es
  sync-Synced l h =
      rw (sync_lem l h) (synced_of_self l.active (seg_header_len + length (encode_all es)) l.synced)

  pub sync-Sealed :
      (l : Log) → Holds m l b cs es → Sealed l.synced b cs → Sealed (sync l).synced b cs
  sync-Sealed l h s = rw (sync_lem l h) (
      Sealed-more l.active (seg_header_len + length (encode_all es)) b cs l.synced h.sealed
        (omega (arith, h.active)) s)

  pub sync_record-Holds :
      (p : SyncPolicy) (l : Log) → Holds m l b cs es → Holds m (sync_record p l) b cs es
  unfolding sync_record
  sync_record-Holds SyncPolicy.sync_always l h = sync-Holds l h
  sync_record-Holds SyncPolicy.sync_batched l h = h
  sync_record-Holds SyncPolicy.sync_interval l h = h

  sync_record-Synced :
      (p : SyncPolicy) (l : Log)
      → Holds m l b cs es
      → p ≡ SyncPolicy.sync_always
      → Synced (sync_record p l) es
  unfolding sync_record
  sync_record-Synced SyncPolicy.sync_always l h q = sync-Synced l h
  sync_record-Synced SyncPolicy.sync_batched l h q = cc
  sync_record-Synced SyncPolicy.sync_interval l h q = cc

  next_unused : (l : Log) → Holds m l b cs es → 0 < length es → read_file l.next l.disk ≡ none
  next_unused l h ne =
      ap (read_file l.next) h.disk
      ∙ read_file-files l.next _ b cs h.sealed (omega (arith, h.next))
      ∙ (unfold read_file in ground (arith, h.next))

  roll-after_roll : (l : Log) → Holds m l b cs es → 0 < length es → roll l ≡ ok (after_roll es l)
  unfolding roll create_file
  roll-after_roll l h ne = rw (sync_lem l h, roll) (rw (next_unused l h ne, create_file) refl)

  after_roll-Sealed :
      (l : Log)
      → Holds m l b cs es
      → Sealed l.synced b cs
      → Sealed (after_roll es l).synced b (cs ++ es ∷ [])
  after_roll-Sealed l h s =
      let n = seg_header_len + length (encode_all es) in
      Sealed-snoc b cs es _
        (Sealed-more l.active n b cs l.synced h.sealed (omega (arith, h.active)) s)
        (ap (λ k. synced_of k ((l.active, n) ∷ l.synced)) (sym h.active)
          ∙ synced_of_self l.active n l.synced)

  sync_record-Sealed :
      (p : SyncPolicy) (l : Log)
      → Holds m l b cs es
      → Sealed l.synced b cs
      → Sealed (sync_record p l).synced b cs
  unfolding sync_record
  sync_record-Sealed SyncPolicy.sync_always l h s = sync-Sealed l h s
  sync_record-Sealed SyncPolicy.sync_batched l h s = s
  sync_record-Sealed SyncPolicy.sync_interval l h s = s

  after_roll-Holds :
      (l : Log) → Holds m l b cs es → 0 < length es → Holds m (after_roll es l) b (cs ++ es ∷ []) []
  unfolding meta seg_file encode_all
  after_roll-Holds l h ne =
      let at : b + total (cs ++ es ∷ []) ≡ l.next = omega (arith, h.next, total-snoc cs es) in
      record {
        segs = rw (metas-snoc, at, ← h.segs) refl;
        disk = rw (files-snoc, at, ← h.disk, append-nil) refl;
        active = sym at;
        next = omega arith;
        sealed = All-append NonEmpty cs (es ∷ []) h.sealed (ne, tt);
        sealed_fit = All-append (All (Fits m)) cs (es ∷ []) h.sealed_fit (h.fit, tt);
        fit = tt;
        word = h.word;
      }

module _ (m : ℕ) (b : ℕ) (cs : Chunks) (es : List Entry) (e : Entry) where
  abbrev written : Log → Log
  written l = record l {
    segs = update_last (grow (length (append_record e))) l.segs;
    next = l.next + 1;
    disk = append_file (append_record e) l.active l.disk;
  }

  length-encode_all-snoc :
      length (encode_all (es ++ e ∷ [])) ≡ length (encode_all es) + length (append_record e)
  unfolding encode_all
  length-encode_all-snoc =
      rw (encode_all-append, append-nil) (length-append (encode_all es) (append_record e))

  meta-snoc : (k : ℕ) → grow (length (append_record e)) (meta k es) ≡ meta k (es ++ e ∷ [])
  unfolding meta
  meta-snoc k = ground (arith, length-encode_all-snoc, length-append es (e ∷ []))

  seg_file-snoc : (k : ℕ) → seg_file k es ++ append_record e ≡ seg_file k (es ++ e ∷ [])
  unfolding seg_file encode_all
  seg_file-snoc k = rw (encode_all-append, append-nil, append_assoc)

  written-Holds :
      (l : Log)
      → Holds m l b cs es
      → Fits m e
      → l.next + 1 < 2 ^ 64
      → Holds m (written l) b cs (es ++ e ∷ [])
  written-Holds l h w word = record {
    segs =
        ap (update_last _) h.segs
        ∙ update_last-snoc _ (metas b cs) _
        ∙ ap (λ x. metas b cs ++ x ∷ []) (meta-snoc (b + total cs));
    disk =
        ap (append_file (append_record e) l.active) h.disk
        ∙ change_file-files l.active _ _ b cs h.sealed (omega arith)
        ∙ ap (λ x. files b cs ++ x) (change_file_one _ l.active (b + total cs) _ (sym h.active))
        ∙ ap (λ x. files b cs ++ (b + total cs, x) ∷ []) (seg_file-snoc (b + total cs));
    active = h.active;
    next = omega (arith, h.next, length-append es (e ∷ []));
    sealed = h.sealed;
    sealed_fit = h.sealed_fit;
    fit = All-append (Fits m) es (e ∷ []) h.fit (w, tt);
    word = word;
  }

  put_record-Holds :
      (opts : Options) (l : Log)
      → Holds m l b cs es
      → Fits m e
      → l.next + 1 < 2 ^ 64
      → Holds m (put_record opts (append_record e) l) b cs (es ++ e ∷ [])
  unfolding put_record
  put_record-Holds opts l h w word =
      sync_record-Holds m b cs (es ++ e ∷ []) opts.policy (written l) (written-Holds l h w word)

  put_record-Synced :
      (opts : Options) (l : Log)
      → Holds m l b cs es
      → Fits m e
      → l.next + 1 < 2 ^ 64
      → opts.policy ≡ SyncPolicy.sync_always
      → Synced (put_record opts (append_record e) l) (es ++ e ∷ [])
  unfolding put_record
  put_record-Synced opts l h w word =
      sync_record-Synced m b cs (es ++ e ∷ []) opts.policy (written l) (written-Holds l h w word)

  put_record-Sealed :
      (opts : Options) (l : Log)
      → Holds m l b cs es
      → Fits m e
      → l.next + 1 < 2 ^ 64
      → Sealed l.synced b cs
      → Sealed (put_record opts (append_record e) l).synced b cs
  unfolding put_record
  put_record-Sealed opts l h w word s =
      sync_record-Sealed m b cs (es ++ e ∷ []) opts.policy (written l) (written-Holds l h w word) s

-- What one call of the loop's body in writeBatch leaves: the entry stands at the end of the log, and
-- its offset is the one that was next.
pub record Wrote (m b : ℕ) (opts : Options) (l : Log) (old : List Entry) (e : Entry) : Type 0 where
  pub log : Log
  pub sealed : Chunks
  pub current : List Entry
  pub result : write_record opts e l ≡ ok (l.next, log)
  pub holds : Holds m log b sealed current
  pub content : entries sealed ++ current ≡ old ++ e ∷ []
  pub next : log.next ≡ l.next + 1
  pub sealed_durable : Sealed log.synced b sealed
  pub durable : opts.policy ≡ SyncPolicy.sync_always → Synced log current

next-put_record :
    (opts : Options) (rec : Bytes) (l : Log) → (put_record opts rec l).next ≡ l.next + 1
unfolding put_record
next-put_record opts rec l = next-sync_record opts.policy _

module _ (m b : ℕ) (opts : Options) (e : Entry) (w : Fits m e) (cs : Chunks) (es : List Entry) where
  -- The test of writeBatch for a new segment.
  abbrev full : Bool
  full =
      ltb opts.segment_bytes (seg_header_len + length (encode_all es) + length (append_record e))
      && ltb 0 (length es)

  last_meta : (l : Log) → Holds m l b cs es → last? l.segs ≡ some (meta (b + total cs) es)
  last_meta l h = ap last? h.segs ∙ last?-snoc (metas b cs) (meta (b + total cs) es)

  write_kept :
      (l : Log)
      → Holds m l b cs es
      → full ≡ false
      → write_record opts e l ≡ ok (l.next, put_record opts (append_record e) l)
  unfolding write_record meta
  write_kept l h c = rw (last_meta l h, c)

  write_rolled :
      (l : Log)
      → Holds m l b cs es
      → full ≡ true
      → write_record opts e l ≡ ok (l.next, put_record opts (append_record e) (after_roll es l))
  unfolding write_record meta
  write_rolled l h c = rw (last_meta l h, c, roll-after_roll m b cs es l h (ground arith))

  pub write_record-Wrote :
      (l : Log) (old : List Entry)
      → Holds m l b cs es
      → entries cs ++ es ≡ old
      → l.next + 1 < 2 ^ 64
      → Sealed l.synced b cs
      → Wrote m b opts l old e
  write_record-Wrote l old h p word s = elim (Bool-cases full) [
    | inl c ↦
        let ne : 0 < length es = ground arith in
        let rolled = after_roll-Holds m b cs es l h ne in
        let kept = put_record-Holds m b (cs ++ es ∷ []) [] e opts (after_roll es l) rolled w word in
        record {
          log = put_record opts (append_record e) (after_roll es l);
          sealed = cs ++ es ∷ [];
          current = e ∷ [];
          result = write_rolled l h c;
          holds = kept;
          content = rw (entries-snoc, append-nil) (ap (λ x. x ++ e ∷ []) p);
          next = next-put_record opts (append_record e) (after_roll es l);
          sealed_durable =
              put_record-Sealed m b (cs ++ es ∷ []) [] e opts (after_roll es l) rolled w word
                (after_roll-Sealed m b cs es l h s);
          durable = put_record-Synced m b (cs ++ es ∷ []) [] e opts (after_roll es l) rolled w word;
        }
    | inr c ↦ record {
      log = put_record opts (append_record e) l;
      sealed = cs;
      current = es ++ e ∷ [];
      result = write_kept l h c;
      holds = put_record-Holds m b cs es e opts l h w word;
      content = sym (append_assoc (entries cs) es (e ∷ [])) ∙ ap (λ x. x ++ e ∷ []) p;
      next = next-put_record opts (append_record e) l;
      sealed_durable = put_record-Sealed m b cs es e opts l h w word s;
      durable = put_record-Synced m b cs es e opts l h w word;
    }
  ]
