-- ===== src/Wal/Batches.antt =====
-- writeBatch of internal/wal/wal.go, and the batches that writeLoop collects.
use leser.Prelude.{
  ℕ, zero, suc, ◌+◌, ◌<◌, ◌^◌, ◌≡◌, ◌≢◌, refl, sym, ap, ◌∙◌, List, [], ◌∷◌, ◌++◌, arith,
  append_assoc, append-nil, length, take, All, map, Bool, true, false, ◌⊎◌, ◌≤◌, inl, inr,
  Bool-cases, ltb,
}
use leser.Wal.Record.{Entry}
use leser.Wal.Record.RoundTrip.{Fits}
use leser.Wal.Log.{Log, Options, SyncPolicy, ok}
use leser.Wal.Writer.{
  write_records, write_batch, sync_batch, stamp, Request, collect, next_batch, request_bytes,
}
use leser.Wal.Layout.{Chunks, entries, Holds}
use leser.Wal.Appends.{
  Synced, Sealed, Wrote, write_record-Wrote, sync-Holds, sync-Synced, sync-Sealed,
}

-- n offsets from `start` on
unfoldable pub offsets_from : ℕ → ℕ → List ℕ
offsets_from start zero = []
offsets_from start (suc n) = start ∷ offsets_from (start + 1) n

-- What the loop of writeBatch leaves behind `old`.
pub record WroteAll (m b : ℕ) (opts : Options) (l : Log) (old es : List Entry) : Type 0 where
  pub log : Log
  pub sealed : Chunks
  pub current : List Entry
  pub result : write_records opts es l ≡ ok (offsets_from l.next (length es), log)
  pub holds : Holds m log b sealed current
  pub content : entries sealed ++ current ≡ old ++ es
  pub next : log.next ≡ l.next + length es
  pub durable : opts.policy ≡ SyncPolicy.sync_always → Synced log current
  pub sealed_durable : Sealed log.synced b sealed

module _ (m b : ℕ) (opts : Options) where
  write_first :
      (e : Entry) (es old : List Entry) (l : Log) (first : Wrote m b opts l old e)
      → WroteAll m b opts first.log (old ++ e ∷ []) es
      → WroteAll m b opts l old (e ∷ es)
  unfolding write_records offsets_from
  write_first e es old l first rest = record {
    log = rest.log;
    sealed = rest.sealed;
    current = rest.current;
    result = ground (arith, first.result, rest.result, first.next);
    holds = rest.holds;
    content = rest.content ∙ append_assoc old (e ∷ []) es;
    next = omega (arith, first.next, rest.next);
    durable = rest.durable;
    sealed_durable = rest.sealed_durable;
  }

  write_rest :
      (es : List Entry) (cs : Chunks) (current old : List Entry) (l : Log)
      → Holds m l b cs current
      → entries cs ++ current ≡ old
      → (opts.policy ≡ SyncPolicy.sync_always → Synced l current)
      → All (Fits m) es
      → l.next + length es < 2 ^ 64
      → Sealed l.synced b cs
      → WroteAll m b opts l old es
  write_rest [] cs current old l h c d w word s = record {
    log = l;
    sealed = cs;
    current = current;
    result = unfold write_records offsets_from in refl;
    holds = h;
    content = c ∙ sym (append-nil old);
    next = omega arith;
    durable = d;
    sealed_durable = s;
  }
  write_rest (e ∷ es) cs current old l h c d w word s =
      let first = write_record-Wrote m b opts e w.0 cs current l old h c (omega arith) s in
      write_first e es old l first (
        write_rest es first.sealed first.current (old ++ e ∷ []) first.log first.holds first.content
          first.durable w.1 (omega (arith, first.next)) first.sealed_durable)

  pub write_records-WroteAll :
      (e : Entry) (es : List Entry) (cs : Chunks) (current : List Entry) (l : Log)
      → Holds m l b cs current
      → All (Fits m) (e ∷ es)
      → l.next + length (e ∷ es) < 2 ^ 64
      → Sealed l.synced b cs
      → WroteAll m b opts l (entries cs ++ current) (e ∷ es)
  write_records-WroteAll e es cs current l h w word s =
      let old = entries cs ++ current in
      let first = write_record-Wrote m b opts e w.0 cs current l old h refl (omega arith) s in
      write_first e es old l first (
        write_rest es first.sealed first.current (old ++ e ∷ []) first.log first.holds first.content
          first.durable w.1 (omega (arith, first.next)) first.sealed_durable)

-- What a batch leaves: every request has the offset that its place says, the log holds what it held
-- and the batch behind it, and unless the policy is SyncInterval all of it is durable.
pub record Appended (m b : ℕ) (opts : Options) (now : ℕ) (due : Bool) (l : Log) (old : List Entry)
    (batch : List Request) : Type 0 where
  pub log : Log
  pub sealed : Chunks
  pub current : List Entry
  pub result : write_batch opts now due batch l ≡ ok (offsets_from l.next (length batch), log)
  pub holds : Holds m log b sealed current
  pub content : entries sealed ++ current ≡ old ++ map (stamp now) batch
  pub durable : opts.policy ≢ SyncPolicy.sync_interval → Synced log current
  pub sealed_durable : Sealed log.synced b sealed

length-stamp : (now : ℕ) (batch : List Request) → length (map (stamp now) batch) ≡ length batch
length-stamp now [] = refl
length-stamp now (r ∷ batch) = ap suc (length-stamp now batch)

module _ (m b : ℕ) (cs : Chunks) (es : List Entry) where
  sync_batch-Holds :
      (p : SyncPolicy) (due : Bool) (l : Log)
      → Holds m l b cs es
      → Holds m (sync_batch p due l) b cs es
  unfolding sync_batch
  sync_batch-Holds SyncPolicy.sync_batched due l h = sync-Holds m b cs es l h
  sync_batch-Holds SyncPolicy.sync_always due l h = h
  sync_batch-Holds SyncPolicy.sync_interval true l h = sync-Holds m b cs es l h
  sync_batch-Holds SyncPolicy.sync_interval false l h = h

  sync_batch-Synced :
      (p : SyncPolicy) (due : Bool) (l : Log)
      → Holds m l b cs es
      → (p ≡ SyncPolicy.sync_always → Synced l es)
      → p ≢ SyncPolicy.sync_interval
      → Synced (sync_batch p due l) es
  unfolding sync_batch
  sync_batch-Synced SyncPolicy.sync_batched due l h s n = sync-Synced m b cs es l h
  sync_batch-Synced SyncPolicy.sync_always due l h s n = s refl
  sync_batch-Synced SyncPolicy.sync_interval due l h s n = absurd (n refl)

  sync_batch-Sealed :
      (p : SyncPolicy) (due : Bool) (l : Log)
      → Holds m l b cs es
      → Sealed l.synced b cs
      → Sealed (sync_batch p due l).synced b cs
  unfolding sync_batch
  sync_batch-Sealed SyncPolicy.sync_batched due l h s = sync-Sealed m b cs es l h s
  sync_batch-Sealed SyncPolicy.sync_always due l h s = s
  sync_batch-Sealed SyncPolicy.sync_interval true l h s = sync-Sealed m b cs es l h s
  sync_batch-Sealed SyncPolicy.sync_interval false l h s = s

module _ (m b : ℕ) (opts : Options) (now : ℕ) (due : Bool) where
  pub write_batch-Appended :
      (r : Request) (batch : List Request) (cs : Chunks) (es : List Entry) (l : Log)
      → Holds m l b cs es
      → All (Fits m) (map (stamp now) (r ∷ batch))
      → l.next + length (r ∷ batch) < 2 ^ 64
      → Sealed l.synced b cs
      → Appended m b opts now due l (entries cs ++ es) (r ∷ batch)
  unfolding write_batch
  write_batch-Appended r batch cs es l h w word s =
      let n = length-stamp now batch in
      let all =
        write_records-WroteAll m b opts (stamp now r) (map (stamp now) batch) cs es l h w
          (omega arith) s in
      record {
        log = sync_batch opts.policy due all.log;
        sealed = all.sealed;
        current = all.current;
        result = ground (arith, all.result, n);
        holds = sync_batch-Holds m b all.sealed all.current opts.policy due all.log all.holds;
        content = all.content;
        durable =
            sync_batch-Synced m b all.sealed all.current opts.policy due all.log all.holds
              all.durable;
        sealed_durable =
            sync_batch-Sealed m b all.sealed all.current opts.policy due all.log all.holds
              all.sealed_durable;
      }

unfoldable pub total_request_bytes : List Request → ℕ
total_request_bytes [] = 0
total_request_bytes (r ∷ rs) = request_bytes r + total_request_bytes rs

collect-append :
    (max_batch bytes : ℕ) (queue : List Request)
    → (let (batch, rest) = collect max_batch bytes queue in batch ++ rest ≡ queue)
unfolding collect
collect-append max_batch bytes [] = refl
collect-append max_batch bytes (r ∷ queue) =
    ground (arith, collect-append max_batch (bytes + request_bytes r) queue)

collect_bound :
    (max_batch bytes : ℕ) (queue : List Request) (n : ℕ)
    → n < length (collect max_batch bytes queue).0
    → bytes + total_request_bytes (take n (collect max_batch bytes queue).0) < max_batch
unfolding collect total_request_bytes
collect_bound max_batch bytes [] n h = absurd (omega arith)
collect_bound max_batch bytes (r ∷ queue) zero h = ground arith
collect_bound max_batch bytes (r ∷ queue) (suc n) h =
    ground (arith, collect_bound max_batch (bytes + request_bytes r) queue n)

Policy-cases :
    (p : SyncPolicy)
    → (p ≡ SyncPolicy.sync_always)
      ⊎ ((p ≡ SyncPolicy.sync_batched) ⊎ (p ≡ SyncPolicy.sync_interval))
Policy-cases SyncPolicy.sync_always = inl refl
Policy-cases SyncPolicy.sync_batched = inr (inl refl)
Policy-cases SyncPolicy.sync_interval = inr (inr refl)

-- A round of writeLoop takes a front part of the queue and loses nothing, and takes a request if there
-- is one. Every part of its batch that leaves out the last request is smaller than MaxBatchBytes, and under
-- SyncAlways the batch has one request at most.
pub next_batch_lem :
    (opts : Options) (queue : List Request) (n : ℕ)
    → ((next_batch opts queue).0 ++ (next_batch opts queue).1 ≡ queue)
      × ((queue ≡ []) ⊎ (0 < length (next_batch opts queue).0))
      × ((length (next_batch opts queue).0 ≤ suc n)
          ⊎ ((total_request_bytes (take (suc n) (next_batch opts queue).0) < opts.max_batch_bytes)
              × (opts.policy ≢ SyncPolicy.sync_always)))
unfolding next_batch total_request_bytes
next_batch_lem opts [] n = (refl, inl refl, inl (omega arith))
next_batch_lem opts (r ∷ queue) n =
    let whole = collect-append opts.max_batch_bytes (request_bytes r) queue in
    let more = (collect opts.max_batch_bytes (request_bytes r) queue).0 in
    let bound = collect_bound opts.max_batch_bytes (request_bytes r) queue n in
    elim (Policy-cases opts.policy) [
      | inl always ↦ rw (always, next_batch) (refl, inr (omega arith), inl (omega arith))
      | inr (inl batched) ↦
          rw (batched, next_batch)
            (ap (λ rs. r ∷ rs) whole, inr (omega arith), bounded more bound (λ p. cc))
      | inr (inr interval) ↦
          rw (interval, next_batch)
            (ap (λ rs. r ∷ rs) whole, inr (omega arith), bounded more bound (λ p. cc))
    ]
  where
    bounded :
        {P : Type 0} {size limit : ℕ} (more : List Request)
        → (n < length more → size < limit)
        → P
        → (suc (length more) ≤ suc n) ⊎ ((size < limit) × P)
    bounded more h p = elim (Bool-cases (ltb n (length more))) [
      | inl longer ↦ inr (h (ground arith), p)
      | inr shorter ↦ inl (ground arith)
    ]
