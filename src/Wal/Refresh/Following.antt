-- ===== src/Wal/Refresh/Following.antt =====
-- The steps of Refresh of internal/wal/wal.go over whole segment files.
use leser.Prelude.{
  ℕ, ◌+◌, ◌≤◌, ◌<◌, ◌^◌, ◌≡◌, refl, sym, ap, ◌∙◌, none, some, List, [], ◌∷◌, ◌++◌, arith,
  append-nil, append_assoc, length, All, last?, last?-snoc, update_last, update_last-snoc,
}
use mathlib.Core.Path.{subst}
use leser.Wal.Record.{Entry}
use leser.Wal.Record.RoundTrip.{Fits}
use leser.Wal.Segment.Recovery.{seg_file}
use leser.Wal.Disk.{Disk, read_file, list_segments, bases}
use leser.Wal.Log.{SegMeta, end}
use leser.Wal.Layout.{
  Chunks, total, meta, metas, files, NonEmpty, All-after, metas-snoc, total-snoc, total-append,
}
use leser.Wal.Rescans.{Reads, seg_file-Scans}
use leser.Wal.Refresh.{
  Follower, ready, read_segment_probe, first_segments, next_segments, rescan, set_next, refresh,
}

pub Reads-after :
    (d : Disk) (b e : ℕ) (gone kept : Chunks)
    → e ≡ b + total gone
    → Reads d (files b (gone ++ kept))
    → Reads d (files e kept)
unfolding files total
Reads-after d b e [] kept p r = subst (λ k. Reads d (files k kept)) (omega arith) r
Reads-after d b e (c ∷ gone) kept p r = Reads-after d (b + length c) e gone kept (omega arith) r.1

pub metas-append :
    (b e : ℕ) (cs ds : Chunks) → e ≡ b + total cs → metas b (cs ++ ds) ≡ metas b cs ++ metas e ds
unfolding metas total
metas-append b e [] ds p = ap (λ k. metas k ds) (omega arith)
metas-append b e (c ∷ cs) ds p =
    ap (◌∷◌ (meta b c)) (metas-append (b + length c) e cs ds (omega arith))

module _ (m : ℕ) (d : Disk) where
  pub probe_ready :
      (e : ℕ) (c : List Entry)
      → All (Fits m) c
      → e < 2 ^ 64
      → read_file e d ≡ some (seg_file e c)
      → read_segment_probe m d e ≡ ready (meta e c)
  unfolding read_segment_probe meta
  probe_ready e c w h r = let s = seg_file-Scans m e c w h in ground (arith, r, s.header, s.scan)

  pub first_segments-files :
      (b : ℕ) (cs : Chunks) (segs : List SegMeta)
      → All (All (Fits m)) cs
      → b + total cs < 2 ^ 64
      → Reads d (files b cs)
      → first_segments m d (bases (files b cs)) segs ≡ (segs ++ metas b cs, none)
  unfolding first_segments files metas total
  first_segments-files b [] segs w h r = ap (λ x. (x, none)) (sym (append-nil segs))
  first_segments-files b (c ∷ cs) segs w h r =
      rw (probe_ready b c w.0 (omega arith) r.0, first_segments)
        (first_segments-files (b + length c) cs (segs ++ meta b c ∷ []) w.1 (omega arith) r.1
          ∙ ap (λ x. (x, none)) (append_assoc segs (meta b c ∷ []) (metas (b + length c) cs)))

  pub next_segments-files :
      (b : ℕ) (cs : Chunks) (segs : List SegMeta)
      → All (All (Fits m)) cs
      → b + total cs < 2 ^ 64
      → Reads d (files b cs)
      → next_segments m d (bases (files b cs)) b segs ≡ (segs ++ metas b cs, none)
  unfolding next_segments files metas total end meta
  next_segments-files b [] segs w h r = ap (λ x. (x, none)) (sym (append-nil segs))
  next_segments-files b (c ∷ cs) segs w h r = ground (
    arith,
    probe_ready b c w.0 (omega arith) r.0,
    next_segments-files (b + length c) cs (segs ++ meta b c ∷ []) w.1 (omega arith) r.1,
    append_assoc segs (meta b c ∷ []) (metas (b + length c) cs),
  )

  -- The known segments are passed over.
  pub next_segments_known :
      (b e expect : ℕ) (known more : Chunks) (segs : List SegMeta)
      → All NonEmpty known
      → e ≡ b + total known
      → e ≤ expect
      → next_segments m d (bases (files b (known ++ more))) expect segs
        ≡ next_segments m d (bases (files e more)) expect segs
  unfolding next_segments files total
  next_segments_known b e expect [] more segs ne p h =
      ap (λ k. next_segments m d (bases (files k more)) expect segs) (omega arith)
  next_segments_known b e expect (c ∷ known) more segs ne p h = ground (
    arith,
    ne.0,
    next_segments_known (b + length c) e expect known more segs ne.1 (omega arith) h,
  )

pub set_next_last :
    (v : Follower) (segs : List SegMeta) (s : SegMeta)
    → last? segs ≡ some s
    → set_next v (segs, none) ≡ (record { segs = segs; next = end s }, none)
unfolding set_next
set_next_last v segs s h = rw (h, set_next)

pub refresh-rescan :
    (m : ℕ) (d : Disk) (v : Follower) (bs : List ℕ)
    → list_segments d ≡ bs
    → 0 < length bs
    → refresh m d v ≡ set_next v (rescan m d bs v.segs)
unfolding refresh
refresh-rescan m d v [] p h = absurd (omega arith)
refresh-rescan m d v (b ∷ bs) p h = rw (p, refresh)

pub rescan_none : (m : ℕ) (d : Disk) (bs : List ℕ) → rescan m d bs [] ≡ first_segments m d bs []
unfolding rescan
rescan_none m d bs = refl

pub rescan_last :
    (m : ℕ) (d : Disk) (bs : List ℕ) (segs : List SegMeta) (s t : SegMeta)
    → last? segs ≡ some s
    → read_segment_probe m d s.base ≡ ready t
    → rescan m d bs segs ≡ next_segments m d bs (end t) (update_last (λ _. t) segs)
unfolding rescan
rescan_last m d bs segs s t l p = rw (l, rescan) (rw (p, rescan) refl)

module _ (m : ℕ) (d : Disk) (b : ℕ) (seen more : Chunks) (old now : List Entry) where
  abbrev written : Chunks
  written = seen ++ now ∷ []

  read_last :
      All (All (Fits m)) (written ++ more)
      → b + total (written ++ more) < 2 ^ 64
      → Reads d (files b (written ++ more))
      → read_segment_probe m d (b + total seen) ≡ ready (meta (b + total seen) now)
  unfolding files
  read_last w h r =
      let p = append_assoc seen (now ∷ []) more in
      let at =
        Reads-after d b (b + total seen) seen (now ∷ more) refl
          (subst (λ cs. Reads d (files b cs)) p r) in
      let fit =
        All-after (All (Fits m)) seen (now ∷ more) (subst (λ cs. All (All (Fits m)) cs) p w) in
      probe_ready m d (b + total seen) now fit.0
        (omega (arith, h, total-append written more, total-snoc seen now)) at.0

  -- The last known segment has grown, and more have come.
  pub rescan-files :
      All NonEmpty written
      → All (All (Fits m)) (written ++ more)
      → b + total (written ++ more) < 2 ^ 64
      → Reads d (files b (written ++ more))
      → rescan m d
          (bases (files b (written ++ more)))
          (metas b seen ++ meta (b + total seen) old ∷ [])
        ≡ (metas b (written ++ more), none)
  unfolding end meta
  rescan-files ne w h r =
      let e = b + total seen in
      let e' = b + total written in
      let bs = bases (files b (written ++ more)) in
      rescan_last m d bs _ (meta e old) (meta e now) (last?-snoc (metas b seen) (meta e old))
        (read_last w h r)
      ∙ ap (next_segments m d bs (e + length now)) (
          update_last-snoc (λ _. meta e now) (metas b seen) (meta e old)
          ∙ sym (metas-snoc b seen now))
      ∙ next_segments_known m d b e' (e + length now) written more _ ne refl
          (omega (arith, total-snoc seen now))
      ∙ ap (λ n. next_segments m d (bases (files e' more)) n (metas b written))
          (omega (arith, total-snoc seen now))
      ∙ next_segments-files m d e' more _ (All-after (All (Fits m)) written more w)
          (omega (arith, h, total-append written more)) (Reads-after d b e' written more refl r)
      ∙ ap (λ x. (x, none)) (sym (metas-append b e' written more refl))

-- A last segment without an entry ends where it begins, and its file is taken for the next one.
pub rescan_unwritten :
    (m : ℕ) (d : Disk) (b : ℕ) (cs : Chunks) (segs : List SegMeta)
    → segs ≡ metas b cs ++ meta (b + total cs) [] ∷ []
    → All NonEmpty cs
    → All (All (Fits m)) (cs ++ [] ∷ [])
    → b + total cs < 2 ^ 64
    → Reads d (files b (cs ++ [] ∷ []))
    → rescan m d (bases (files b (cs ++ [] ∷ []))) segs
      ≡ (segs ++ meta (b + total cs) [] ∷ [], none)
unfolding end meta metas files total
rescan_unwritten m d b cs segs p ne w h r =
    let e = b + total cs in
    let at = Reads-after d b e cs ([] ∷ []) refl r in
    let again = update_last-snoc (λ _. meta e []) (metas b cs) (meta e []) ∙ sym p in
    rescan_last m d _ segs (meta e []) (meta e [])
      (ap last? p ∙ last?-snoc (metas b cs) (meta e [])) (probe_ready m d e [] tt h at.0)
    ∙ ap (next_segments m d _ (e + 0)) (ap (update_last (λ _. meta e [])) p ∙ again)
    ∙ next_segments_known m d b e (e + 0) cs ([] ∷ []) segs ne refl (omega arith)
    ∙ ap (λ n. next_segments m d (bases (files e ([] ∷ []))) n segs) (omega arith)
    ∙ next_segments-files m d e ([] ∷ []) segs (tt, tt) (omega arith) at
