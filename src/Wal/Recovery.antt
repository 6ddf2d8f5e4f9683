-- ===== src/Wal/Recovery.antt =====
-- load of internal/wal/wal.go on what a crash has left of a log.
use leser.Prelude.{
  ℕ, ◌+◌, ◌<◌, ◌^◌, ◌≡◌, refl, ap, ◌∙◌, List, [], ◌∷◌, ◌++◌, some, arith, append-nil, length, take,
  take_of_length-le, All, true, last?, last?-snoc,
}
use leser.Prelude.Bytes.{Bytes}
use leser.Wal.Record.{Entry, seg_header_len}
use leser.Wal.Record.RoundTrip.{Fits}
use leser.Wal.Segment.Recovery.{encode_all, seg_file}
use leser.Wal.Disk.{Disk, read_file, change_file, truncate_file, remove_file, list_segments, bases}
use leser.Wal.Log.{
  Log, SegMeta, ok, ◌>>=◌, load, load_segments, resume, reopen, chained, end, sealed_sizes,
}
use leser.Wal.Layout.{
  Chunks, total, meta, metas, files, Holds, NonEmpty, metas-snoc, files-snoc, change_file-files,
  change_file_one, remove_file-files, list_segments-files,
}
use leser.Wal.Rescans.{Scans, Reads, Reads-self, length-seg_file, load_one, load_torn, load_sealed}

Reads-last :
    (d : Disk) (b e : ℕ) (f : Bytes) (cs : Chunks)
    → Reads d (files b cs ++ (e, f) ∷ [])
    → read_file e d ≡ some f
unfolding files
Reads-last d b e f [] r = r.0
Reads-last d b e f (c ∷ cs) r = Reads-last d (b + length c) e f cs r.1

-- The chain of the bases holds, and the last segment is opened for writing.
chained-metas :
    (b e : ℕ) (cs : Chunks) (kept : List Entry)
    → e ≡ b + total cs
    → chained (metas b cs ++ meta e kept ∷ []) ≡ true
unfolding metas total chained end meta
chained-metas b e [] kept p = refl
chained-metas b e (c ∷ []) kept p = ground arith
chained-metas b e (c ∷ c' ∷ cs) kept p =
    ground (arith, chained-metas (b + length c) e (c' ∷ cs) kept (omega arith))

resume-reopen :
    (segs : List SegMeta) (d : Disk) (s : SegMeta)
    → last? segs ≡ some s
    → chained segs ≡ true
    → resume (segs, d) ≡ reopen segs d
unfolding resume
resume-reopen [] d s l c = cc
resume-reopen (t ∷ segs) d s l c = rw c

load-resume :
    (m : ℕ) (d : Disk) (bs : List ℕ)
    → list_segments d ≡ bs
    → 0 < length bs
    → load m d ≡ (load_segments m d bs >>= resume)
unfolding load
load-resume m d [] p h = absurd (omega arith)
load-resume m d (b ∷ bs) p h = rw (p, load)

bases_pos : (b e : ℕ) (f : Bytes) (cs : Chunks) → 0 < length (bases (files b cs ++ (e, f) ∷ []))
unfolding files
bases_pos b e f [] = omega arith
bases_pos b e f (c ∷ cs) = omega arith

reopen_lem :
    (segs : List SegMeta) (d : Disk) (b : ℕ) (kept : List Entry)
    → last? segs ≡ some (meta b kept)
    → reopen segs d
      ≡ ok (record {
        segs = segs;
        active = b;
        next = b + length kept;
        synced = sealed_sizes segs;
        disk = truncate_file (seg_header_len + length (encode_all kept)) b d;
      })
unfolding reopen meta end
reopen_lem segs d b kept h = rw h

module _ (m b : ℕ) (cs : Chunks) (kept : List Entry) where
  abbrev pub opened : Log
  opened = record {
    segs = metas b cs ++ meta (b + total cs) kept ∷ [];
    active = b + total cs;
    next = b + total cs + length kept;
    synced = sealed_sizes (metas b cs ++ meta (b + total cs) kept ∷ []);
    disk = files b cs ++ (b + total cs, seg_file (b + total cs) kept) ∷ [];
  }

  pub opened-Holds :
      All NonEmpty cs
      → All (All (Fits m)) cs
      → All (Fits m) kept
      → b + total cs + length kept < 2 ^ 64
      → Holds m opened b cs kept
  opened-Holds ne w wk word = record {
    segs = refl;
    disk = refl;
    active = refl;
    next = refl;
    sealed = ne;
    sealed_fit = w;
    fit = wk;
    word = word;
  }

  pub resume-opened :
      (f : Bytes)
      → All NonEmpty cs
      → take (seg_header_len + length (encode_all kept)) f ≡ seg_file (b + total cs) kept
      → resume (metas b cs ++ meta (b + total cs) kept ∷ [], files b cs ++ (b + total cs, f) ∷ [])
        ≡ ok opened
  resume-opened f ne p =
      let e = b + total cs in
      let last = last?-snoc (metas b cs) (meta e kept) in
      let cut : change_file (take (seg_header_len + length (encode_all kept))) e
            (files b cs ++ (e, f) ∷ [])
          ≡ files b cs ++ (e, seg_file e kept) ∷ [] =
        change_file-files e _ _ b cs ne (omega arith)
        ∙ ap (λ x. files b cs ++ x) (change_file_one _ e e f refl)
        ∙ ap (λ x. files b cs ++ (e, x) ∷ []) p in
      resume-reopen _ _ (meta e kept) last (chained-metas b e cs kept refl)
      ∙ reopen_lem _ _ e kept last
      ∙ ap (λ x. ok (record opened { disk = x })) cut

  -- load of the sealed segments with a last file in which a scan finds `kept`.
  pub load-Scans :
      (f : Bytes)
      → All NonEmpty cs
      → All (All (Fits m)) cs
      → b + total cs < 2 ^ 64
      → Scans m (b + total cs) f kept
      → load m (files b cs ++ (b + total cs, f) ∷ []) ≡ ok opened
  load-Scans f ne w word s =
      let e = b + total cs in
      let d : Disk = files b cs ++ (e, f) ∷ [] in
      let r = Reads-self b e f cs ne refl in
      load-resume m d (bases d) (list_segments-files b cs f) (bases_pos b e f cs)
      ∙ ap (λ x. x >>= resume)
          (load_sealed m d b e f cs (meta e kept ∷ []) d w refl word r (
            load_one m d e f kept [] [] d s (Reads-last d b e f cs r)
              (unfold load_segments in refl)))
      ∙ resume-opened f ne s.prefix

remove_one : (e : ℕ) (f : Bytes) → remove_file e ((e, f) ∷ []) ≡ []
unfolding remove_file
remove_one e f = ground arith

list_segments_at :
    (b e : ℕ) (cs : Chunks) (f : Bytes)
    → e ≡ b + total cs
    → list_segments (files b cs ++ (e, f) ∷ []) ≡ bases (files b cs ++ (e, f) ∷ [])
list_segments_at b e cs f p = rw p (list_segments-files b cs f)

pair_eq :
    {s t : List SegMeta} {d d' : Disk}
    → s ≡ t
    → d ≡ d'
    → ◌≡◌ {A = List SegMeta × Disk} (s, d) (t, d')
pair_eq p q = λ i. (p i, q i)

-- load where the last file is cut within its header: the file goes, and the segment before it is
-- the active one again.
pub load_torn_header :
    (m b : ℕ) (cs : Chunks) (c : List Entry) (e : ℕ) (f : Bytes)
    → All NonEmpty (cs ++ c ∷ [])
    → All NonEmpty cs
    → All (All (Fits m)) (cs ++ c ∷ [])
    → e ≡ b + total (cs ++ c ∷ [])
    → e < 2 ^ 64
    → length f < seg_header_len
    → load m (files b (cs ++ c ∷ []) ++ (e, f) ∷ []) ≡ ok (opened m b cs c)
load_torn_header m b cs c e f ne ne' w p word short =
    let d : Disk = files b (cs ++ c ∷ []) ++ (e, f) ∷ [] in
    let r = Reads-self b e f (cs ++ c ∷ []) ne p in
    let gone : remove_file e d ≡ files b cs ++ (b + total cs, seg_file (b + total cs) c) ∷ [] =
      remove_file-files e _ b (cs ++ c ∷ []) ne (omega arith)
      ∙ ap (λ x. files b (cs ++ c ∷ []) ++ x) (remove_one e f)
      ∙ append-nil _
      ∙ files-snoc b cs c in
    load-resume m d (bases d) (list_segments_at b e (cs ++ c ∷ []) f p)
      (bases_pos b e f (cs ++ c ∷ []))
    ∙ ap (λ x. x >>= resume)
        (load_sealed m d b e f (cs ++ c ∷ []) [] (remove_file e d) w p word r
          (load_torn m d e f short (Reads-last d b e f (cs ++ c ∷ []) r)))
    ∙ ap resume (pair_eq (append-nil _ ∙ metas-snoc b cs c) gone)
    ∙ resume-opened m b cs c (seg_file (b + total cs) c) ne'
        (take_of_length-le _ _ (omega (arith, length-seg_file (b + total cs) c)))
