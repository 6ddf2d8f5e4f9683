-- ===== src/Wal/Refresh/Current.antt =====
-- What Refresh of internal/wal/wal.go makes of the files of a log whose state and files agree.
use mathlib.Core.Path.{subst}
use leser.Prelude.{
  ℕ, ◌+◌, ◌<◌, ◌^◌, ◌≡◌, refl, sym, ap, ◌∙◌, none, List, [], ◌∷◌, ◌++◌, arith, length, All,
  All-append, last?, last?-snoc, ◌⊎◌, inl, inr,
}
use leser.Wal.Record.{Entry}
use leser.Wal.Record.RoundTrip.{Fits}
use leser.Wal.Disk.{list_segments, bases}
use leser.Wal.Log.{SegMeta, Log, end}
use leser.Wal.Layout.{
  Chunks, total, meta, metas, files, Holds, NonEmpty, metas-snoc, files-snoc, list_segments-files,
  total-snoc,
}
use leser.Wal.Rescans.{Reads, Reads-self}
use leser.Wal.Refresh.{Follower, rescan, set_next, refresh}
use leser.Wal.Refresh.Following.{
  first_segments-files, set_next_last, refresh-rescan, rescan_none, rescan-files, rescan_unwritten,
}

-- Segments as a follower has seen them of a log that holds `cs` and, in its active segment, `es`:
-- the last of them has grown from `old` to `now` since, and `more` have come after it.
pub record Earlier (b : ℕ) (cs : Chunks) (es : List Entry) (segs : List SegMeta) : Type 0 where
  pub seen : Chunks
  pub old : List Entry
  pub now : List Entry
  pub more : Chunks
  pub known : segs ≡ metas b seen ++ meta (b + total seen) old ∷ []
  pub whole : cs ++ es ∷ [] ≡ (seen ++ now ∷ []) ++ more
  pub written : All NonEmpty (seen ++ now ∷ [])

-- What a follower sees that sees all of the log
abbrev pub current : Log → Follower
current l = record { segs = l.segs; next = l.next }

bases_pos : (b : ℕ) (cs : Chunks) (es : List Entry) → 0 < length (bases (files b (cs ++ es ∷ [])))
unfolding files
bases_pos b [] es = omega arith
bases_pos b (c ∷ cs) es = omega arith

module _ (m b : ℕ) (cs : Chunks) (es : List Entry) (l : Log) (h : Holds m l b cs es) where
  listing : list_segments l.disk ≡ bases (files b (cs ++ es ∷ []))
  listing =
      ap list_segments h.disk ∙ list_segments-files b cs _ ∙ ap bases (sym (files-snoc b cs es))

  reads : Reads l.disk (files b (cs ++ es ∷ []))
  reads = rw (h.disk, files-snoc b cs es) (Reads-self b (b + total cs) _ cs h.sealed refl)

  fits : All (All (Fits m)) (cs ++ es ∷ [])
  fits = All-append (All (Fits m)) cs (es ∷ []) h.sealed_fit (h.fit, tt)

  word : b + total (cs ++ es ∷ []) < 2 ^ 64
  word = omega (arith, total-snoc cs es, h.next, h.word)

  set_next_all : (v : Follower) → set_next v (metas b (cs ++ es ∷ []), none) ≡ (current l, none)
  unfolding end meta
  set_next_all v =
      let next : b + total cs + length es ≡ l.next = sym h.next in
      let segs : metas b (cs ++ es ∷ []) ≡ l.segs = metas-snoc b cs es ∙ sym h.segs in
      set_next_last v _ (meta (b + total cs) es)
        (ap last? (metas-snoc b cs es) ∙ last?-snoc (metas b cs) (meta (b + total cs) es))
      ∙ (λ i. (record { segs = segs i; next = next i }, none))

  refresh_from :
      (v : Follower) (segs : List SegMeta)
      → rescan m l.disk (bases (files b (cs ++ es ∷ []))) v.segs ≡ (segs, none)
      → segs ≡ metas b (cs ++ es ∷ [])
      → refresh m l.disk v ≡ (current l, none)
  refresh_from v segs r p =
      refresh-rescan m l.disk v _ listing (bases_pos b cs es)
      ∙ ap (set_next v) (r ∙ ap (λ x. (x, none)) p)
      ∙ set_next_all v

  refresh_first : (v : Follower) → v.segs ≡ [] → refresh m l.disk v ≡ (current l, none)
  refresh_first v p =
      refresh_from v _
        (ap (rescan m l.disk _) p
          ∙ rescan_none m l.disk _
          ∙ first_segments-files m l.disk b (cs ++ es ∷ []) [] fits word reads)
        refl

  refresh-Earlier : (v : Follower) → Earlier b cs es v.segs → refresh m l.disk v ≡ (current l, none)
  refresh-Earlier v k =
      let p = k.whole in
      refresh_from v _
        (ap (λ x. rescan m l.disk (bases (files b x)) v.segs) p
          ∙ ap (rescan m l.disk _) k.known
          ∙ rescan-files m l.disk b k.seen k.more k.old k.now k.written
              (subst (λ x. All (All (Fits m)) x) p fits) (subst (λ x. b + total x < 2 ^ 64) p word)
              (subst (λ x. Reads l.disk (files b x)) p reads))
        (ap (metas b) (sym p))

  -- On the files of a log whose state and files agree, Refresh of a follower that knows no segment
  -- yet, or has seen an earlier state of the log of which no segment has been removed since and whose
  -- last segment has an entry by now: it returns no error, and the follower then has the segments and
  -- the next offset of the log.
  pub refresh-current :
      (v : Follower)
      → (v.segs ≡ []) ⊎ Earlier b cs es v.segs
      → refresh m l.disk v ≡ (current l, none)
  refresh-current v (inl new) = refresh_first v new
  refresh-current v (inr k) = refresh-Earlier v k

-- On the files of a log whose state and files agree and whose active segment has no entry, Refresh of
-- a follower that already has the segments of the log: it lists the active segment once more.
pub refresh_twice :
    (m b : ℕ) (cs : Chunks) (l : Log) (v : Follower)
    → Holds m l b cs []
    → v.segs ≡ l.segs
    → refresh m l.disk v
      ≡ (record { segs = l.segs ++ meta (b + total cs) [] ∷ []; next = l.next }, none)
unfolding end meta
refresh_twice m b cs l v h p =
    refresh-rescan m l.disk v _ (listing m b cs [] l h) (bases_pos b cs [])
    ∙ ap (set_next v) (
        rescan_unwritten m l.disk b cs v.segs (p ∙ h.segs) h.sealed (fits m b cs [] l h)
          (omega (arith, h.next, h.word)) (reads m b cs [] l h)
        ∙ ap (λ x. (x ++ meta (b + total cs) [] ∷ [], none)) p)
    ∙ set_next_last v _ (meta (b + total cs) []) (last?-snoc l.segs (meta (b + total cs) []))
    ∙ ap (λ n. (record { segs = l.segs ++ meta (b + total cs) [] ∷ []; next = n }, none))
        (sym h.next)
