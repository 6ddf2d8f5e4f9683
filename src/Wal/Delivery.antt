-- ===== src/Wal/Delivery.antt =====
-- segmentFor of internal/wal/wal.go: the segment of an offset.
pub mod Positions
pub mod Next
use leser.Prelude.{
  ℕ, zero, suc, ◌+◌, ◌-◌, ◌≤◌, ◌<◌, ◌^◌, ◌≡◌, refl, sym, ap, ◌∙◌, Bool, true, false, ◌&&◌, List, [],
  ◌∷◌, ◌++◌, Option, some, none, arith, append_assoc, append-nil, length, get_elem?, All,
  length-append, ltb, leb, ◌==◌, if◌then◌else◌, Bool-cases, inl, inr, ◌⊎◌,
}
use leser.Prelude.Bytes.{Bytes}
use leser.Prelude.Search.{search, elem_test, search_border, get_elem?-append}
use leser.Wal.Record.{Entry, seg_header_len, scan_record}
use leser.Wal.Record.RoundTrip.{Fits}
use leser.Wal.Segment.{read_segment_header, valid}
use leser.Wal.Segment.Recovery.{seg_file}
use leser.Wal.Disk.{read_file}
use leser.Wal.Log.{Log, SegMeta, end}
use leser.Wal.Reader.{
  Reader, Cursor, Read, ok, ◌>>=◌, segment_for, segment_in, skip, skip_to, position, next,
  latest_offset,
}
use leser.Wal.Layout.{
  Chunks, total, entries, meta, metas, files, Holds, NonEmpty, metas-snoc, files-snoc, total-snoc,
  entries-snoc, read_file-files,
}
use leser.Wal.Cursors.{place, place-zero, split_at, skip-place, scan_record-place, SplitAt}

-- All segments, the active one last.
abbrev pub chunks : Chunks → List Entry → Chunks
chunks cs es = cs ++ es ∷ []

-- The segment in which an offset lies: those before it and behind it.
pub record Located (b : ℕ) (ds : Chunks) (off : ℕ) : Type 0 where
  pub pre : Chunks
  pub d : List Entry
  pub post : Chunks
  pub split : ds ≡ pre ++ d ∷ post
  pub low : b + total pre ≤ off
  pub high : off < b + total pre + length d
  pub sealed : All NonEmpty pre

pub locate :
    (b off : ℕ) (cs : Chunks) (es : List Entry)
    → All NonEmpty cs
    → b ≤ off
    → off < b + total cs + length es
    → Located b (chunks cs es) off
unfolding total
locate b off [] es ne lo hi = record {
  pre = [];
  d = es;
  post = [];
  split = refl;
  low = omega arith;
  high = omega arith;
  sealed = tt;
}
locate b off (c ∷ cs) es ne lo hi = elim (Bool-cases (ltb off (b + length c))) [
  | inl here ↦ record {
    pre = [];
    d = c;
    post = chunks cs es;
    split = refl;
    low = omega arith;
    high = ground arith;
    sealed = tt;
  }
  | inr later ↦
      let r = locate (b + length c) off cs es ne.1 (ground arith) (omega arith) in
      record {
        pre = c ∷ r.pre;
        d = r.d;
        post = r.post;
        split = ap (◌∷◌ c) r.split;
        low = omega (arith, r.low);
        high = omega (arith, r.high);
        sealed = (ne.0, r.sealed);
      }
]

metas-append : (b : ℕ) (cs ds : Chunks) → metas b (cs ++ ds) ≡ metas b cs ++ metas (b + total cs) ds
unfolding metas total
metas-append b [] ds = ap (λ n. metas n ds) (omega arith)
metas-append b (c ∷ cs) ds = ap (◌∷◌ (meta b c)) (
    metas-append (b + length c) cs ds
    ∙ ap (λ n. metas (b + length c) cs ++ metas n ds) (omega arith))

files-append : (b : ℕ) (cs ds : Chunks) → files b (cs ++ ds) ≡ files b cs ++ files (b + total cs) ds
unfolding files total
files-append b [] ds = ap (λ n. files n ds) (omega arith)
files-append b (c ∷ cs) ds = ap (◌∷◌ (b, seg_file b c)) (
    files-append (b + length c) cs ds
    ∙ ap (λ n. files (b + length c) cs ++ files n ds) (omega arith))

ends_below :
    (off b : ℕ) (pre : Chunks)
    → b + total pre ≤ off
    → All (λ s. ltb off (end s) ≡ false) (metas b pre)
unfolding metas total meta end
ends_below off b [] h = tt
ends_below off b (c ∷ pre) h = (ground arith, ends_below off (b + length c) pre (omega arith))

ends_above :
    (off b : ℕ) (post : Chunks) → off < b → All (λ s. ltb off (end s) ≡ true) (metas b post)
unfolding metas meta end
ends_above off b [] h = tt
ends_above off b (c ∷ post) h = (ground arith, ends_above off (b + length c) post (omega arith))

segment_in-border :
    (off : ℕ) (pre post : List SegMeta) (s : SegMeta)
    → All (λ s. ltb off (end s) ≡ false) pre
    → All (λ s. ltb off (end s) ≡ true) (s ∷ post)
    → s.base ≤ off
    → segment_in (pre ++ s ∷ post) off ≡ some s
unfolding segment_in
segment_in-border off pre post s f t h =
    let found : get_elem? (pre ++ s ∷ post)
          (search (length (pre ++ s ∷ post)) (elem_test (λ s. ltb off (end s)) (pre ++ s ∷ post)))
        ≡ some s =
      ap (get_elem? (pre ++ s ∷ post)) (search_border (λ s. ltb off (end s)) pre (s ∷ post) f t)
      ∙ get_elem?-append pre s post in
    ground (arith, found)

module _ (m b : ℕ) (cs : Chunks) (es : List Entry) (l : Log) (h : Holds m l b cs es) where
  segs_at :
      (off : ℕ) (a : Located b (chunks cs es) off)
      → l.segs
        ≡ metas b a.pre ++ meta (b + total a.pre) a.d ∷ metas (b + total a.pre + length a.d) a.post
  segs_at off a =
      h.segs
      ∙ sym (metas-snoc b cs es)
      ∙ ap (metas b) a.split
      ∙ metas-append b a.pre (a.d ∷ a.post)
      ∙ (unfold metas in refl)

  -- The binary search finds the segment of the offset.
  pub segment_for-Located :
      (off : ℕ) (a : Located b (chunks cs es) off)
      → segment_for l off ≡ some (meta (b + total a.pre) a.d)
  unfolding segment_for
  segment_for-Located off a =
      ap (λ x. segment_in x off) (segs_at off a)
      ∙ segment_in-border off (metas b a.pre) (metas (b + total a.pre + length a.d) a.post)
          (meta (b + total a.pre) a.d) (ends_below off b a.pre a.low)
          (
            unfold end meta in ground arith,
            ends_above off (b + total a.pre + length a.d) a.post a.high,
          )
          (unfold meta in a.low)

  pub file_at :
      (off : ℕ) (a : Located b (chunks cs es) off)
      → read_file (b + total a.pre) l.disk ≡ some (seg_file (b + total a.pre) a.d)
  file_at off a =
      ap (read_file (b + total a.pre)) (
        h.disk
        ∙ sym (files-snoc b cs es)
        ∙ ap (files b) a.split
        ∙ files-append b a.pre (a.d ∷ a.post))
      ∙ read_file-files (b + total a.pre) _ b a.pre a.sealed (omega arith)
      ∙ (unfold files read_file in ground arith)
