-- ===== src/Wal/Rescans.antt =====
-- The loop of load of internal/wal/wal.go over the segment files, whole and cut.
use leser.Prelude.{
  ℕ, ◌+◌, ◌<◌, ◌^◌, ◌≡◌, sym, ap, ◌∙◌, List, [], ◌∷◌, ◌++◌, some, arith, append_assoc, length, take,
  take_of_length-le, take-append_add, take-append_of, length-take_of_le, All, length-append,
}
use leser.Prelude.Bytes.{Bytes}
use leser.Wal.Record.{Entry, seg_header_len}
use leser.Wal.Record.RoundTrip.{Fits}
use leser.Wal.Segment.{read_segment_header, scan_segment, valid, create_segment}
use leser.Wal.Segment.Recovery.{
  encode_all, seg_file, whole, torn, take-seg_file, whole-le, scan_segment_cut,
  scan_segment-seg_file, length-create_segment,
}
use leser.Wal.Segment.Headers.{read_segment_header-create_segment, read_segment_header_short}
use leser.Wal.Disk.{Disk, read_file, remove_file, bases}
use leser.Wal.Log.{SegMeta, ok, load_segments}
use leser.Wal.Layout.{Chunks, total, meta, metas, files, NonEmpty}

-- What a scan finds in the last file of the directory.
pub record Scans (m e : ℕ) (f : Bytes) (kept : List Entry) : Type 0 where
  pub header : read_segment_header f ≡ valid e
  pub scan : scan_segment f m ≡ (length kept, seg_header_len + length (encode_all kept))
  pub prefix : take (seg_header_len + length (encode_all kept)) f ≡ seg_file e kept

-- Each of the files is read from the disk as it stands in the list.
abbrev pub Reads : Disk → Disk → Type 0
Reads d [] = Unit
Reads d (file ∷ fs) = (read_file file.0 d ≡ some file.1) × Reads d fs

pub Reads-skip :
    (k b e : ℕ) (g f : Bytes) (d : Disk) (cs : Chunks)
    → k < b
    → e ≡ b + total cs
    → Reads d (files b cs ++ (e, f) ∷ [])
    → Reads ((k, g) ∷ d) (files b cs ++ (e, f) ∷ [])
unfolding files total read_file
Reads-skip k b e g f d [] lt p h = (ground arith, tt)
Reads-skip k b e g f d (c ∷ cs) lt p h =
    (ground arith, Reads-skip k (b + length c) e g f d cs (omega arith) (omega arith) h.1)

pub Reads-self :
    (b e : ℕ) (f : Bytes) (cs : Chunks)
    → All NonEmpty cs
    → e ≡ b + total cs
    → Reads (files b cs ++ (e, f) ∷ []) (files b cs ++ (e, f) ∷ [])
unfolding files total read_file
Reads-self b e f [] ne p = (ground arith, tt)
Reads-self b e f (c ∷ cs) ne p = (
  ground arith,
  Reads-skip b (b + length c) e (seg_file b c) f _ cs (omega (arith, ne.0)) (omega arith)
      (Reads-self (b + length c) e f cs ne.1 (omega arith)),
)

pub length-seg_file :
    (b : ℕ) (c : List Entry) → length (seg_file b c) ≡ seg_header_len + length (encode_all c)
unfolding seg_file
length-seg_file b c =
    omega (arith, length-append (create_segment b) (encode_all c), length-create_segment b)

pub header-seg_file :
    (b : ℕ) (c : List Entry) → b < 2 ^ 64 → read_segment_header (seg_file b c) ≡ valid b
unfolding seg_file
header-seg_file b c h = read_segment_header-create_segment b (encode_all c) h

-- An undamaged file, and one that is cut behind its header.
pub seg_file-Scans :
    (m b : ℕ) (c : List Entry) → All (Fits m) c → b < 2 ^ 64 → Scans m b (seg_file b c) c
seg_file-Scans m b c w h = record {
  header = header-seg_file b c h;
  scan = scan_segment-seg_file b m c w ∙ ap (λ n. (length c, n)) (length-seg_file b c);
  prefix = take_of_length-le _ (seg_file b c) (omega (arith, length-seg_file b c));
}

pub header_cut :
    (b k : ℕ) (c : List Entry)
    → b < 2 ^ 64
    → read_segment_header (take (seg_header_len + k) (seg_file b c)) ≡ valid b
unfolding seg_file
header_cut b k c h =
    ap read_segment_header (
      ap (λ n. take (n + k) (create_segment b ++ encode_all c)) (sym (length-create_segment b))
      ∙ take-append_add (create_segment b) (encode_all c) k)
    ∙ read_segment_header-create_segment b (take k (encode_all c)) h

pub take_kept :
    (b : ℕ) (kept : List Entry) (tail : Bytes)
    → take
        (seg_header_len + length (encode_all kept))
        (create_segment b ++ (encode_all kept ++ tail))
      ≡ seg_file b kept
unfolding seg_file
take_kept b kept tail = rw (← append_assoc (create_segment b) (encode_all kept) tail) (
    take-append_of _ (create_segment b ++ encode_all kept) tail
      (omega (arith, length-append (create_segment b) (encode_all kept), length-create_segment b)))

pub cut-Scans :
    (m b k : ℕ) (c : List Entry)
    → All (Fits m) c
    → b < 2 ^ 64
    → Scans m b (take (seg_header_len + k) (seg_file b c)) (take (whole k c) c)
cut-Scans m b k c w h = record {
  header = header_cut b k c h;
  scan =
      scan_segment_cut b k m c w
      ∙ ap (λ n. (n, seg_header_len + length (encode_all (take (whole k c) c))))
          (sym (length-take_of_le (whole k c) c (whole-le k c)));
  prefix =
      ap (take (seg_header_len + length (encode_all (take (whole k c) c)))) (take-seg_file b k c)
      ∙ take_kept b (take (whole k c) c) (torn k c);
}

module _ (m : ℕ) (d : Disk) where
  pub load_one :
      (e : ℕ) (f : Bytes) (kept : List Entry) (rest : List ℕ) (segs : List SegMeta) (d' : Disk)
      → Scans m e f kept
      → read_file e d ≡ some f
      → load_segments m d rest ≡ ok (segs, d')
      → load_segments m d (e ∷ rest) ≡ ok (meta e kept ∷ segs, d')
  unfolding load_segments meta
  load_one e f kept rest segs d' s r h = ground (arith, s.header, s.scan)

  pub load_torn :
      (e : ℕ) (f : Bytes)
      → length f < seg_header_len
      → read_file e d ≡ some f
      → load_segments m d (e ∷ []) ≡ ok ([], remove_file e d)
  unfolding load_segments
  load_torn e f s r = ground (arith, read_segment_header_short f s)

  -- The sealed segments are read before what is read of the last.
  pub load_sealed :
      (b e : ℕ) (f : Bytes) (cs : Chunks) (segs : List SegMeta) (d' : Disk)
      → All (All (Fits m)) cs
      → e ≡ b + total cs
      → e < 2 ^ 64
      → Reads d (files b cs ++ (e, f) ∷ [])
      → load_segments m d (e ∷ []) ≡ ok (segs, d')
      → load_segments m d (bases (files b cs ++ (e, f) ∷ [])) ≡ ok (metas b cs ++ segs, d')
  unfolding files metas total
  load_sealed b e f [] segs d' w p word r h = h
  load_sealed b e f (c ∷ cs) segs d' w p word r h =
      load_one b (seg_file b c) c _ _ d' (seg_file-Scans m b c w.0 (omega arith)) r.0
        (load_sealed (b + length c) e f cs segs d' w.1 (omega arith) word r.1 h)
