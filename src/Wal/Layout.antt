-- ===== src/Wal/Layout.antt =====
-- What a log of internal/wal/wal.go holds: the entries from an offset on, in segments of which all
-- but the last are sealed, and the directory and the metadata that stand for them.
use leser.Prelude.{
  ℕ, ◌+◌, ◌≤◌, ◌<◌, ◌^◌, ◌≡◌, refl, ap, ◌∙◌, List, [], ◌∷◌, ◌++◌, arith, append_assoc, length, All,
  length-append,
}
use leser.Prelude.Bytes.{Bytes}
use leser.Wal.Record.{Entry, seg_header_len}
use leser.Wal.Record.RoundTrip.{Fits}
use leser.Wal.Segment.Recovery.{encode_all, seg_file}
use leser.Wal.Disk.{
  Disk, read_file, change_file, remove_file, list_segments, insert_sorted, sort_bases, bases,
}
use leser.Wal.Log.{SegMeta, Log}

abbrev pub Chunks : Type 0
Chunks = List (List Entry)

unfoldable pub total : Chunks → ℕ
total [] = 0
total (c ∷ cs) = length c + total cs

-- The entries of the log, oldest first.
unfoldable pub entries : Chunks → List Entry
entries [] = []
entries (c ∷ cs) = c ++ entries cs

unfoldable pub meta : ℕ → List Entry → SegMeta
meta b es = record {
  base = b;
  records = length es;
  bytes = seg_header_len + length (encode_all es);
}

unfoldable pub metas : ℕ → Chunks → List SegMeta
metas b [] = []
metas b (c ∷ cs) = meta b c ∷ metas (b + length c) cs

unfoldable pub files : ℕ → Chunks → Disk
files b [] = []
files b (c ∷ cs) = (b, seg_file b c) ∷ files (b + length c) cs

abbrev pub NonEmpty : List Entry → Type 0
NonEmpty c = 0 < length c

-- The log `l` holds the entries of the sealed segments `cs`, the oldest at offset `base`, and of the
-- active segment `es`.
pub record Holds (max_record : ℕ) (l : Log) (base : ℕ) (cs : Chunks) (es : List Entry)
    : Type 0 where
  pub segs : l.segs ≡ metas base cs ++ meta (base + total cs) es ∷ []
  pub disk : l.disk ≡ files base cs ++ (base + total cs, seg_file (base + total cs) es) ∷ []
  pub active : l.active ≡ base + total cs
  pub next : l.next ≡ base + total cs + length es
  pub sealed : All NonEmpty cs
  pub sealed_fit : All (All (Fits max_record)) cs
  pub fit : All (Fits max_record) es
  pub word : l.next < 2 ^ 64

pub total-snoc : (cs : Chunks) (c : List Entry) → total (cs ++ c ∷ []) ≡ total cs + length c
unfolding total
total-snoc [] c = omega arith
total-snoc (d ∷ cs) c = omega (arith, total-snoc cs c)

pub entries-snoc : (cs : Chunks) (c : List Entry) → entries (cs ++ c ∷ []) ≡ entries cs ++ (c ++ [])
unfolding entries
entries-snoc [] c = refl
entries-snoc (d ∷ cs) c = rw (entries-snoc cs c, append_assoc)

pub total-append : (cs ds : Chunks) → total (cs ++ ds) ≡ total cs + total ds
unfolding total
total-append [] ds = omega arith
total-append (c ∷ cs) ds = omega (arith, total-append cs ds)

pub entries-append : (cs ds : Chunks) → entries (cs ++ ds) ≡ entries cs ++ entries ds
unfolding entries
entries-append [] ds = refl
entries-append (c ∷ cs) ds = rw (entries-append cs ds, append_assoc)

pub All-after : (P : List Entry → Type 0) (gone kept : Chunks) → All P (gone ++ kept) → All P kept
All-after P [] kept h = h
All-after P (c ∷ gone) kept h = All-after P gone kept h.1

pub length-entries : (cs : Chunks) → length (entries cs) ≡ total cs
unfolding entries total
length-entries [] = refl
length-entries (c ∷ cs) = omega (arith, length-entries cs, length-append c (entries cs))

pub metas-snoc :
    (b : ℕ) (cs : Chunks) (c : List Entry)
    → metas b (cs ++ c ∷ []) ≡ metas b cs ++ meta (b + total cs) c ∷ []
unfolding metas total
metas-snoc b [] c = ap (λ n. meta n c ∷ []) (omega arith)
metas-snoc b (d ∷ cs) c = ap (◌∷◌ (meta b d)) (
    metas-snoc (b + length d) cs c
    ∙ ap (λ n. metas (b + length d) cs ++ meta n c ∷ []) (omega arith))

pub files-snoc :
    (b : ℕ) (cs : Chunks) (c : List Entry)
    → files b (cs ++ c ∷ []) ≡ files b cs ++ (b + total cs, seg_file (b + total cs) c) ∷ []
unfolding files total
files-snoc b [] c = ap (λ n. (n, seg_file n c) ∷ []) (omega arith)
files-snoc b (d ∷ cs) c = ap (◌∷◌ (b, seg_file b d)) (
    files-snoc (b + length d) cs c
    ∙ ap (λ n. files (b + length d) cs ++ (n, seg_file n c) ∷ []) (omega arith))

-- An operation on a base at or above the end of the sealed segments leaves their files alone.
module _ (k : ℕ) (rest : Disk) where
  pub read_file-files :
      (b : ℕ) (cs : Chunks)
      → All NonEmpty cs
      → b + total cs ≤ k
      → read_file k (files b cs ++ rest) ≡ read_file k rest
  unfolding files read_file total
  read_file-files b [] h p = refl
  read_file-files b (c ∷ cs) h p =
      ground (arith, read_file-files (b + length c) cs h.1 (omega arith))

  pub change_file-files :
      (g : Bytes → Bytes) (b : ℕ) (cs : Chunks)
      → All NonEmpty cs
      → b + total cs ≤ k
      → change_file g k (files b cs ++ rest) ≡ files b cs ++ change_file g k rest
  unfolding files change_file total
  change_file-files g b [] h p = refl
  change_file-files g b (c ∷ cs) h p =
      ground (arith, change_file-files g (b + length c) cs h.1 (omega arith))

  pub remove_file-files :
      (b : ℕ) (cs : Chunks)
      → All NonEmpty cs
      → b + total cs ≤ k
      → remove_file k (files b cs ++ rest) ≡ files b cs ++ remove_file k rest
  unfolding files remove_file total
  remove_file-files b [] h p = refl
  remove_file-files b (c ∷ cs) h p =
      ground (arith, remove_file-files (b + length c) cs h.1 (omega arith))

insert_first :
    (k b e : ℕ) (cs : Chunks) (f : Bytes)
    → k ≤ b
    → e ≡ b + total cs
    → (let ks = bases (files b cs ++ (e, f) ∷ []) in insert_sorted k ks ≡ k ∷ ks)
unfolding files total insert_sorted
insert_first k b e [] f h p = ground arith
insert_first k b e (c ∷ cs) f h p = ground arith

sort_bases-files :
    (b e : ℕ) (cs : Chunks) (f : Bytes)
    → e ≡ b + total cs
    → (let ks = bases (files b cs ++ (e, f) ∷ []) in sort_bases ks ≡ ks)
unfolding sort_bases files total
sort_bases-files b e [] f p = unfold insert_sorted in refl
sort_bases-files b e (c ∷ cs) f p =
    let q : e ≡ b + length c + total cs = omega arith in
    ap (insert_sorted b) (sort_bases-files (b + length c) e cs f q)
    ∙ insert_first b (b + length c) e cs f (omega arith) q

-- The directory is listed in the order of the segments.
pub list_segments-files :
    (b : ℕ) (cs : Chunks) (f : Bytes)
    → (let d = files b cs ++ (b + total cs, f) ∷ [] in list_segments d ≡ bases d)
unfolding list_segments
list_segments-files b cs f = sort_bases-files b (b + total cs) cs f refl

pub change_file_one :
    (g : Bytes → Bytes) (k j : ℕ) (f : Bytes)
    → j ≡ k
    → change_file g k ((j, f) ∷ []) ≡ (j, g f) ∷ []
unfolding change_file
change_file_one g k j f h = ground arith
