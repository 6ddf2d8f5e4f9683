-- ===== src/Wal/Segment/Recovery.antt =====
-- scanSegment of internal/wal/segment.go as crash recovery: which records a scan finds.
use leser.Prelude.{
  ℕ, zero, suc, ◌+◌, ◌-◌, ◌≤◌, ◌<◌, ◌≡◌, refl, sym, ap, ◌∙◌, none, some, List, [], ◌∷◌, ◌++◌, arith,
  append_assoc, append-nil, length, take, All, length-append, take-append_add, take-append_le,
  length-take_of_le, leb, if◌then◌else◌, Bool-cases, inl, inr, leb→le, Option-cases,
}
use leser.Prelude.Bytes.{Bytes, length-put_le}
use leser.Wal.Record.{Entry, append_record, scan_record, seg_header_len}
use leser.Wal.Record.RoundTrip.{
  Fits, record_len, length-append_record, scan_record-append_record, scan_record-cut,
  scan_record_bounds,
}
use leser.Wal.Segment.{create_segment, scan_from, scan_segment}

-- The records of a segment, one behind the other.
unfoldable pub encode_all : List Entry → Bytes
encode_all [] = []
encode_all (e ∷ es) = append_record e ++ encode_all es

pub encode_all-append :
    (es fs : List Entry) → encode_all (es ++ fs) ≡ encode_all es ++ encode_all fs
unfolding encode_all
encode_all-append [] fs = refl
encode_all-append (e ∷ es) fs = rw (encode_all-append es fs, append_assoc)

pub length-create_segment : (base : ℕ) → length (create_segment base) ≡ seg_header_len
unfolding create_segment
length-create_segment base = omega (arith, length-append {0}, length-put_le)

scan_record_past :
    (f : Bytes) (pos size max_record : ℕ) → size < pos → scan_record f pos size max_record 0 ≡ none
unfolding scan_record
scan_record_past f pos size max_record h = ground arith

-- A scan stops where no record can be read, as its fuel is enough.
scan_from_stops :
    (fuel : ℕ) (f : Bytes) (size max_record n pos : ℕ)
    → size < pos + fuel
    → scan_record f (scan_from fuel f size max_record n pos).1 size max_record 0 ≡ none
unfolding scan_from
scan_from_stops zero f size max_record n pos h =
    scan_record_past f pos size max_record (omega arith)
scan_from_stops (suc fuel) f size max_record n pos h =
    elim (Option-cases (scan_record f pos size max_record 0)) [
      | inl e ↦ rw (e, scan_from) e
      | inr (r, e) ↦
          rw (e, scan_from)
            (scan_from_stops fuel f size max_record (n + 1) r.1
              (omega (arith, scan_record_bounds f pos size max_record 0 r.0 r.1 e)))
    ]

scan_first :
    (e : Entry) (es : List Entry) (pre tail : Bytes) (size max_record : ℕ)
    → Fits max_record e
    → length pre + length (encode_all (e ∷ es)) ≤ size
    → scan_record (pre ++ (encode_all (e ∷ es) ++ tail)) (length pre) size max_record 0
      ≡ some (record { offset = 0; entry = e }, length pre + record_len e)
unfolding encode_all
scan_first e es pre tail size max_record w s =
    rw (append_assoc (append_record e) (encode_all es) tail) (
      scan_record-append_record pre e (encode_all es ++ tail) size max_record 0
        (omega (arith, length-append (append_record e) (encode_all es), length-append_record e)) w)

-- The file `pre ++ encode_all es ++ tail`, where no record can be read at the tail.
scan_from-encode_all :
    (es : List Entry) (fuel : ℕ) (pre tail f : Bytes) (size max_record n pos : ℕ)
    → f ≡ pre ++ (encode_all es ++ tail)
    → pos ≡ length pre
    → length es < fuel
    → All (Fits max_record) es
    → pos + length (encode_all es) ≤ size
    → scan_record f (pos + length (encode_all es)) size max_record 0 ≡ none
    → scan_from fuel f size max_record n pos ≡ (n + length es, pos + length (encode_all es))
unfolding scan_from encode_all
scan_from-encode_all es zero pre tail f size max_record n pos p q h w s t = absurd (omega arith)
scan_from-encode_all [] (suc fuel) pre tail f size max_record n pos p q h w s t = ground arith
scan_from-encode_all (e ∷ es) (suc fuel) pre tail f size max_record n pos p q h w s t =
    let l = length-append_record e in
    let k = length-append (append_record e) (encode_all es) in
    let first : scan_record f pos size max_record 0
        ≡ some (record { offset = 0; entry = e }, pos + record_len e) =
      rw (p, q) (scan_first e es pre tail size max_record w.0 (unfold encode_all in omega arith)) in
    let last : pos + record_len e + length (encode_all es) ≡ pos + length (encode_all (e ∷ es)) =
      omega arith in
    let rest =
      scan_from-encode_all es fuel (pre ++ append_record e) tail f size max_record (n + 1)
        (pos + record_len e)
        (p
          ∙ ap (λ x. pre ++ x) (append_assoc (append_record e) (encode_all es) tail)
          ∙ sym (append_assoc pre (append_record e) (encode_all es ++ tail)))
        (omega (arith, length-append pre (append_record e))) (omega arith) w.1 (omega arith)
        (rw last t) in
    rw (first, scan_from) (ground (arith, rest))

-- The number of records of which a cut after `k` bytes leaves all bytes.
unfoldable pub whole : ℕ → List Entry → ℕ
whole k [] = 0
whole k (e ∷ es) =
    let more = whole (k - record_len e) es in if leb (record_len e) k then suc more else 0

-- The part of a record that such a cut leaves behind them.
unfoldable pub torn : ℕ → List Entry → Bytes
torn k [] = []
torn k (e ∷ es) =
    let later = torn (k - record_len e) es in
    if leb (record_len e) k then later else take k (append_record e)

pub take-encode_all :
    (k : ℕ) (es : List Entry)
    → take k (encode_all es) ≡ encode_all (take (whole k es) es) ++ torn k es
unfolding whole torn encode_all
take-encode_all zero [] = refl
take-encode_all (suc k) [] = refl
take-encode_all k (e ∷ es) = elim (Bool-cases (leb (record_len e) k)) [
  | inl fits ↦ rw fits (
      ap (λ n. take n (append_record e ++ encode_all es))
        (omega (arith, leb→le _ _ fits, length-append_record e))
      ∙ take-append_add (append_record e) (encode_all es) (k - record_len e)
      ∙ ap (λ x. append_record e ++ x) (take-encode_all (k - record_len e) es)
      ∙ sym (append_assoc (append_record e) _ _))
  | inr cut ↦
      rw cut (
        take-append_le k (append_record e) (encode_all es) (ground (arith, length-append_record e)))
]

unfoldable pub seg_file : ℕ → List Entry → Bytes
seg_file base es = create_segment base ++ encode_all es

pub whole-le : (k : ℕ) (es : List Entry) → whole k es ≤ length es
unfolding whole
whole-le k [] = omega arith
whole-le k (e ∷ es) = ground (arith, whole-le (k - record_len e) es)

pub All-take : (P : Entry → Type 0) (n : ℕ) (es : List Entry) → All P es → All P (take n es)
All-take P zero es h = tt
All-take P (suc n) [] h = tt
All-take P (suc n) (e ∷ es) h = (h.0, All-take P n es h.1)

scan_record_end :
    (f : Bytes) (max_record : ℕ)
    → scan_record (f ++ []) (length f) (length (f ++ [])) max_record 0 ≡ none
unfolding scan_record
scan_record_end f max_record = ground (arith, append-nil f)

-- At the torn part nothing can be read.
scan_record-torn :
    (k : ℕ) (es : List Entry) (pre : Bytes) (max_record : ℕ)
    → All (Fits max_record) es
    → scan_record (pre ++ torn k es) (length pre) (length (pre ++ torn k es)) max_record 0 ≡ none
unfolding torn
scan_record-torn k [] pre max_record w = scan_record_end pre max_record
scan_record-torn k (e ∷ es) pre max_record w = elim (Bool-cases (leb (record_len e) k)) [
  | inl fits ↦ rw fits (scan_record-torn (k - record_len e) es pre max_record w.1)
  | inr cut ↦ rw cut (scan_record-cut pre e max_record 0 k (ground arith) w.0)
]

length-le-encode_all : (es : List Entry) → length es ≤ length (encode_all es)
unfolding encode_all record_len
length-le-encode_all [] = omega arith
length-le-encode_all (e ∷ es) = omega (
  arith,
  length-le-encode_all es,
  length-append (append_record e) (encode_all es),
  length-append_record e,
)

scan_record_same :
    (f f' : Bytes) (pos pos' max_record : ℕ)
    → f ≡ f'
    → pos ≡ pos'
    → scan_record f' pos' (length f') max_record 0 ≡ none
    → scan_record f pos (length f) max_record 0 ≡ none
scan_record_same f f' pos pos' max_record p q h = rw (p, q) h

scan_segment_tail :
    (base : ℕ) (tail : Bytes) (max_record : ℕ) (es : List Entry)
    → All (Fits max_record) es
    → (let pre = create_segment base ++ encode_all es in
        scan_record (pre ++ tail) (length pre) (length (pre ++ tail)) max_record 0 ≡ none)
    → scan_segment (create_segment base ++ (encode_all es ++ tail)) max_record
      ≡ (length es, seg_header_len + length (encode_all es))
unfolding scan_segment
scan_segment_tail base tail max_record es w t =
    let f : Bytes = create_segment base ++ (encode_all es ++ tail) in
    let pre : Bytes = create_segment base ++ encode_all es in
    let h = length-create_segment base in
    let l1 = length-append (create_segment base) (encode_all es) in
    let same : f ≡ pre ++ tail = sym (append_assoc (create_segment base) (encode_all es) tail) in
    let l : length f ≡ length pre + length tail = ap length same ∙ length-append pre tail in
    let place : seg_header_len + length (encode_all es) ≡ length pre = omega arith in
    let done : scan_record f (seg_header_len + length (encode_all es)) (length f) max_record 0
        ≡ none =
      scan_record_same f (pre ++ tail) _ (length pre) max_record same place t in
    scan_from-encode_all es (length f) (create_segment base) tail f (length f) max_record 0
      seg_header_len refl (sym h) (omega (arith, length-le-encode_all es)) w (omega arith) done
    ∙ ap (λ n. (n, seg_header_len + length (encode_all es))) (omega arith)

pub take-seg_file :
    (base k : ℕ) (es : List Entry)
    → take (seg_header_len + k) (seg_file base es)
      ≡ create_segment base ++ (encode_all (take (whole k es) es) ++ torn k es)
unfolding seg_file
take-seg_file base k es =
    ap (λ n. take (n + k) (seg_file base es)) (sym (length-create_segment base))
    ∙ take-append_add (create_segment base) (encode_all es) k
    ∙ ap (λ x. create_segment base ++ x) (take-encode_all k es)

-- A segment file of entries that fit, cut at any byte behind its header: the scan finds exactly the
-- records of which no byte is missing, and the size of what they take.
pub scan_segment_cut :
    (base k max_record : ℕ) (es : List Entry)
    → All (Fits max_record) es
    → scan_segment (take (seg_header_len + k) (seg_file base es)) max_record
      ≡ (whole k es, seg_header_len + length (encode_all (take (whole k es) es)))
unfolding seg_file
scan_segment_cut base k max_record es w =
    let kept = take (whole k es) es in
    rw (take-seg_file base k es) (
      scan_segment_tail base (torn k es) max_record kept
        (All-take (Fits max_record) (whole k es) es w)
        (scan_record-torn k es (create_segment base ++ encode_all kept) max_record w)
      ∙ ap (λ n. (n, seg_header_len + length (encode_all kept)))
          (length-take_of_le (whole k es) es (whole-le k es)))

-- An undamaged segment file is valid to its end.
pub scan_segment-seg_file :
    (base max_record : ℕ) (es : List Entry)
    → All (Fits max_record) es
    → scan_segment (seg_file base es) max_record ≡ (length es, length (seg_file base es))
unfolding seg_file
scan_segment-seg_file base max_record es w = rw (← append-nil (encode_all es)) (
    scan_segment_tail base [] max_record es w
      (scan_record_end (create_segment base ++ encode_all es) max_record)
    ∙ ap (λ n. (length es, n))
        (rw append-nil (omega (arith, length-append {0}, length-create_segment))))
