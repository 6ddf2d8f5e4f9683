-- ===== src/Wal/Cursors.antt =====
-- skipTo of internal/wal/reader.go: a cursor that stands before a record of a segment file.
use leser.Prelude.{
  ℕ, zero, suc, ◌+◌, ◌≤◌, ◌<◌, ◌≡◌, refl, sym, ap, ◌∙◌, List, [], ◌∷◌, ◌++◌, some, arith,
  append_assoc, append-nil, length, get_elem?, take, All, length-append,
}
use leser.Prelude.Bytes.{Bytes}
use leser.Wal.Record.{Entry, append_record, scan_record, seg_header_len}
use leser.Wal.Record.RoundTrip.{Fits, record_len, length-append_record, scan_record-append_record}
use leser.Wal.Segment.{create_segment}
use leser.Wal.Segment.Recovery.{encode_all, encode_all-append, seg_file, length-create_segment}
use leser.Wal.Reader.{ok, skip}

-- Where the record with index `n` of a segment begins.
pub place : List Entry → ℕ → ℕ
place d n = seg_header_len + length (encode_all (take n d))

pub place-zero : (d : List Entry) → place d 0 ≡ seg_header_len
unfolding place encode_all
place-zero d = refl

-- A list at an index of it.
pub record SplitAt (d : List Entry) (n : ℕ) : Type 0 where
  pub entry : Entry
  pub rest : List Entry
  pub parts : d ≡ take n d ++ entry ∷ rest
  pub at : get_elem? d n ≡ some entry
  pub more : take (suc n) d ≡ take n d ++ entry ∷ []

pub split_at : (d : List Entry) (n : ℕ) → n < length d → SplitAt d n
split_at [] n h = absurd (omega arith)
split_at (e ∷ d) zero h = record { entry = e; rest = d; parts = refl; at = refl; more = refl }
split_at (e ∷ d) (suc n) h =
    let s = split_at d n (omega arith) in
    record {
      entry = s.entry;
      rest = s.rest;
      parts = ap (◌∷◌ e) s.parts;
      at = s.at;
      more = ap (◌∷◌ e) s.more;
    }

All-at :
    (m : ℕ) (d : List Entry) (n : ℕ) (e : Entry)
    → All (Fits m) d
    → get_elem? d n ≡ some e
    → Fits m e
All-at m [] n e w h = absurd (ground arith)
All-at m (x ∷ d) zero e w h = let p : x ≡ e = cc in rw p at w.0
All-at m (x ∷ d) (suc n) e w h = All-at m d n e w.1 h

scan_parts :
    (m : ℕ) (pre : Bytes) (e : Entry) (rest f : Bytes) (pos next offset : ℕ)
    → f ≡ pre ++ (append_record e ++ rest)
    → pos ≡ length pre
    → next ≡ length pre + record_len e
    → Fits m e
    → scan_record f pos (length f) m offset ≡ some (record { offset = offset; entry = e }, next)
scan_parts m pre e rest f pos next offset p q r w =
    rw (p, q, r)
      (scan_record-append_record pre e rest _ m offset
        (omega (
          arith,
          length-append pre (append_record e ++ rest),
          length-append (append_record e) rest,
          length-append_record e,
        ))
        w)

module _ (m base : ℕ) (d : List Entry) (w : All (Fits m) d) where
  module _ (n : ℕ) (s : SplitAt d n) where
    before : Bytes
    before = create_segment base ++ encode_all (take n d)

    parts-seg_file : seg_file base d ≡ before ++ (append_record s.entry ++ encode_all s.rest)
    unfolding seg_file before encode_all
    parts-seg_file =
        ap (λ x. create_segment base ++ encode_all x) s.parts
        ∙ ap (λ x. create_segment base ++ x) (encode_all-append (take n d) (s.entry ∷ s.rest))
        ∙ sym (append_assoc (create_segment base) (encode_all (take n d)) _)

    place-before : place d n ≡ length before
    unfolding place before
    place-before = omega (
      arith,
      length-append (create_segment base) (encode_all (take n d)),
      length-create_segment base,
    )

    place-suc : place d (suc n) ≡ place d n + record_len s.entry
    unfolding place encode_all
    place-suc =
        ap (λ x. seg_header_len + length (encode_all x)) s.more
        ∙ ap (λ x. seg_header_len + length x)
            (encode_all-append (take n d) (s.entry ∷ [])
              ∙ ap (λ x. encode_all (take n d) ++ x) (append-nil (append_record s.entry)))
        ∙ omega (
          arith,
          length-append (encode_all (take n d)) (append_record s.entry),
          length-append_record s.entry,
        )

    -- Where a record stands it is read, and the position moves to the next.
    pub scan_record-place :
        (offset : ℕ)
        → scan_record (seg_file base d) (place d n) (length (seg_file base d)) m offset
          ≡ some (record { offset = offset; entry = s.entry }, place d (suc n))
    scan_record-place offset =
        scan_parts m before s.entry (encode_all s.rest) _ _ _ offset parts-seg_file place-before
          (omega (arith, place-suc, place-before)) (All-at m d n s.entry w s.at)

  -- skipTo within the segment.
  pub skip-place :
      (k n : ℕ)
      → n + k ≤ length d
      → skip k m (seg_file base d) (record { base = base; offset = base + n; byte_pos = place d n })
        ≡ ok (record { base = base; offset = base + (n + k); byte_pos = place d (n + k) })
  unfolding skip
  skip-place zero n h =
      ap (λ x. ok (record { base = base; offset = base + x; byte_pos = place d x })) (omega arith)
  skip-place (suc k) n h =
      let s = split_at d n (omega arith) in
      rw (scan_record-place n s (base + n), skip)
        (ap
            (λ x.
              skip k m (seg_file base d)
                (record { base = base; offset = x; byte_pos = place d (suc n) }))
            (omega arith)
          ∙ skip-place k (suc n) (omega arith)
          ∙ ap (λ x. ok (record { base = base; offset = base + x; byte_pos = place d x }))
              (omega arith))
