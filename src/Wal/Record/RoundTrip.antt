-- ===== src/Wal/Record/RoundTrip.antt =====
-- appendRecord and scanRecord of internal/wal/segment.go: whole records, and those that are cut short.
use leser.Prelude.{
  ℕ, ◌+◌, ◌^◌, ◌≤◌, ◌<◌, ◌≡◌, ◌∙◌, ap, some, ◌++◌, arith, ◌-◌, take-append_add, length-take_of_le,
  append_assoc, length, take, drop, length-append, take-append_of, drop-append_of, ltb, none, inl,
  inr, Bool-cases,
}
use leser.Prelude.Bytes.{Bytes, put_le, get_le, length-put_le, get_le-put_le}
use leser.Wal.Crc.{checksum, checksum-lt}
use leser.Wal.Record.{
  Entry, Record, rec_header, body, append_record, read_at, decode_body, scan_record, rec_header_len,
  body_fixed_len,
}

-- The entries that Append accepts under MaxRecordBytes, which fits the 32-bit length field.
pub record Fits (max_record : ℕ) (e : Entry) : Type 0 where
  pub time_word : e.time < 2 ^ 64
  pub within : body_fixed_len + length e.payload ≤ max_record
  pub max_word : max_record < 2 ^ 32

unfoldable pub record_len : Entry → ℕ
record_len e = rec_header_len + body_fixed_len + length e.payload

length-rec_header : (e : Entry) → length (rec_header e) ≡ rec_header_len
unfolding rec_header
length-rec_header e = omega (arith, length-append {0}, length-put_le)

length-body : (e : Entry) → length (body e) ≡ body_fixed_len + length e.payload
unfolding body
length-body e = omega (arith, length-append {0}, length-put_le)

pub length-append_record : (e : Entry) → length (append_record e) ≡ record_len e
unfolding append_record record_len
length-append_record e = omega (arith, length-append {0}, length-rec_header, length-body)

decode_body-body : (e : Entry) → e.time < 2 ^ 64 → decode_body (body e) ≡ e
unfolding decode_body body put_le
decode_body-body e h = cc (get_le-put_le 8 e.time h)

header_len :
    (e : Entry) (m : ℕ)
    → Fits m e
    → get_le (take 4 (rec_header e)) ≡ body_fixed_len + length e.payload
unfolding rec_header
header_len e m w =
    ap get_le (take-append_of 4 _ _ (omega (arith, length-put_le)))
    ∙ get_le-put_le 4 _ (omega arith)
    ∙ omega arith

header_crc : (e : Entry) → get_le (drop 4 (rec_header e)) ≡ checksum (body e)
unfolding rec_header
header_crc e =
    ap get_le (drop-append_of 4 _ _ (omega (arith, length-put_le)))
    ∙ get_le-put_le 4 _ (checksum-lt (body e))

-- A read at the place where `mid` stands.
pub read_at_lem :
    (pre mid post : Bytes) (pos n : ℕ)
    → pos ≡ length pre
    → n ≡ length mid
    → read_at (pre ++ (mid ++ post)) pos n ≡ some mid
unfolding read_at
read_at_lem pre mid post pos n p q =
    rw (drop-append_of pos pre _ p, take-append_of n mid _ q)
      (ground (arith, length-append pre (mid ++ post), length-append mid post))

module _ (pre : Bytes) (e : Entry) (post : Bytes) (size max_record offset : ℕ) where
  abbrev pub file : Bytes
  file = pre ++ (append_record e ++ post)

  read_header : read_at file (length pre) rec_header_len ≡ some (rec_header e)
  unfolding append_record
  read_header =
      rw append_assoc (read_at_lem pre _ _ _ _ (omega arith) (omega (arith, length-rec_header e)))

  read_body :
      read_at file (length pre + rec_header_len) (body_fixed_len + length e.payload) ≡ some (body e)
  unfolding append_record
  read_body =
      rw
        (
          append_assoc (rec_header e) (body e) post,
          ← append_assoc pre (rec_header e) (body e ++ post),
        )
        (read_at_lem (pre ++ rec_header e) _ _ _ _
          (omega (arith, length-rec_header e, length-append {0})) (omega (arith, length-body e)))

  -- A record that fits is read back from where it stands, with the position behind it, whatever comes
  -- before and after it, if the size that is given reaches to its end.
  pub scan_record-append_record :
      length pre + record_len e ≤ size
      → Fits max_record e
      → scan_record file (length pre) size max_record offset
        ≡ some (record { offset = offset; entry = e }, length pre + record_len e)
  unfolding scan_record record_len
  scan_record-append_record s w = ground (
    arith,
    read_header,
    read_body,
    header_len e max_record w,
    header_crc e,
    decode_body-body e w.time_word,
  )

module _ (pre : Bytes) (e : Entry) (max_record offset k : ℕ) where
  abbrev cut : Bytes
  cut = pre ++ take k (append_record e)

  length-cut : k < record_len e → length cut ≡ length pre + k
  length-cut h = omega (
    arith,
    length-append pre (take k (append_record e)),
    length-take_of_le k (append_record e) (omega (arith, length-append_record e)),
  )

  read_cut_header :
      rec_header_len ≤ k → read_at cut (length pre) rec_header_len ≡ some (rec_header e)
  unfolding append_record
  read_cut_header h =
      let l = length-rec_header e in
      let split : take k (append_record e) ≡ rec_header e ++ take (k - rec_header_len) (body e) =
        ap (λ n. take n (append_record e)) (omega arith)
        ∙ take-append_add (rec_header e) (body e) (k - rec_header_len) in
      rw split (read_at_lem pre _ _ _ _ (omega arith) (omega arith))

  -- A record of which the file ends before the last byte is torn.
  pub scan_record-cut :
      k < record_len e
      → Fits max_record e
      → scan_record cut (length pre) (length cut) max_record offset ≡ none
  unfolding scan_record record_len
  scan_record-cut h w = elim (Bool-cases (ltb k rec_header_len)) [
    | inl short ↦ ground (arith, length-cut h)
    | inr long ↦
        ground (arith, length-cut h, read_cut_header (ground arith), header_len e max_record w)
  ]

-- A record that is read lies within the file and moves the position on.
pub scan_record_bounds :
    (f : Bytes) (pos size max_record offset : ℕ) (r : Record) (next : ℕ)
    → scan_record f pos size max_record offset ≡ some (r, next)
    → (pos + rec_header_len + body_fixed_len ≤ next)
      × (next ≤ size)
      × (next ≤ pos + rec_header_len + max_record)
      × (r.offset ≡ offset)
unfolding scan_record
scan_record_bounds f pos size max_record offset r next h = ground arith
