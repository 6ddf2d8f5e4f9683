-- ===== src/Wal/Record.antt =====
-- appendRecord and scanRecord of internal/wal/segment.go: one record of a segment file, as bytes.
-- A timestamp, an int64 in the source, is the 64-bit word that stands for it.
pub mod RoundTrip
use leser.Prelude.{
  ℕ, ◌+◌, ◌%◌, ◌^◌, Option, none, some, ◌∷◌, ◌++◌, ltb, leb, ◌==◌, ◌||◌, if◌then◌else◌, length,
  take, drop, get_or,
}
use leser.Prelude.Bytes.{Bytes, put_le, get_le}
use leser.Wal.Crc.{checksum}

abbrev pub seg_header_len : ℕ
seg_header_len = 20

abbrev pub rec_header_len : ℕ
rec_header_len = 8

abbrev pub body_fixed_len : ℕ
body_fixed_len = 9

-- What Append is given: the time, the type and the payload.
pub record Entry : Type 0 where
  pub time : ℕ
  pub typ : ℕ
  pub payload : Bytes

-- One entry read back from the log.
pub record Record : Type 0 where
  pub offset : ℕ
  pub entry : Entry

unfoldable pub body : Entry → Bytes
body e = put_le 8 e.time ++ (e.typ ∷ e.payload)

unfoldable pub rec_header : Entry → Bytes
rec_header e =
    put_le 4 ((body_fixed_len + length e.payload) % 2 ^ 32) ++ put_le 4 (checksum (body e))

-- The reused buffer of the source holds exactly these bytes.
unfoldable pub append_record : Entry → Bytes
unfolding rec_header body
append_record e = rec_header e ++ body e

-- f.ReadAt(buf, pos) with len(buf) = n: fewer bytes are an error.
unfoldable pub read_at : Bytes → ℕ → ℕ → Option Bytes
read_at f pos n = if leb (pos + n) (length f) then some (take n (drop pos f)) else none

unfoldable pub decode_body : Bytes → Entry
decode_body b = record { time = get_le (take 8 b); typ = get_or b 8 0; payload = drop 9 b }

check_body : Bytes → ℕ → ℕ → ℕ → ℕ → Option (Record × ℕ)
unfolding read_at decode_body
check_body f pos crc body_len offset = elim (read_at f (pos + rec_header_len) body_len) [
  | none ↦ none
  | some b ↦
      if checksum b == crc
      then some (record { offset = offset; entry = decode_body b }, pos + rec_header_len + body_len)
      else none
]

check_header : Bytes → ℕ → ℕ → ℕ → ℕ → Bytes → Option (Record × ℕ)
unfolding check_body
check_header f pos size max_record offset hdr =
    let body_len = get_le (take 4 hdr) in
    if ltb body_len body_fixed_len || ltb max_record body_len
    then none
    else if ltb size (pos + rec_header_len + body_len)
    then none
    else check_body f pos (get_le (drop 4 hdr)) body_len offset

-- The record and the position after it; `none` is errTorn.
unfoldable pub scan_record : Bytes → ℕ → ℕ → ℕ → ℕ → Option (Record × ℕ)
unfolding check_header
scan_record f pos size max_record offset =
    if ltb size (pos + rec_header_len) then none else elim (read_at f pos rec_header_len) [
      | none ↦ none
      | some hdr ↦ check_header f pos size max_record offset hdr
    ]
