-- ===== src/Wal/Segment/Headers.antt =====
-- createSegment and readSegmentHeader of internal/wal/segment.go, on whole and on cut files.
use leser.Prelude.{
  ℕ, ◌^◌, ◌<◌, ◌≡◌, refl, sym, ap, ◌∙◌, [], ◌++◌, arith, length, take, drop, take-append_of,
  drop-append_of, true,
}
use leser.Prelude.Bytes.{
  Bytes, put_le, get_le, length-put_le, get_le-put_le, bytes_eq, bytes_eq_iff,
}
use leser.Wal.Record.{seg_header_len}
use leser.Wal.Record.RoundTrip.{read_at_lem}
use leser.Wal.Segment.{
  create_segment, read_segment_header, seg_magic, seg_version, valid, invalid, short, check_fields,
}
use leser.Wal.Segment.Recovery.{length-create_segment}

magic_eq : bytes_eq seg_magic seg_magic ≡ true
magic_eq = (bytes_eq_iff seg_magic seg_magic).1 refl

version_read : get_le (put_le 4 seg_version) ≡ seg_version
version_read = get_le-put_le 4 seg_version (omega arith)

header_version : (base : ℕ) → get_le (take 4 (drop 8 (create_segment base))) ≡ seg_version
unfolding create_segment
header_version base =
    ap get_le (take-append_of 4 (put_le 4 seg_version) _ (omega (arith, length-put_le)))
    ∙ version_read

header_base : (base : ℕ) → base < 2 ^ 64 → get_le (drop 12 (create_segment base)) ≡ base
unfolding create_segment
header_base base h =
    ap get_le (drop-append_of 4 (put_le 4 seg_version) _ (omega (arith, length-put_le)))
    ∙ get_le-put_le 8 base (omega arith)

header_magic : (base : ℕ) → bytes_eq (take 8 (create_segment base)) seg_magic ≡ true
unfolding create_segment
header_magic base = magic_eq

check_fields-create_segment :
    (base : ℕ) → base < 2 ^ 64 → check_fields (create_segment base) ≡ valid base
unfolding check_fields
check_fields-create_segment base h = rw (header_magic base, header_version base, header_base base h)

-- The header that createSegment writes for a 64-bit base is read back with that base, whatever follows.
pub read_segment_header-create_segment :
    (base : ℕ) (rest : Bytes)
    → base < 2 ^ 64
    → read_segment_header (create_segment base ++ rest) ≡ valid base
unfolding read_segment_header
read_segment_header-create_segment base rest h = ground (
  arith,
  read_at_lem [] (create_segment base) rest 0 seg_header_len refl
      (sym (length-create_segment base)),
  check_fields-create_segment base h,
)

-- A file that ends within its header has none.
pub read_segment_header_short :
    (f : Bytes) → length f < seg_header_len → read_segment_header f ≡ invalid short
unfolding read_segment_header
read_segment_header_short f h = ground arith
