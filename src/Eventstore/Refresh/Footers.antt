-- ===== src/Eventstore/Refresh/Footers.antt =====
-- The footers that writeSegment of internal/eventstore/store.go writes, and readSegmentMeta.
use leser.Prelude.{
  ℕ, zero, suc, ◌+◌, ◌-◌, ◌*◌, ◌/◌, ◌%◌, ◌≤◌, ◌≡◌, ◌≢◌, refl, ap, ◌∙◌, some, [], ◌∷◌, ◌++◌, ltb,
  All, All-append, Bool-cases, inl, inr, arith,
}
use leser.Prelude.Bytes.{Bytes, bytes_eq}
use leser.Prelude.Texts.{itoa, number_from, number_from-itoa}
use leser.Eventstore.{SegMeta}
use leser.Eventstore.Refresh.{Found, schema_version, parse_from, parse_int, read_segment_meta}

abbrev pub decimal : ℕ → Bytes
decimal n = itoa (suc n) n

-- The file of a segment, as writeSegment leaves it
abbrev pub file_of : SegMeta → Found
file_of m = record {
  path = m.path;
  footer = some (record {
    leser_schema_version = some schema_version;
    leser_min_ts = some (decimal m.min_ts);
    leser_max_ts = some (decimal m.max_ts);
    num_rows = m.rows;
    row_groups = m.groups;
  });
}

abbrev Digit : ℕ → Type 0
Digit b = (b'0' ≤ b) × (b ≤ b'9')

itoa-All : (fuel v : ℕ) → All Digit (itoa fuel v)
unfolding itoa
itoa-All zero v = tt
itoa-All (suc fuel) v = elim (Bool-cases (ltb v 10)) [
  | inl small ↦ rw small ((omega arith, ground arith), tt)
  | inr large ↦ rw large (
      All-append Digit (itoa fuel (v / 10)) ((b'0' + v % 10) ∷ []) (itoa-All fuel (v / 10))
        ((omega arith, omega arith), tt))
]

parse_from-All : (n : ℕ) (bs : Bytes) → All Digit bs → parse_from n bs ≡ some (number_from n bs)
unfolding parse_from number_from
parse_from-All n [] h = refl
parse_from-All n (b ∷ bs) h =
    ground (arith, h.0.0, h.0.1, parse_from-All (n * 10 + (b - b'0')) bs h.1)

parse_int-All : (bs : Bytes) → All Digit bs → bs ≢ [] → parse_int bs ≡ some (number_from 0 bs)
unfolding parse_int
parse_int-All [] h k = absurd (k refl)
parse_int-All (b ∷ bs) h k = parse_from-All 0 (b ∷ bs) h

snoc-ne_nil : (bs : Bytes) (b : ℕ) → bs ++ b ∷ [] ≢ []
snoc-ne_nil [] b = λ h. cc
snoc-ne_nil (c ∷ bs) b = λ h. cc

decimal-ne_nil : (n : ℕ) → decimal n ≢ []
unfolding itoa
decimal-ne_nil n = elim (Bool-cases (ltb n 10)) [
  | inl small ↦ rw small (λ h. cc)
  | inr large ↦ rw large (snoc-ne_nil (itoa n (n / 10)) (b'0' + n % 10))
]

parse_int-decimal : (n : ℕ) → parse_int (decimal n) ≡ some n
parse_int-decimal n =
    parse_int-All (decimal n) (itoa-All (suc n) n) (decimal-ne_nil n)
    ∙ ap some (number_from-itoa (suc n) n (omega arith))

-- A segment is in the directories of its project and its hour.
pub record Placed (m : SegMeta) : Type 0 where
  pub project : m.project_id ≡ m.path.project_dir
  pub hour : m.hour ≡ m.path.hour_dir

pub read_segment_meta-file_of : (m : SegMeta) → Placed m → read_segment_meta (file_of m) ≡ some m
unfolding read_segment_meta bytes_eq
read_segment_meta-file_of m p =
    ground (arith, parse_int-decimal m.min_ts, parse_int-decimal m.max_ts, p.project, p.hour)
