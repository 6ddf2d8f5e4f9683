-- ===== src/Wal/Offsets.antt =====
-- Consumer offsets of internal/wal/reader.go: the offset file, NewReader, Commit and ConsumerOffset. The
-- offset files of a log are a dictionary by the consumer's name; the rename that replaces one is atomic.
use Prim.Native.Char.{code}
use leser.Prelude.{
  ℕ, ◌-◌, ◌<◌, ◌^◌, ◌≡◌, refl, sym, ap, ◌∙◌, Bool, true, false, ◌&&◌, ◌||◌, String, Option, none,
  some, [], ◌∷◌, ◌++◌, length, take, drop, arith, length-append, take-append_of, take_of_length-le,
  drop-append_of, ltb, ◌==◌, if◌then◌else◌, str_eq, eq_refl, max,
}
use leser.Prelude.Bytes.{
  Bytes, put_le, get_le, bytes_eq, bytes_eq_iff, length-put_le, get_le-put_le,
}
use leser.Prelude.Dict.{Dict, lookup, insert, lookup-insert}
use leser.Wal.Crc.{checksum, checksum-lt}
use leser.Wal.Log.{Log}
use leser.Wal.Reader.{Reader, oldest_offset, latest_offset, lag}

-- "LESROFF1"
abbrev off_magic : Bytes
off_magic = b'L' ∷ b'E' ∷ b'S' ∷ b'R' ∷ b'O' ∷ b'F' ∷ b'F' ∷ b'1' ∷ []

-- What writeOffsetFile puts in place of the file.
unfoldable pub offset_file : ℕ → Bytes
offset_file offset = off_magic ++ (put_le 8 offset ++ put_le 4 (checksum (put_le 8 offset)))

pub data OffsetRead : Type 0 where
  offset_is : ℕ → OffsetRead
  not_exist corrupt : OffsetRead

check_crc : Bytes → OffsetRead
check_crc b =
    let off = take 8 (drop 8 b) in
    if checksum off == get_le (take 4 (drop 16 b)) then offset_is (get_le off) else corrupt

unfoldable pub read_offset_file : Option Bytes → OffsetRead
unfolding check_crc
read_offset_file none = not_exist
read_offset_file (some b) =
    if (length b == 20) && bytes_eq (take 8 b) off_magic then check_crc b else corrupt

-- strings.ContainsAny(name, "/\\")
unfoldable pub has_separator : String → Bool
has_separator String.[] = false
has_separator (String.◌∷◌ c s) = code c == b'/' || code c == 92 || has_separator s

pub data Opened : Type 0 where
  reader : Reader → Opened
  invalid_name bad_offset_file : Opened

abbrev reader_at : Log → ℕ → ℕ → Reader
reader_at l pos committed = record {
  pos = max pos (oldest_offset l);
  committed = committed;
  cursor = none;
}

-- NewReader; the position jumps forward to the oldest offset that retention has left.
unfoldable pub new_reader : Log → Dict Bytes → String → Opened
unfolding read_offset_file has_separator
new_reader l files name =
    if str_eq name "" || has_separator name
    then invalid_name
    else elim (read_offset_file (lookup name files)) [
      | offset_is off ↦ reader (reader_at l off off)
      | not_exist ↦ reader (reader_at l (oldest_offset l) (oldest_offset l))
      | corrupt ↦ bad_offset_file
    ]

unfoldable pub commit : String → Reader → Dict Bytes → Reader × Dict Bytes
commit name r files = (record r { committed = r.pos }, insert name (offset_file r.pos) files)

-- ConsumerOffset, as RefreshLagFromWAL of internal/ingest/pipeline.go uses it: the lag behind the
-- committed offset, 0 being that of a consumer that has not committed. `none` keeps the old lag.
behind : Log → ℕ → ℕ
unfolding latest_offset
behind l off = if ltb off (latest_offset l) then latest_offset l - off else 0

unfoldable pub refresh_lag : Log → Dict Bytes → String → Option ℕ
unfolding read_offset_file behind
refresh_lag l files name = elim (read_offset_file (lookup name files)) [
  | offset_is off ↦ some (behind l off)
  | not_exist ↦ some (behind l 0)
  | corrupt ↦ none
]

crc_part :
    (offset : ℕ) → get_le (take 4 (drop 16 (offset_file offset))) ≡ checksum (put_le 8 offset)
unfolding offset_file
crc_part offset =
    let c = put_le 4 (checksum (put_le 8 offset)) in
    ap (λ x. get_le (take 4 x))
      (drop-append_of 8 (put_le 8 offset) c (sym (length-put_le 8 offset)))
    ∙ ap get_le
        (take_of_length-le 4 c (omega (arith, length-put_le 4 (checksum (put_le 8 offset)))))
    ∙ get_le-put_le 4 _ (checksum-lt (put_le 8 offset))

offset_part : (offset : ℕ) → take 8 (drop 8 (offset_file offset)) ≡ put_le 8 offset
unfolding offset_file
offset_part offset = take-append_of 8 (put_le 8 offset) _ (sym (length-put_le 8 offset))

length-offset_file : (offset : ℕ) → length (offset_file offset) ≡ 20
unfolding offset_file
length-offset_file offset = omega (arith, length-append {0}, length-put_le)

magic_part : (offset : ℕ) → bytes_eq (take 8 (offset_file offset)) off_magic ≡ true
unfolding offset_file
magic_part offset = (bytes_eq_iff off_magic off_magic).1 refl

-- An offset that fits its word is read back.
pub read_offset_file-offset_file :
    (offset : ℕ) → offset < 2 ^ 64 → read_offset_file (some (offset_file offset)) ≡ offset_is offset
unfolding read_offset_file
read_offset_file-offset_file offset h = ground (
  arith,
  length-offset_file offset,
  magic_part offset,
  crc_part offset,
  ap checksum (offset_part offset),
  ap get_le (offset_part offset),
  get_le-put_le 8 offset h,
)

-- After Commit of a 64-bit position under a name that NewReader accepts, the reader has it as its
-- committed one, and NewReader on any log resumes there, or at the oldest offset if that is higher.
pub new_reader-commit :
    (name : String) (r : Reader) (files : Dict Bytes) (l : Log)
    → (str_eq name "" || has_separator name) ≡ false
    → r.pos < 2 ^ 64
    → ((commit name r files).0.committed ≡ r.pos)
      × (new_reader l (commit name r files).1 name
          ≡ reader (record { pos = max r.pos (oldest_offset l); committed = r.pos; cursor = none }))
unfolding commit new_reader
new_reader-commit name r files l n h = (
  refl,
  ground (
    arith,
    lookup-insert name name (offset_file r.pos) files,
    eq_refl name,
    read_offset_file-offset_file r.pos h,
  ),
)

-- After Commit of a 64-bit position, the lag that is computed from the consumer's file is the lag that
-- the reader reports.
pub refresh_lag-commit :
    (name : String) (r : Reader) (files : Dict Bytes) (l : Log)
    → r.pos < 2 ^ 64
    → refresh_lag l (commit name r files).1 name ≡ some (lag l r)
unfolding refresh_lag commit lag
refresh_lag-commit name r files l h = ground (
  arith,
  lookup-insert name name (offset_file r.pos) files,
  eq_refl name,
  read_offset_file-offset_file r.pos h,
)
