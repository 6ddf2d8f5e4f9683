-- ===== src/Ingest/Envelope/Lines.antt =====
-- readLine of internal/ingest/envelope.go, and the payload of an item.
use leser.Prelude.{
  ℕ, suc, ◌+◌, ◌≤◌, ◌<◌, ◌≡◌, ◌≢◌, refl, ap, ◌∙◌, true, ◌||◌, [], ◌∷◌, ◌++◌, All, length, take,
  drop, length-drop, length-take-le, ltb, ◌==◌, Bool-cases, Option-cases, inl, inr, arith,
}
use leser.Prelude.Bytes.{Bytes}
use leser.Ingest.Envelope.{
  Limits, ItemHeader, Line, too_long, line, eof, until_newline, read_line, Payload, bad, payload,
  from_line, after_sized, sized, read_payload, ℤ, pos, negsuc,
}

pub length-until_newline : (input : Bytes) → length (until_newline input).0 ≤ length input
unfolding until_newline
length-until_newline [] = omega arith
length-until_newline (b ∷ bs) = ground (arith, length-until_newline bs)

-- A line within its bound
abbrev pub LineOk : ℕ → Bytes → Line → Type 0
LineOk max input too_long = Unit
LineOk max input (line text rest) = (length text < max) × (length rest < length input)
LineOk max input (eof text) = (length text ≤ max) × (length text ≤ length input)

found-lt :
    (input : Bytes) → (until_newline input).1 ≡ true → length (until_newline input).0 < length input
unfolding until_newline
found-lt [] h = absurd (ground arith)
found-lt (b ∷ bs) h = ground (arith, found-lt bs)

pub read_line-Ok : (max : ℕ) (input : Bytes) → LineOk max input (read_line max input)
unfolding read_line
read_line-Ok max input =
    let text = (until_newline input).0 in
    elim (Bool-cases (until_newline input).1) [
      | inl found ↦ elim (Bool-cases (ltb max (length text + 1))) [
        | inl long ↦ rw (found, long) tt
        | inr short ↦
            let less = found-lt input found in
            let rest = length-drop (length text + 1) input in
            rw (found, short) (ground arith, omega (arith, rest, less))
      ]
      | inr missing ↦ elim (Bool-cases (ltb max (length text))) [
        | inl long ↦ rw (missing, long) tt
        | inr short ↦ rw (missing, short) (ground arith, length-until_newline input)
      ]
    ]

-- A payload within its bound, and no more left to read than before
abbrev pub PayloadOk : Limits → Bytes → Payload → Type 0
PayloadOk lim input bad = Unit
PayloadOk lim input (payload bytes left) =
    (length bytes ≤ lim.max_item_bytes) × (length left ≤ length input)

from_line-Ok :
    (lim : Limits) (input : Bytes) (l : Line)
    → LineOk lim.max_item_bytes input l
    → PayloadOk lim input (from_line l)
from_line-Ok lim input too_long h = tt
from_line-Ok lim input (line text rest) h = (omega (arith, h.0), omega (arith, h.1))
from_line-Ok lim input (eof text) h = (h.0, omega arith)

after_sized-Ok :
    (lim : Limits) (input bytes rest : Bytes)
    → length bytes ≤ lim.max_item_bytes
    → length rest ≤ length input
    → PayloadOk lim input (after_sized bytes rest)
after_sized-Ok lim input bytes [] h k = (h, omega arith)
after_sized-Ok lim input bytes (b ∷ rest) h k = elim (Bool-cases (b == b'\n')) [
  | inl end ↦ rw end (h, omega (arith, k))
  | inr more ↦ rw more tt
]

sized-Ok : (lim : Limits) (n : ℤ) (input : Bytes) → PayloadOk lim input (sized lim n input)
sized-Ok lim (negsuc k) input = tt
sized-Ok lim (pos n) input = elim (Bool-cases (ltb lim.max_item_bytes n || ltb (length input) n)) [
  | inl over ↦ rw over tt
  | inr within ↦
      let fits : n ≤ lim.max_item_bytes = ground arith in
      rw within (
        after_sized-Ok lim input (take n input) (drop n input)
          (omega (arith, fits, length-take-le n input)) (omega (arith, length-drop n input)))
]

pub read_payload-Ok :
    (lim : Limits) (ih : ItemHeader) (input : Bytes)
    → PayloadOk lim input (read_payload lim ih input)
unfolding read_payload
read_payload-Ok lim ih input = elim (Option-cases ih.size) [
  | inl unsized ↦
      rw (unsized, read_payload)
        (from_line-Ok lim input (read_line lim.max_item_bytes input)
          (read_line-Ok lim.max_item_bytes input))
  | inr (n, size) ↦ rw (size, read_payload) (sized-Ok lim n input)
]

-- A text without a newline, before one
pub until_newline-append :
    (text rest : Bytes)
    → All (λ b. b ≢ b'\n') text
    → until_newline (text ++ b'\n' ∷ rest) ≡ (text, true)
unfolding until_newline
until_newline-append [] rest h = refl
until_newline-append (b ∷ text) rest h = ground (arith, h.0, until_newline-append text rest h.1)

drop_line : (text rest : Bytes) → drop (length text + 1) (text ++ b'\n' ∷ rest) ≡ rest
drop_line [] rest = refl
drop_line (b ∷ text) rest = ap (λ n. drop n (b ∷ text ++ b'\n' ∷ rest)) shift ∙ drop_line text rest
  where
    shift : suc (length text) + 1 ≡ suc (length text + 1)
    shift = omega arith

pub read_line-append :
    (max : ℕ) (text rest : Bytes)
    → All (λ b. b ≢ b'\n') text
    → length text < max
    → read_line max (text ++ b'\n' ∷ rest) ≡ line text rest
unfolding read_line
read_line-append max text rest h short =
    rw (until_newline-append text rest h) (ground (arith, drop_line text rest))
