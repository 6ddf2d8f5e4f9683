-- ===== src/Prelude/Texts.antt =====
-- Texts as their bytes: strconv.Itoa, the verbs %0*x and %0*d of fmt, and the comparison of strings.
use Prim.Native.Nat.{ℕ, zero, suc, ◌+◌, ◌-◌, ◌*◌, ◌/◌, ◌%◌, ◌<◌}
use Prim.Native.Char.{code}
use Prim.Native.String.{String}
use mathlib.Core.Bool.{Bool, true, false, ◌&&◌}
use mathlib.Core.Option.{Option, none, some}
use mathlib.Core.List.{List, [], ◌∷◌, ◌++◌}
use mathlib.Core.Logic.{◌≢◌, inl, inr}
use mathlib.Core.Path.{◌≡◌, refl, ap, ◌∙◌}
use native.Mathlib.Omega.{arith}
use leser.Prelude.Bytes.{Bytes}
use leser.Prelude.Lists.{length, All, All-append}
use leser.Prelude.Tests.{ltb, ◌==◌, Bool-cases, if◌then◌else◌}

-- The bytes of a text of ASCII characters
abbrev pub codes : String → Bytes
codes String.[] = []
codes (String.◌∷◌ c s) = code c ∷ codes s

-- strings.HasPrefix, strings.Contains and strings.Index
unfoldable pub has_prefix : Bytes → Bytes → Bool
has_prefix s [] = true
has_prefix [] (p ∷ prefix) = false
has_prefix (b ∷ s) (p ∷ prefix) = b == p && has_prefix s prefix

unfoldable pub index_of_text : Bytes → Bytes → Option ℕ
unfolding has_prefix
index_of_text [] t = if has_prefix [] t then some 0 else none
index_of_text (b ∷ s) t =
    let later : Option ℕ = elim (index_of_text s t) [ none ↦ none | some i ↦ some (i + 1) ] in
    if has_prefix (b ∷ s) t then some 0 else later

abbrev pub contains : Bytes → Bytes → Bool
contains s t = elim (index_of_text s t) [ none ↦ false | some i ↦ true ]

-- strings.Split at one byte, and strings.Join
unfoldable pub split_at : ℕ → Bytes → List Bytes
split_at c [] = [] ∷ []
split_at c (b ∷ bs) =
    let rest = split_at c bs in
    if b == c
    then [] ∷ rest
    else elim rest [ [] ↦ (b ∷ []) ∷ [] | part ∷ parts ↦ (b ∷ part) ∷ parts ]

unfoldable pub join : Bytes → List Bytes → Bytes
join sep [] = []
join sep (s ∷ []) = s
join sep (s ∷ t ∷ more) = s ++ (sep ++ join sep (t ∷ more))

-- strconv.Itoa, of a number that has at most `fuel` digits
unfoldable pub itoa : ℕ → ℕ → Bytes
itoa zero v = []
itoa (suc fuel) v =
    let high = itoa fuel (v / 10) in
    if ltb v 10 then (b'0' + v) ∷ [] else high ++ (b'0' + v % 10) ∷ []

abbrev hex_digit : ℕ → ℕ
hex_digit d = if ltb d 10 then b'0' + d else b'a' + (d - 10)

-- The verb %x, of a number that has at most `fuel` digits
unfoldable pub hex : ℕ → ℕ → Bytes
hex zero v = []
hex (suc fuel) v =
    let high = hex fuel (v / 16) in
    if ltb v 16 then hex_digit v ∷ [] else high ++ hex_digit (v % 16) ∷ []

zeros : ℕ → Bytes
zeros zero = []
zeros (suc n) = b'0' ∷ zeros n

-- The flag 0 and the width of a verb
unfoldable pub pad : ℕ → Bytes → Bytes
unfolding zeros
pad width s = zeros (width - length s) ++ s

-- a <= b, as sort.Strings compares texts
unfoldable pub text_le : Bytes → Bytes → Bool
text_le [] ys = true
text_le (x ∷ xs) [] = false
text_le (x ∷ xs) (y ∷ ys) =
    let rest = text_le xs ys in if ltb x y then true else if ltb y x then false else rest

-- A number from its decimal digits, after those that gave `n`
unfoldable pub number_from : ℕ → Bytes → ℕ
number_from n [] = n
number_from n (b ∷ bs) = number_from (n * 10 + (b - b'0')) bs

-- What follows the first byte `c`
unfoldable pub after : ℕ → Bytes → Bytes
after c [] = []
after c (b ∷ bs) = let rest = after c bs in if b == c then bs else rest

number_from-append :
    (n : ℕ) (xs ys : Bytes) → number_from n (xs ++ ys) ≡ number_from (number_from n xs) ys
unfolding number_from
number_from-append n [] ys = refl
number_from-append n (x ∷ xs) ys = number_from-append (n * 10 + (x - b'0')) xs ys

pub number_from-itoa : (fuel v : ℕ) → v < fuel → number_from 0 (itoa fuel v) ≡ v
unfolding itoa
number_from-itoa zero v h = absurd (omega arith)
number_from-itoa (suc fuel) v h = elim (Bool-cases (ltb v 10)) [
  | inl small ↦ rw small (unfold number_from in omega arith)
  | inr large ↦ rw large (
      number_from-append 0 (itoa fuel (v / 10)) ((b'0' + v % 10) ∷ [])
      ∙ ap (λ n. number_from n ((b'0' + v % 10) ∷ []))
          (number_from-itoa fuel (v / 10) (ground arith))
      ∙ digit v)
]
  where
    digit : (v : ℕ) → number_from (v / 10) ((b'0' + v % 10) ∷ []) ≡ v
    digit v = unfold number_from in omega arith

number_from-zeros : (n : ℕ) (bs : Bytes) → number_from 0 (zeros n ++ bs) ≡ number_from 0 bs
unfolding zeros number_from
number_from-zeros zero bs = refl
number_from-zeros (suc n) bs = number_from-zeros n bs

-- The decimal digits are read back.
pub number_from-pad : (width fuel v : ℕ) → v < fuel → number_from 0 (pad width (itoa fuel v)) ≡ v
unfolding pad
number_from-pad width fuel v h =
    number_from-zeros (width - length (itoa fuel v)) (itoa fuel v) ∙ number_from-itoa fuel v h

hex-All : (fuel v : ℕ) → All (λ b. b ≢ b'-') (hex fuel v)
unfolding hex
hex-All zero v = tt
hex-All (suc fuel) v = elim (Bool-cases (ltb v 16)) [
  | inl small ↦ rw small (digit v (ground arith), tt)
  | inr large ↦ rw large (
      All-append (λ b. b ≢ b'-') (hex fuel (v / 16)) (hex_digit (v % 16) ∷ [])
        (hex-All fuel (v / 16)) (digit (v % 16) (omega arith), tt))
]
  where
    digit : (d : ℕ) → d < 16 → hex_digit d ≢ b'-'
    digit d h = ground arith

zeros-All : (n : ℕ) → All (λ b. b ≢ b'-') (zeros n)
unfolding zeros
zeros-All zero = tt
zeros-All (suc n) = (omega arith, zeros-All n)

pub pad-All : (width fuel v : ℕ) → All (λ b. b ≢ b'-') (pad width (hex fuel v))
unfolding pad
pad-All width fuel v =
    All-append (λ b. b ≢ b'-') (zeros _) (hex fuel v) (zeros-All _) (hex-All fuel v)

pub after-append : (c : ℕ) (xs ys : Bytes) → All (λ b. b ≢ c) xs → after c (xs ++ c ∷ ys) ≡ ys
unfolding after
after-append c [] ys h = ground arith
after-append c (x ∷ xs) ys h = ground (arith, h.0, after-append c xs ys h.1)
