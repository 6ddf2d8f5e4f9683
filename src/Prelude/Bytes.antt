-- ===== src/Prelude/Bytes.antt =====
-- Bytes as numbers below 256, and Go's encoding/binary: little-endian words of n bytes.
use Prim.Native.Nat.{ℕ, zero, suc, ◌+◌, ◌*◌, ◌/◌, ◌%◌, ◌^◌, ◌<◌}
use mathlib.Core.Path.{◌≡◌, refl, ap}
use mathlib.Core.List.{List, [], ◌∷◌}
use native.Mathlib.Nat.{pow-suc}
use native.Mathlib.Omega.{arith}
use mathlib.Core.Bool.{Bool, true, false, ◌&&◌}
use mathlib.Core.Logic.{◌↔◌}
use leser.Prelude.Lists.{length}
use leser.Prelude.Tests.{◌==◌}

abbrev pub Bytes : Type 0
Bytes = List ℕ

-- binary.LittleEndian.PutUint32 and PutUint64, at n = 4 and n = 8
unfoldable pub put_le : ℕ → ℕ → Bytes
put_le zero x = []
put_le (suc n) x = x % 256 ∷ put_le n (x / 256)

-- binary.LittleEndian.Uint32 and Uint64
unfoldable pub get_le : Bytes → ℕ
get_le [] = 0
get_le (b ∷ bs) = b + 256 * get_le bs

pub length-put_le : (n x : ℕ) → length (put_le n x) ≡ n
unfolding put_le
length-put_le zero x = refl
length-put_le (suc n) x = ap suc (length-put_le n (x / 256))

-- A word that fits is read back.
pub get_le-put_le : (n x : ℕ) → x < 256 ^ n → get_le (put_le n x) ≡ x
unfolding put_le get_le
get_le-put_le zero x h = omega arith
get_le-put_le (suc n) x h =
    let h' : x < 256 ^ n * 256 = rw (← pow-suc) h in
    omega (arith, get_le-put_le n (x / 256) (omega arith))

-- string(a) == string(b), bytes.Equal
unfoldable pub bytes_eq : Bytes → Bytes → Bool
bytes_eq [] [] = true
bytes_eq [] (y ∷ ys) = false
bytes_eq (x ∷ xs) [] = false
bytes_eq (x ∷ xs) (y ∷ ys) = x == y && bytes_eq xs ys

pub bytes_eq_iff : (xs ys : Bytes) → (bytes_eq xs ys ≡ true) ↔ (xs ≡ ys)
unfolding bytes_eq
bytes_eq_iff [] [] = ground arith
bytes_eq_iff [] (y ∷ ys) = ground arith
bytes_eq_iff (x ∷ xs) [] = ground arith
bytes_eq_iff (x ∷ xs) (y ∷ ys) = ground (arith, bytes_eq_iff xs ys)
