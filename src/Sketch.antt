-- ===== src/Sketch.antt =====
-- internal/eventstore/hll.go: the HyperLogLog sketch, less its estimate, which is in floating point, and
-- its base64 text.
use Prim.Native.Nat.{bit_xor}
use leser.Prelude.{
  ℕ, zero, suc, ◌+◌, ◌-◌, ◌*◌, ◌/◌, ◌%◌, ◌^◌, Bool, List, [], ◌∷◌, ltb, if◌then◌else◌,
}
use leser.Prelude.Bytes.{Bytes}
pub mod Union
mod Tests

-- hllP, hllM
abbrev pub precision : ℕ
precision = 12

abbrev pub register_count : ℕ
register_count = 4096

-- hash/fnv's 64-bit FNV-1a
fnv_from : ℕ → Bytes → ℕ
fnv_from h [] = h
fnv_from h (b ∷ bs) = fnv_from (bit_xor h b * 1099511628211 % 2 ^ 64) bs

unfoldable pub fnv64a : Bytes → ℕ
unfolding fnv_from
fnv64a s = fnv_from 14695981039346656037 s

-- x ^= x >> 33
abbrev pub xor_shift : ℕ → ℕ
xor_shift x = bit_xor x (x / 2 ^ 33)

unfoldable pub fmix64 : ℕ → ℕ
fmix64 x =
    xor_shift
      (xor_shift (xor_shift x * 0xff51_afd7_ed55_8ccd % 2 ^ 64) * 0xc4ce_b9fe_1a85_ec53 % 2 ^ 64)

-- bits.LeadingZeros64, as far as `fuel` bits
unfoldable pub leading_zeros : ℕ → ℕ → ℕ
leading_zeros zero x = 0
leading_zeros (suc fuel) x =
    let rest = leading_zeros fuel (x * 2) in if ltb x (2 ^ 63) then rest + 1 else 0

unfoldable pub index_of : ℕ → ℕ
index_of x = x / 2 ^ (64 - precision)

-- The low bits of x<<hllP are 0, so that |1 adds one.
unfoldable pub rank_of : ℕ → ℕ
unfolding leading_zeros
rank_of x = leading_zeros 64 (x * 2 ^ precision % 2 ^ 64 + 1) + 1

abbrev pub Registers : Type 0
Registers = List ℕ

-- The greater of a register and a rank
abbrev pub raise : ℕ → ℕ → ℕ
raise v rank = if ltb v rank then rank else v

-- An index past the end would panic; index_of stays below.
unfoldable pub raise_at : ℕ → ℕ → Registers → Registers
raise_at i rank [] = []
raise_at zero rank (v ∷ regs) = raise v rank ∷ regs
raise_at (suc i) rank (v ∷ regs) = v ∷ raise_at i rank regs

unfoldable pub zeros : ℕ → Registers
zeros zero = []
zeros (suc n) = 0 ∷ zeros n

unfoldable pub new_hll : Registers
unfolding zeros
new_hll = zeros register_count

unfoldable pub add : Bytes → Registers → Registers
add s regs = let x = fmix64 (fnv64a s) in raise_at (index_of x) (rank_of x) regs

unfoldable pub add_all : List Bytes → Registers → Registers
add_all [] regs = regs
add_all (s ∷ values) regs = add_all values (add s regs)

unfoldable pub merge : Registers → Registers → Registers
merge [] others = []
merge (v ∷ regs) [] = v ∷ regs
merge (v ∷ regs) (w ∷ others) = raise v w ∷ merge regs others
