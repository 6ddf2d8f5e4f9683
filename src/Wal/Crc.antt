-- ===== src/Wal/Crc.antt =====
-- crc32.Checksum with the Castagnoli table, which internal/wal/segment.go asks of hash/crc32: the
-- reflected polynomial 0x82f63b78, one bit at a time.
use Prim.Native.Nat.{bit_xor}
use leser.Prelude.{ℕ, zero, suc, ◌/◌, ◌%◌, ◌^◌, ◌<◌, ◌≡◌, refl, [], ◌∷◌, arith, ◌==◌, if◌then◌else◌}
use leser.Prelude.Bytes.{Bytes}

crc_bit : ℕ → ℕ
crc_bit x = if x % 2 == 1 then bit_xor (x / 2) 0x82f6_3b78 else x / 2

crc_byte : ℕ → ℕ → ℕ
crc_byte zero x = x
crc_byte (suc n) x = crc_byte n (crc_bit x)

crc_from : ℕ → Bytes → ℕ
crc_from x [] = x
crc_from x (b ∷ bs) = crc_from (crc_byte 8 (bit_xor x b)) bs

-- A uint32.
unfoldable pub checksum : Bytes → ℕ
unfolding crc_bit crc_byte crc_from
checksum bs = bit_xor (crc_from 0xffff_ffff bs) 0xffff_ffff % 2 ^ 32

pub checksum-lt : (bs : Bytes) → checksum bs < 2 ^ 32
unfolding checksum
checksum-lt bs = omega arith

-- The check value of CRC-32C: the text "123456789".
check_value : checksum (49 ∷ 50 ∷ 51 ∷ 52 ∷ 53 ∷ 54 ∷ 55 ∷ 56 ∷ 57 ∷ []) ≡ 0xe306_9283
unfolding checksum
check_value = refl
