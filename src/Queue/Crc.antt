-- ===== src/Queue/Crc.antt =====
-- CRC-32C of infra/storage/task-queue-wal.ts. A 32-bit pattern stands by its unsigned value.
use Prim.Native.Nat.{bit_and, bit_xor}
use memphis_v.Base.{
  ℕ, ◌/◌, ◌%◌, ◌^◌, ◌<◌, ◌≡◌, refl, List, [], ◌∷◌, ◌==◌, if◌then◌else◌, arith, codes,
}

-- one round of the inner loop of `buildCrc32cTable`
crc_round : ℕ → ℕ
crc_round crc = if bit_and crc 1 == 0 then crc / 2 else bit_xor (crc / 2) 0x82f63b78

-- one entry of the table: eight rounds
crc_entry : ℕ → ℕ
unfolding crc_round
crc_entry i =
    crc_round (crc_round (crc_round (crc_round (crc_round (crc_round (crc_round (crc_round i)))))))

crc_bytes : ℕ → List ℕ → ℕ
unfolding crc_entry
crc_bytes crc [] = crc
crc_bytes crc (b ∷ bytes) =
    crc_bytes (bit_xor (crc / 2 ^ 8) (crc_entry (bit_and (bit_xor crc b) 0xff))) bytes

-- `(crc ^ 0xffffffff) >>> 0`
unfoldable pub crc32c : List ℕ → ℕ
unfolding crc_bytes
crc32c bytes = bit_xor (crc_bytes 0xffffffff bytes) 0xffffffff % 2 ^ 32

pub crc32c-lt : (bytes : List ℕ) → crc32c bytes < 2 ^ 32
unfolding crc32c
crc32c-lt bytes = omega arith

-- the check value of the CRC-32C catalogue
check_value : crc32c (codes "123456789") ≡ 0xe3069283
unfolding crc32c
check_value = refl
