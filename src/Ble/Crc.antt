-- ===== src/Ble/Crc.antt =====
-- crc16_xmodem of ble_sdk/btgatt-server.c: the checksum of a provisioning frame.
pub mod Laws
use Prim.Native.Nat.{bit_and, bit_xor}
use rockchip_1106_voice_agen.Prelude.{ℕ, zero, suc, ◌*◌, ◌%◌, List, [], ◌∷◌, ◌==◌, if◌then◌else◌}

-- One round of the inner loop, on a uint16_t: the shift is by an int, and the assignment keeps the
-- low 16 bits.
unfoldable pub crc_bit : ℕ → ℕ
crc_bit crc = if bit_and crc 0x8000 == 0 then crc * 2 % 65536 else bit_xor (crc * 2) 0x1021 % 65536

-- `for (int bit = 0; bit < 8; bit++)`, by the rounds left.
unfoldable pub crc_bits : ℕ → ℕ → ℕ
crc_bits zero crc = crc
crc_bits (suc n) crc = crc_bits n (crc_bit crc)

-- One round of the outer loop.
unfoldable pub crc_byte : ℕ → ℕ → ℕ
crc_byte crc d = crc_bits 8 (bit_xor crc (d * 256) % 65536)

unfoldable pub crc_from : ℕ → List ℕ → ℕ
crc_from crc [] = crc
crc_from crc (d ∷ ds) = crc_from (crc_byte crc d) ds

-- The list is `data[0..len)`.
unfoldable pub crc16_xmodem : List ℕ → ℕ
unfolding crc_from
crc16_xmodem bytes = crc_from 0 bytes
