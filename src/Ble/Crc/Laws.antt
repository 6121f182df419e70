-- ===== src/Ble/Crc/Laws.antt =====
-- What the checksum of ble_sdk/btgatt-server.c (crc16_xmodem) detects.
use Prim.Native.Nat.{bit_xor}
use rockchip_1106_voice_agen.Prelude.{
  ℕ, zero, suc, ◌+◌, ◌*◌, ◌/◌, ◌%◌, ◌<◌, ◌≡◌, refl, ap, sym, ◌∙◌, List, [], ◌∷◌, ◌++◌, ◌==◌, ==_iff,
  if◌then◌else◌, arith, true,
}
use rockchip_1106_voice_agen.Prelude.Bits.{
  bit_xor_cancel, bit_xor_comm, bit_xor-lt, all_below, all_below_sound,
}
use rockchip_1106_voice_agen.Ble.Crc.{crc_bit, crc_bits, crc_byte, crc_from, crc16_xmodem}

crc_bit-lt : (c : ℕ) → crc_bit c < 65536
unfolding crc_bit
crc_bit-lt c = ground arith

crc_bits-lt : (n c : ℕ) → c < 65536 → crc_bits n c < 65536
unfolding crc_bits
crc_bits-lt zero c h = h
crc_bits-lt (suc n) c h = crc_bits-lt n (crc_bit c) (crc_bit-lt c)

pub crc_byte-lt : (c d : ℕ) → crc_byte c d < 65536
unfolding crc_byte
crc_byte-lt c d = crc_bits-lt 8 (bit_xor c (d * 256) % 65536) (omega arith)

pub crc_from-lt : (c : ℕ) (ds : List ℕ) → c < 65536 → crc_from c ds < 65536
unfolding crc_from
crc_from-lt c [] h = h
crc_from-lt c (d ∷ ds) h = crc_from-lt (crc_byte c d) ds (crc_byte-lt c d)

-- The register of one round back: 0x1021 is odd, so the low bit says which branch was taken.
undo : ℕ → ℕ
undo r = if r % 2 == 0 then r / 2 else bit_xor r 0x1021 / 2 + 0x8000

undo_table : all_below 65536 (λ c. undo (crc_bit c) == c) ≡ true
unfolding all_below undo crc_bit
undo_table = refl

undo-crc_bit : (c : ℕ) → c < 65536 → undo (crc_bit c) ≡ c
undo-crc_bit c h =
    (==_iff _ c).0 (all_below_sound 65536 (λ c. undo (crc_bit c) == c) c undo_table h)

crc_bit_injective : (a b : ℕ) → a < 65536 → b < 65536 → crc_bit a ≡ crc_bit b → a ≡ b
crc_bit_injective a b ha hb e = sym (undo-crc_bit a ha) ∙ ap undo e ∙ undo-crc_bit b hb

crc_bits_injective : (n a b : ℕ) → a < 65536 → b < 65536 → crc_bits n a ≡ crc_bits n b → a ≡ b
unfolding crc_bits
crc_bits_injective zero a b ha hb e = e
crc_bits_injective (suc n) a b ha hb e =
    crc_bit_injective a b ha hb
      (crc_bits_injective n (crc_bit a) (crc_bit b) (crc_bit-lt a) (crc_bit-lt b) e)

-- The register with a byte mixed in has 16 bits, so the assignment cuts nothing off.
mix-lt : (c d : ℕ) → c < 65536 → d < 256 → bit_xor c (d * 256) < 65536
mix-lt c d hc hd = bit_xor-lt 16 c (d * 256) hc (omega arith)

mix_exact : (c d : ℕ) → c < 65536 → d < 256 → bit_xor c (d * 256) % 65536 ≡ bit_xor c (d * 256)
mix_exact c d hc hd = omega (arith, mix-lt c d hc hd)

-- Different registers stay different over the same byte.
crc_byte_injective :
    (a b d : ℕ) → a < 65536 → b < 65536 → d < 256 → crc_byte a d ≡ crc_byte b d → a ≡ b
unfolding crc_byte
crc_byte_injective a b d ha hb hd e =
    sym (bit_xor_cancel a (d * 256))
    ∙ ap (λ t. bit_xor t (d * 256)) mixed
    ∙ bit_xor_cancel b (d * 256)
  where
    mixed : bit_xor a (d * 256) ≡ bit_xor b (d * 256)
    mixed =
        sym (mix_exact a d ha hd)
        ∙ crc_bits_injective 8 _ _ (omega arith) (omega arith) e
        ∙ mix_exact b d hb hd

abbrev pub IsBytes : List ℕ → Type 0
IsBytes [] = Unit
IsBytes (x ∷ xs) = (x < 256) × IsBytes xs

crc_from_injective :
    (a b : ℕ) (ds : List ℕ)
    → a < 65536
    → b < 65536
    → IsBytes ds
    → crc_from a ds ≡ crc_from b ds
    → a ≡ b
unfolding crc_from
crc_from_injective a b [] ha hb hs e = e
crc_from_injective a b (d ∷ ds) ha hb hs e =
    crc_byte_injective a b d ha hb hs.0 (
      crc_from_injective (crc_byte a d) (crc_byte b d) ds (crc_byte-lt a d) (crc_byte-lt b d) hs.1
        e)

-- From one register, different bytes give different registers.
crc_byte_separates :
    (c a b : ℕ) → c < 65536 → a < 256 → b < 256 → crc_byte c a ≡ crc_byte c b → a ≡ b
unfolding crc_byte
crc_byte_separates c a b hc ha hb e = omega (arith, shifted)
  where
    mixed : bit_xor c (a * 256) ≡ bit_xor c (b * 256)
    mixed =
        sym (mix_exact c a hc ha)
        ∙ crc_bits_injective 8 _ _ (omega arith) (omega arith) e
        ∙ mix_exact c b hc hb

    swapped : bit_xor (a * 256) c ≡ bit_xor (b * 256) c
    swapped = bit_xor_comm (a * 256) c ∙ mixed ∙ bit_xor_comm c (b * 256)

    shifted : a * 256 ≡ b * 256
    shifted =
        sym (bit_xor_cancel (a * 256) c)
        ∙ ap (λ t. bit_xor t c) swapped
        ∙ bit_xor_cancel (b * 256) c

crc_from-detects :
    (c : ℕ) (xs ys : List ℕ) (a b : ℕ)
    → c < 65536
    → a < 256
    → b < 256
    → IsBytes ys
    → crc_from c (xs ++ (a ∷ ys)) ≡ crc_from c (xs ++ (b ∷ ys))
    → a ≡ b
unfolding crc_from
crc_from-detects c [] ys a b hc ha hb hs e =
    crc_byte_separates c a b hc ha hb
      (crc_from_injective (crc_byte c a) (crc_byte c b) ys (crc_byte-lt c a) (crc_byte-lt c b) hs e)
crc_from-detects c (x ∷ xs) ys a b hc ha hb hs e =
    crc_from-detects (crc_byte c x) xs ys a b (crc_byte-lt c x) ha hb hs e

-- The checksum is a uint16_t.
pub crc16_xmodem-lt : (bytes : List ℕ) → crc16_xmodem bytes < 65536
unfolding crc16_xmodem
crc16_xmodem-lt bytes = crc_from-lt 0 bytes (omega arith)

-- Two texts of bytes that differ in exactly one byte, wherever it stands, have different checksums:
-- from equal checksums the two bytes are equal.
pub crc16_xmodem_detects_byte :
    (xs ys : List ℕ) (a b : ℕ)
    → a < 256
    → b < 256
    → IsBytes ys
    → crc16_xmodem (xs ++ (a ∷ ys)) ≡ crc16_xmodem (xs ++ (b ∷ ys))
    → a ≡ b
unfolding crc16_xmodem
crc16_xmodem_detects_byte xs ys a b ha hb hs e =
    crc_from-detects 0 xs ys a b (omega arith) ha hb hs e
