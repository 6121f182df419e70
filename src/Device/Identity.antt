-- ===== src/Device/Identity.antt =====
-- The identity of the device, src/config.c: zh_get_mac_hex_str and zh_get_config; and the byte order
-- of src/utils.c.
use Prim.Native.Nat.{bit_or}
use rockchip_1106_voice_agen.Prelude.Bits.{bit_or_bytes}
use rockchip_1106_voice_agen.Device.Files.{read_file}
use rockchip_1106_voice_agen.Prelude.{
  ℕ, ◌+◌, ◌-◌, ◌*◌, ◌/◌, ◌%◌, ◌^◌, ◌<◌, ◌≡◌, refl, ap, ◌∙◌, Option, none, some, List, [], ◌∷◌,
  arith, ltb, if◌then◌else◌, length,
}

-- hex[n] of "0123456789abcdef"
unfoldable pub hex_digit : ℕ → ℕ
hex_digit n = if ltb n 10 then b'0' + n else b'a' + (n - 10)

-- zh_get_mac_hex_str into a buffer of at least 13 bytes: the two digits of each byte.
unfoldable pub mac_hex : List ℕ → List ℕ
unfolding hex_digit
mac_hex [] = []
mac_hex (b ∷ bs) = hex_digit (b / 16 % 16) ∷ hex_digit (b % 16) ∷ mac_hex bs

-- zh_config_t, as far as zh_get_config fills it in.
pub record Config : Type 0 where
  pub device_id : List ℕ
  pub key : List ℕ

-- zh_get_config: the answer of zh_get_mac_addr, the bytes of the key file and the size of `key`.
unfoldable pub get_config : Option (List ℕ) → Option (List ℕ) → ℕ → Config
unfolding mac_hex read_file
get_config mac key_file key_len =
    let r = read_file key_len key_file in
    record {
      device_id = elim mac [ none ↦ [] | some m ↦ mac_hex m ];
      key = if r.0 then r.1 else [];
    }

-- zh_write_be16: the two bytes.
unfoldable pub write_be16 : ℕ → List ℕ
write_be16 v = v / 256 % 256 ∷ v % 256 ∷ []

-- zh_read_be16 of two bytes, zh_read_be32 of four.
unfoldable pub read_be16 : ℕ → ℕ → ℕ
read_be16 a b = bit_or (a * 256) b % 2 ^ 16

unfoldable pub read_be32 : ℕ → ℕ → ℕ → ℕ → ℕ
read_be32 a b c d = bit_or (bit_or (bit_or (a * 16777216 % 2 ^ 32) (b * 65536)) (c * 256)) d

-- The value of a hexadecimal digit.
abbrev pub hex_value : ℕ → ℕ
hex_value c = if ltb c b'a' then c - b'0' else c - b'a' + 10

-- The bytes that a text of digits stands for.
abbrev pub unhex : List ℕ → List ℕ
unhex [] = []
unhex (a ∷ []) = []
unhex (a ∷ b ∷ cs) = (hex_value a * 16 + hex_value b) ∷ unhex cs

abbrev pub AreBytes : List ℕ → Type 0
AreBytes [] = Unit
AreBytes (b ∷ bs) = (b < 256) × AreBytes bs

hex_value-hex_digit : (n : ℕ) → n < 16 → hex_value (hex_digit n) ≡ n
unfolding hex_digit
hex_value-hex_digit n h = ground arith

unhex-mac_hex : (mac : List ℕ) → AreBytes mac → unhex (mac_hex mac) ≡ mac
unfolding mac_hex
unhex-mac_hex [] h = refl
unhex-mac_hex (b ∷ bs) h =
    let e : hex_value (hex_digit (b / 16 % 16)) * 16 + hex_value (hex_digit (b % 16)) ≡ b = omega (
      arith,
      hex_value-hex_digit (b / 16 % 16) (omega arith),
      hex_value-hex_digit (b % 16) (omega arith),
      h.0,
    ) in
    ap (λ x. x ∷ unhex (mac_hex bs)) e ∙ ap (λ l. b ∷ l) (unhex-mac_hex bs h.1)

length-mac_hex : (mac : List ℕ) → length (mac_hex mac) ≡ 2 * length mac
unfolding mac_hex
length-mac_hex [] = omega arith
length-mac_hex (b ∷ bs) = omega (arith, length-mac_hex bs)

-- The id of a device whose address can be read is 12 digits that spell the address: two devices with
-- different addresses have different ids. Where the address cannot be read the id is empty.
pub get_config-device_id :
    (mac : List ℕ) (key_file : Option (List ℕ)) (key_len : ℕ)
    → length mac ≡ 6
    → AreBytes mac
    → (length ((get_config (some mac) key_file key_len).device_id) ≡ 12)
      × (unhex ((get_config (some mac) key_file key_len).device_id) ≡ mac)
      × ((get_config none key_file key_len).device_id ≡ [])
unfolding get_config
get_config-device_id mac key_file key_len six bytes =
    (omega (arith, length-mac_hex mac, six), unhex-mac_hex mac bytes, refl)

-- A 16-bit number reads back as it was written.
read_be16-write_be16 : (v : ℕ) → v < 2 ^ 16 → read_be16 (v / 256 % 256) (v % 256) ≡ v
unfolding read_be16
read_be16-write_be16 v h = omega (arith, bit_or_bytes (v / 256 % 256) (v % 256) (omega arith))
