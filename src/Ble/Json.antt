-- ===== src/Ble/Json.antt =====
-- The credentials of a provisioning message and their escaping: json_get_string_field,
-- parse_wifi_credential and escape_wpa_str of ble_sdk/btgatt-server.c.
pub mod Laws
pub mod RoundTrip
use rockchip_1106_voice_agen.Prelude.{
  ℕ, zero, suc, ◌+◌, ◌-◌, ◌*◌, ◌/◌, ◌%◌, ◌^◌, ◌≤◌, ◌<◌, min, ◌≡◌, refl, sym, ap, ◌∙◌, ◌≢◌, ◌↔◌, ◌⊎◌,
  inl, inr, Bool, true, false, not, ◌&&◌, ◌||◌, Option, none, some, List, [], ◌∷◌, ◌++◌, map, arith,
  ltb, leb, ◌==◌, if◌then◌else◌, ltb→lt, lt→ltb, leb→le, ==_iff, Bool-cases, Option-cases, length,
  get_elem?, set, get_or, take, drop, replicate, length-append, length-set, length-take,
  length-drop, length-replicate, take-append-drop, take-length_append, drop-length_append,
  get_or-append_left, get_or-append_right, take-all, get_elem?-set_self, get_elem?-set_ne,
}
use rockchip_1106_voice_agen.Text.{cstr, strstr, skip_spaces, codes}

-- `while (p < end && *p != c) p++`: the bytes before `c`, and those from `c` on.
unfoldable pub span_until : ℕ → List ℕ → List ℕ × List ℕ
span_until c [] = ([], [])
span_until c (x ∷ xs) =
    let (before, rest) = span_until c xs in if x == c then ([], x ∷ xs) else (x ∷ before, rest)

-- The value behind the colon: the opening quote, the bytes before the next one, cut to `out_len`.
unfoldable pub quoted_value : ℕ → List ℕ → Option (List ℕ)
unfolding span_until
quoted_value out_len [] = none
quoted_value out_len (q ∷ bytes) =
    let (value, rest) = span_until 0x22 bytes in
    if not (q == 0x22)
    then none
    else elim rest [ [] ↦ none | _ ∷ _ ↦ some (take (out_len - 1) value) ]

-- From the byte behind the key's closing quote: the colon, spaces, the value.
unfoldable pub field_value : List ℕ → ℕ → Option (List ℕ)
unfolding skip_spaces span_until quoted_value
field_value bytes out_len = elim (span_until 0x3A bytes).1 [
  | [] ↦ none
  | colon ∷ rest ↦ quoted_value out_len (skip_spaces rest)
]

-- `json` is `json[0..len)`, and a NUL stands behind it. `none` is the return of -1; the bytes are
-- what `out` holds before its NUL.
unfoldable pub json_get_string_field : List ℕ → List ℕ → ℕ → Option (List ℕ)
json_get_string_field json key out_len =
    let pattern = take 31 (0x22 ∷ (key ++ (0x22 ∷ []))) in
    if out_len == 0 then none else elim (strstr (cstr json) pattern) [
      | none ↦ none
      | some i ↦ field_value (drop (i + length pattern) json) out_len
    ]

-- `a != 0 && b != 0` on the two spellings of a key
abbrev or_else : Option (List ℕ) → Option (List ℕ) → Option (List ℕ)
or_else none b = b
or_else (some x) b = some x

-- The SSID and the passphrase, which is empty if the message has none.
unfoldable pub parse_wifi_credential : List ℕ → ℕ → ℕ → Option (List ℕ × List ℕ)
parse_wifi_credential json ssid_len pass_len =
    elim (or_else (json_get_string_field json (codes "ssid") ssid_len)
      (json_get_string_field json (codes "SSID") ssid_len)) [
        | none ↦ none
        | some ssid ↦
            elim (or_else (json_get_string_field json (codes "pass") pass_len)
              (json_get_string_field json (codes "PSK") pass_len)) [
                | none ↦ some (ssid, [])
                | some pass ↦ some (ssid, pass)
              ]
      ]

abbrev pub is_special : ℕ → Bool
is_special c = c == 0x22 || c == 0x5C

-- The loop of escape_wpa_str with `j` bytes written: the bytes that it still writes.
unfoldable pub escape_from : ℕ → ℕ → List ℕ → List ℕ
escape_from out_len j [] = []
escape_from out_len j (c ∷ cs) =
    let escaped = is_special c && ltb (j + 2) out_len in
    let rest = escape_from out_len (if escaped then j + 2 else j + 1) cs in
    if c == 0 || not (ltb (j + 1) out_len)
    then []
    else if escaped
    then 0x5C ∷ c ∷ rest
    else c ∷ rest

unfoldable pub escape_wpa_str : List ℕ → ℕ → List ℕ
unfolding escape_from
escape_wpa_str bytes out_len = if out_len == 0 then [] else escape_from out_len 0 bytes
