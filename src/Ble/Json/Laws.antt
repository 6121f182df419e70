-- ===== src/Ble/Json/Laws.antt =====
-- What the credential parser and the escaping of ble_sdk/btgatt-server.c guarantee.
use rockchip_1106_voice_agen.Prelude.{
  ℕ, ◌+◌, ◌*◌, ◌<◌, ◌≡◌, refl, false, Option, none, some, List, [], ◌∷◌, arith, ◌==◌, if◌then◌else◌,
  length,
}
use rockchip_1106_voice_agen.Text.{IsText}
use rockchip_1106_voice_agen.Ble.Json.{is_special, escape_from, escape_wpa_str}

-- How wpa_supplicant reads a quoted value: a backslash takes the next byte as it stands, and a bare
-- quote would end the value, so that there is none.
unfoldable pub unquote : List ℕ → Option (List ℕ)
unquote [] = some []
unquote (c ∷ []) = if is_special c then none else some (c ∷ [])
unquote (c ∷ d ∷ cs) =
    let next = unquote cs in
    let rest = unquote (d ∷ cs) in
    if c == 0x5C
    then elim next [ none ↦ none | some s ↦ some (d ∷ s) ]
    else if c == 0x22
    then none
    else elim rest [ none ↦ none | some s ↦ some (c ∷ s) ]

unquote-plain :
    (c : ℕ) (cs : List ℕ)
    → is_special c ≡ false
    → unquote (c ∷ cs) ≡ elim (unquote cs) [ none ↦ none | some s ↦ some (c ∷ s) ]
unfolding unquote
unquote-plain c [] h = ground arith
unquote-plain c (d ∷ cs) h = ground arith

unquote-escaped :
    (c : ℕ) (cs : List ℕ)
    → unquote (0x5C ∷ c ∷ cs) ≡ elim (unquote cs) [ none ↦ none | some s ↦ some (c ∷ s) ]
unfolding unquote
unquote-escaped c cs = refl

unquote-escape_from :
    (out_len j : ℕ) (s : List ℕ)
    → IsText s
    → j + 2 * length s < out_len
    → unquote (escape_from out_len j s) ≡ some s
unfolding escape_from
unquote-escape_from out_len j [] h fits = unfold unquote in refl
unquote-escape_from out_len j (c ∷ cs) h fits = ground (
  arith,
  unquote-escape_from out_len (j + 2) cs h.1,
  unquote-escape_from out_len (j + 1) cs h.1,
  unquote-plain c (escape_from out_len (j + 1) cs),
  unquote-escaped c (escape_from out_len (j + 2) cs),
)

-- A text of less than half the output buffer is escaped by escape_wpa_str without loss: read back
-- as a quoted value, it is the text, and no bare quote ends it early.
pub unquote-escape_wpa_str :
    (s : List ℕ) (out_len : ℕ)
    → IsText s
    → 2 * length s < out_len
    → unquote (escape_wpa_str s out_len) ≡ some s
unfolding escape_wpa_str
unquote-escape_wpa_str s out_len h fits = ground (arith, unquote-escape_from out_len 0 s h)

escape_from-fits :
    (out_len j : ℕ) (s : List ℕ) → j < out_len → j + length (escape_from out_len j s) < out_len
unfolding escape_from
escape_from-fits out_len j [] h = omega arith
escape_from-fits out_len j (c ∷ cs) h =
    ground (arith, escape_from-fits out_len (j + 2) cs, escape_from-fits out_len (j + 1) cs)

-- escape_wpa_str never writes past its buffer, for any text: the bytes and the NUL fit.
pub escape_wpa_str-fits :
    (s : List ℕ) (out_len : ℕ) → 0 < out_len → length (escape_wpa_str s out_len) < out_len
unfolding escape_wpa_str
escape_wpa_str-fits s out_len h = ground (arith, escape_from-fits out_len 0 s)
