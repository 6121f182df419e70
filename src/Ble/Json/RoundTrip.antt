-- ===== src/Ble/Json/RoundTrip.antt =====
-- A provisioning message is read back by parse_wifi_credential (ble_sdk/btgatt-server.c).
use rockchip_1106_voice_agen.Prelude.{
  ℕ, suc, ◌+◌, ◌-◌, ◌≡◌, refl, sym, ap, ◌∙◌, ◌≢◌, inl, inr, true, false, some, List, [], ◌∷◌, ◌++◌,
  arith, Bool-cases, length, take, drop, length-append, drop-length_append,
}
use mathlib.Core.List.{append_assoc}
use rockchip_1106_voice_agen.Text.{cstr, strstr, is_prefix, isspace, codes}
use rockchip_1106_voice_agen.Ble.Json.{
  span_until, quoted_value, field_value, json_get_string_field, parse_wifi_credential,
}

-- Neither a quote nor a NUL.
abbrev pub IsPlain : List ℕ → Type 0
IsPlain [] = Unit
IsPlain (c ∷ cs) = (c ≢ 0x22) × (c ≢ 0) × IsPlain cs

-- `{"ssid":"…","pass":"…"}`
abbrev pub credential_message : List ℕ → List ℕ → List ℕ
credential_message ssid pass =
    codes "{\"ssid\":\"" ++ (ssid ++ (codes "\",\"pass\":\"" ++ (pass ++ codes "\"}")))

cstr-plain : (u v : List ℕ) → IsPlain u → cstr (u ++ v) ≡ u ++ cstr v
unfolding cstr
cstr-plain [] v h = refl
cstr-plain (c ∷ cs) v h = ground (arith, cstr-plain cs v h.2)

strstr-plain :
    (u v ps : List ℕ) (k : ℕ)
    → IsPlain u
    → strstr v (0x22 ∷ ps) ≡ some k
    → strstr (u ++ v) (0x22 ∷ ps) ≡ some (length u + k)
unfolding strstr
strstr-plain [] v ps k h e = e ∙ ap some (omega arith)
strstr-plain (c ∷ cs) v ps k h e = ground (arith, strstr-plain cs v ps k h.2 e)

span_until-plain : (u v : List ℕ) → IsPlain u → span_until 0x22 (u ++ (0x22 ∷ v)) ≡ (u, 0x22 ∷ v)
unfolding span_until
span_until-plain [] v h = refl
span_until-plain (c ∷ cs) v h = ground (arith, span_until-plain cs v h.2)

cstr-message :
    (ssid pass : List ℕ)
    → IsPlain ssid
    → IsPlain pass
    → cstr (credential_message ssid pass) ≡ credential_message ssid pass
unfolding cstr
cstr-message ssid pass hs hp = rw (
  cstr-plain ssid (codes "\",\"pass\":\"" ++ (pass ++ codes "\"}")) hs,
  cstr-plain pass (codes "\"}") hp,
)

quoted_value-plain :
    (n : ℕ) (u v : List ℕ)
    → IsPlain u
    → quoted_value n (0x22 ∷ (u ++ (0x22 ∷ v))) ≡ some (take (n - 1) u)
unfolding quoted_value
quoted_value-plain n u v h = ground (arith, span_until-plain u v h)

-- A value that a key's closing quote and the key itself would match is that key's text.
is_prefix-pass :
    (u v : List ℕ)
    → IsPlain u
    → is_prefix (codes "pass\"") (u ++ (0x22 ∷ v)) ≡ true
    → u ≡ codes "pass"
unfolding is_prefix
is_prefix-pass [] v h e = ground arith
is_prefix-pass (a ∷ []) v h e = ground arith
is_prefix-pass (a ∷ b ∷ []) v h e = ground arith
is_prefix-pass (a ∷ b ∷ c ∷ []) v h e = ground arith
is_prefix-pass (a ∷ b ∷ c ∷ d ∷ []) v h e = ground arith
is_prefix-pass (a ∷ b ∷ c ∷ d ∷ f ∷ u) v h e = ground arith

module _ (ssid pass : List ℕ) (ssid_ok : IsPlain ssid) (pass_ok : IsPlain pass) where
  abbrev message : List ℕ
  message = credential_message ssid pass

  abbrev behind : List ℕ
  behind = codes ",\"pass\":\"" ++ (pass ++ codes "\"}")

  find_ssid : strstr message (codes "\"ssid\"") ≡ some 1
  unfolding strstr is_prefix
  find_ssid = refl

  value_ssid : field_value (drop (1 + 6) message) 64 ≡ some (take 63 ssid)
  unfolding field_value isspace
  value_ssid = quoted_value-plain 64 ssid behind ssid_ok

  field_ssid : json_get_string_field message (codes "ssid") 64 ≡ some (take 63 ssid)
  unfolding json_get_string_field
  field_ssid = rw (cstr-message ssid pass ssid_ok pass_ok, find_ssid) value_ssid

  find_pass :
      is_prefix (codes "pass\"") (ssid ++ (0x22 ∷ behind)) ≡ false
      → strstr message (codes "\"pass\"") ≡ some (9 + (length ssid + 2))
  unfolding strstr is_prefix
  find_pass other =
      ground (arith, strstr-plain ssid (0x22 ∷ behind) (codes "pass\"") 2 ssid_ok refl)

  drop_pass : drop (9 + (length ssid + 2) + 6) message ≡ codes ":\"" ++ (pass ++ codes "\"}")
  drop_pass =
      let key = ssid ++ codes "\",\"pass\"" in
      let e : 9 + (length ssid + 2) + 6 ≡ 9 + length key =
        omega (arith, length-append ssid (codes "\",\"pass\"")) in
      let nine : 9 + length key ≡ suc (suc (suc (suc (suc (suc (suc (suc (suc (length key))))))))) =
        omega arith in
      rw (e, nine)
        (ap (λ t. drop (length key) t)
            (sym (append_assoc ssid (codes "\",\"pass\"") (codes ":\"" ++ (pass ++ codes "\"}"))))
          ∙ drop-length_append key (codes ":\"" ++ (pass ++ codes "\"}")))

  value_pass : field_value (codes ":\"" ++ (pass ++ codes "\"}")) 80 ≡ some (take 79 pass)
  unfolding field_value isspace
  value_pass = quoted_value-plain 80 pass (codes "}") pass_ok

  field_pass_other :
      is_prefix (codes "pass\"") (ssid ++ (0x22 ∷ behind)) ≡ false
      → json_get_string_field message (codes "pass") 80 ≡ some (take 79 pass)
  unfolding json_get_string_field
  field_pass_other other =
      rw (cstr-message ssid pass ssid_ok pass_ok, find_pass other, drop_pass) value_pass

-- The network whose name is the key: the name is found in place of the key, and the colon behind it
-- is the right one all the same.
field_pass_same :
    (pass : List ℕ)
    → IsPlain pass
    → json_get_string_field (credential_message (codes "pass") pass) (codes "pass") 80
      ≡ some (take 79 pass)
unfolding json_get_string_field strstr is_prefix field_value
field_pass_same pass h =
    rw (cstr-message (codes "pass") pass (ground arith) h)
      (value_pass (codes "pass") pass (ground arith) h)

module _ (ssid pass : List ℕ) (ssid_ok : IsPlain ssid) (pass_ok : IsPlain pass) where
  field_pass :
      json_get_string_field (credential_message ssid pass) (codes "pass") 80 ≡ some (take 79 pass)
  field_pass =
      elim (Bool-cases
        (is_prefix (codes "pass\"") (ssid ++ (0x22 ∷ behind ssid pass ssid_ok pass_ok)))) [
          | inl same ↦
              rw (is_prefix-pass ssid (behind ssid pass ssid_ok pass_ok) ssid_ok same)
                (field_pass_same pass pass_ok)
          | inr other ↦ field_pass_other ssid pass ssid_ok pass_ok other
        ]

  -- A provisioning message whose values hold neither a quote nor a NUL is read by
  -- parse_wifi_credential as its SSID and its passphrase, cut to the sizes of the buffers.
  pub parse-credential_message :
      parse_wifi_credential (credential_message ssid pass) 64 80 ≡ some (take 63 ssid, take 79 pass)
  unfolding parse_wifi_credential
  parse-credential_message =
      rw (parse_wifi_credential, field_ssid ssid pass ssid_ok pass_ok, field_pass)
