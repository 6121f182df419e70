-- ===== src/Ble/WifiList.antt =====
-- The list of access points that is sent to the app: send_demo_wifi_list of
-- ble_sdk/btgatt-server.c. The lines of the scan come from wpa_cli and are read by sscanf; what
-- that reads of each is data here.
pub mod Sort
pub mod Budget
use rockchip_1106_voice_agen.Prelude.{
  ℕ, zero, suc, ◌+◌, ◌-◌, ◌*◌, ◌/◌, ◌%◌, ◌^◌, ◌≤◌, ◌<◌, min, ◌≡◌, refl, sym, ap, ◌∙◌, ◌≢◌, ◌↔◌, ◌⊎◌,
  inl, inr, Bool, true, false, not, ◌&&◌, ◌||◌, Option, none, some, List, [], ◌∷◌, ◌++◌, map, arith,
  ltb, leb, ◌==◌, if◌then◌else◌, ltb→lt, lt→ltb, leb→le, ==_iff, Bool-cases, Option-cases, length,
  get_elem?, set, get_or, take, drop, replicate, length-append, length-set, length-take,
  length-drop, length-replicate, take-append-drop, take-length_append, drop-length_append,
  get_or-append_left, get_or-append_right, take-all, get_elem?-set_self, get_elem?-set_ne,
}
use rockchip_1106_voice_agen.Prelude.Int.{ℤ, ltb_ℤ}
use rockchip_1106_voice_agen.Text.{codes}
use rockchip_1106_voice_agen.Text.Decimal.{dec_int}

-- struct ap_entry
pub record Ap : Type 0 where
  pub ssid : List ℕ
  pub rssi : ℤ

-- A `\x` in the name: wpa_cli escapes what is not printable.
unfoldable pub has_escape : List ℕ → Bool
has_escape [] = false
has_escape (c ∷ []) = false
has_escape (c ∷ d ∷ cs) = (c == 0x5C && d == b'x') || has_escape (d ∷ cs)

abbrev pub max_aps : ℕ
max_aps = 64

abbrev pub is_named : List ℕ → Bool
is_named [] = false
is_named (_ ∷ _) = true

-- The loop over the lines with `total` entries stored: `none` is a line that sscanf does not read in
-- full. The entries that it still stores.
unfoldable pub collect : ℕ → List (Option Ap) → List Ap
unfolding has_escape
collect total [] = []
collect total (none ∷ lines) = if ltb total max_aps then collect total lines else []
collect total (some ap ∷ lines) =
    let kept = is_named ap.ssid && not (has_escape ap.ssid) in
    let rest = collect (if kept then total + 1 else total) lines in
    if not (ltb total max_aps)
    then []
    else if kept
    then record { ssid = take 127 ap.ssid; rssi = ap.rssi } ∷ rest
    else rest

-- The inner loop of the sort, from the entry `a` at index i over the entries behind it: what stands
-- at i at its end, and behind.
unfoldable pub sweep : Ap → List Ap → Ap × List Ap
sweep a [] = (a, [])
sweep a (b ∷ bs) =
    let swap = ltb_ℤ a.rssi b.rssi in
    let (best, rest) = sweep (if swap then b else a) bs in (best, (if swap then a else b) ∷ rest)

-- The outer loop; on fuel, an entry for each round.
unfoldable pub sort_from : ℕ → List Ap → List Ap
unfolding sweep
sort_from zero aps = aps
sort_from (suc fuel) [] = []
sort_from (suc fuel) (a ∷ as') = let (best, rest) = sweep a as' in best ∷ sort_from fuel rest

unfoldable pub sort_aps : List Ap → List Ap
unfolding sort_from
sort_aps aps = sort_from (length aps) aps

-- The loop that escapes a name into `safe[256]`, with `di` bytes written.
unfoldable pub escape_ssid : ℕ → List ℕ → List ℕ
escape_ssid di [] = []
escape_ssid di (c ∷ cs) =
    let special = c == 0x22 || c == 0x5C in
    let rest = escape_ssid (if special then di + 2 else di + 1) cs in
    if not (ltb (di + 2) 256) then [] else if special then 0x5C ∷ c ∷ rest else c ∷ rest

-- An element of the JSON array; `count` elements stand before it.
unfoldable pub entry : ℕ → Ap → List ℕ
unfolding escape_ssid dec_int
entry count ap =
    (if ltb 0 count then b',' ∷ [] else [])
    ++ (codes "{\"ssid\":\""
        ++ (escape_ssid 0 ap.ssid ++ (codes "\",\"rssi\":" ++ (dec_int ap.rssi ++ (b'}' ∷ [])))))

-- The loop that fills the array, with `json_len` bytes and `count` elements in it: what it adds, and
-- how many elements there are at its end. It stops at the first that does not fit with the bracket.
unfoldable pub fill : ℕ → ℕ → ℕ → List Ap → List ℕ × ℕ
unfolding entry
fill max_json json_len count [] = ([], count)
fill max_json json_len count (ap ∷ aps) =
    let e = entry count ap in
    let (rest, total) = fill max_json (json_len + length e) (count + 1) aps in
    if ltb max_json (json_len + length e + 1) then ([], count) else (e ++ rest, total)

-- What the system answers during a scan: whether the configuration file opens, whether one of the
-- three starts works, whether one of the ten pings does, whether scan_results can be run, its lines.
pub record Scan : Type 0 where
  pub conf_ok : Bool
  pub started : Bool
  pub ready : Bool
  pub results_ok : Bool
  pub lines : List (Option Ap)

-- The text that is sent; `mtu` is what bt_gatt_server_get_mtu returns. In each failing case it is
-- the empty array.
unfoldable pub wifi_list_json : ℕ → Scan → List ℕ
wifi_list_json mtu scan =
    let empty = b'[' ∷ b']' ∷ [] in
    let aps = sort_aps (collect 0 scan.lines) in
    let mtu' = if ltb mtu 23 then 23 else mtu in
    let (body, count) = fill (mtu' - 3 - 9) 1 0 aps in
    if not scan.conf_ok
    then empty
    else if not scan.started
    then empty
    else if not scan.ready
    then empty
    else if not scan.results_ok
    then empty
    else if count == 0
    then empty
    else b'[' ∷ (body ++ (b']' ∷ []))
