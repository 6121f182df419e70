-- ===== src/Ble/Wpa.antt =====
-- Bringing up the wireless link: get_ipv4_of_iface, get_wpa_state, wifi_link_ready and
-- run_wifi_connect_flow of ble_sdk/btgatt-server.c, and zh_wifi_ensure_connected of
-- src/wifi_bootstrap.c, whose helpers of the same names do the same.
-- What the system answers is data: the interfaces that getifaddrs lists, the lines that wpa_cli
-- prints, the exit status of each command.
pub mod Laws
use rockchip_1106_voice_agen.Prelude.{
  ℕ, zero, suc, ◌+◌, ◌-◌, ◌*◌, ◌/◌, ◌%◌, ◌^◌, ◌≤◌, ◌<◌, min, ◌≡◌, refl, sym, ap, ◌∙◌, ◌≢◌, ◌↔◌, ◌⊎◌,
  inl, inr, Bool, true, false, not, ◌&&◌, ◌||◌, Option, none, some, List, [], ◌∷◌, ◌++◌, map, arith,
  ltb, leb, ◌==◌, if◌then◌else◌, ltb→lt, lt→ltb, leb→le, ==_iff, Bool-cases, Option-cases, length,
  get_elem?, set, get_or, take, drop, replicate, length-append, length-set, length-take,
  length-drop, length-replicate, take-append-drop, take-length_append, drop-length_append,
  get_or-append_left, get_or-append_right, take-all, get_elem?-set_self, get_elem?-set_ne,
}
use rockchip_1106_voice_agen.Text.{is_prefix, str_eq, codes}

-- An entry of getifaddrs: the name, whether the address is AF_INET, and what inet_ntop makes of it.
pub record Iface : Type 0 where
  pub name : List ℕ
  pub inet : Bool
  pub text : Option (List ℕ)

unfoldable pub find_ipv4 : List ℕ → List Iface → Option (List ℕ)
find_ipv4 ifname [] = none
find_ipv4 ifname (a ∷ as') =
    let rest = find_ipv4 ifname as' in
    if not a.inet
    then rest
    else if not (str_eq a.name ifname)
    then rest
    else elim a.text [ none ↦ rest | some ip ↦ some ip ]

-- `none` as the list is a getifaddrs that fails.
unfoldable pub get_ipv4_of_iface : List ℕ → Option (List Iface) → Option (List ℕ)
unfolding find_ipv4 str_eq
get_ipv4_of_iface ifname none = none
get_ipv4_of_iface ifname (some as') = find_ipv4 ifname as'

-- `s[strcspn(s, "\r\n")] = '\0'`
unfoldable pub chomp : List ℕ → List ℕ
chomp [] = []
chomp (c ∷ cs) = if c == 13 || c == 10 then [] else c ∷ chomp cs

-- The loop over the lines of `wpa_cli status`: the state, empty if no line holds it.
unfoldable pub find_state : ℕ → List (List ℕ) → List ℕ
unfolding is_prefix chomp
find_state state_len [] = []
find_state state_len (line ∷ lines) =
    let rest = find_state state_len lines in
    if is_prefix (codes "wpa_state=") line
    then chomp (take (state_len - 1) (drop 10 line))
    else rest

-- `none` as the lines is a popen that fails.
unfoldable pub get_wpa_state : ℕ → Option (List (List ℕ)) → Option (List ℕ)
unfolding find_state
get_wpa_state state_len none = none
get_wpa_state state_len (some lines) =
    if state_len == 0
    then none
    else elim (find_state state_len lines) [ [] ↦ none | c ∷ cs ↦ some (c ∷ cs) ]

-- What the system shows at one moment.
pub record Probe : Type 0 where
  pub ifaces : Option (List Iface)
  pub status : Option (List (List ℕ))

unfoldable pub wifi_link_ready : Probe → Bool
unfolding get_ipv4_of_iface get_wpa_state
wifi_link_ready p = elim (get_ipv4_of_iface (codes "wlan0") p.ifaces) [
  | none ↦ false
  | some ip ↦ elim (get_wpa_state 64 p.status) [
    | none ↦ false
    | some s ↦ str_eq s (codes "COMPLETED")
  ]
]

-- `for (; i < i + n; i++) if (ok(i)) break;`: the index after it.
unfoldable pub first_index : ℕ → ℕ → (ℕ → Bool) → ℕ
first_index zero i ok = i
first_index (suc n) i ok = elim (ok i) [ true ↦ i | false ↦ first_index n (i + 1) ok ]

-- What the system answers during one attempt: whether the configuration file is there (it is opened
-- for writing by the one function, and read by the other), the exit status of each of the three
-- ways to start wpa_supplicant, and what each poll of the link sees.
pub record Attempt : Type 0 where
  pub conf_ok : Bool
  pub start_status : ℕ → ℕ
  pub poll : ℕ → Probe

abbrev pub cmd_count : ℕ
cmd_count = 3

abbrev pub poll_count : ℕ
poll_count = 20

unfoldable pub start_supplicant : Attempt → ℕ
unfolding first_index
start_supplicant a = first_index cmd_count 0 (λ i. a.start_status i == 0)

unfoldable pub wait_link : Attempt → ℕ
unfolding first_index
wait_link a = first_index poll_count 0 (λ i. wifi_link_ready (a.poll i))

-- The status that is sent to the app: 0 connected, 2 the supplicant could not be started, 4 no link.
unfoldable pub run_wifi_connect_flow : Attempt → ℕ
run_wifi_connect_flow a =
    if not a.conf_ok
    then 2
    else if start_supplicant a == cmd_count
    then 2
    else if wait_link a == poll_count
    then 4
    else 0

-- `true` is the return of 0; `before` is what the first look at the link sees.
unfoldable pub ensure_connected : Probe → Attempt → Bool
ensure_connected before a =
    if wifi_link_ready before
    then true
    else if not a.conf_ok
    then false
    else if start_supplicant a == cmd_count
    then false
    else not (wait_link a == poll_count)
