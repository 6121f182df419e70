-- ===== src/Ble/Server.antt =====
-- The provisioning commands: handle_wifi_cmd, send_status_notify, write_wpa_supplicant_conf and
-- the subscription callbacks of ble_sdk/btgatt-server.c.
pub mod Laws
use rockchip_1106_voice_agen.Prelude.{
  ℕ, zero, suc, ◌+◌, ◌-◌, ◌*◌, ◌/◌, ◌%◌, ◌^◌, ◌≤◌, ◌<◌, min, ◌≡◌, refl, sym, ap, ◌∙◌, ◌≢◌, ◌↔◌, ◌⊎◌,
  inl, inr, Bool, true, false, not, ◌&&◌, ◌||◌, Option, none, some, List, [], ◌∷◌, ◌++◌, map, arith,
  ltb, leb, ◌==◌, if◌then◌else◌, ltb→lt, lt→ltb, leb→le, ==_iff, Bool-cases, Option-cases, length,
  get_elem?, set, get_or, take, drop, replicate, length-append, length-set, length-take,
  length-drop, length-replicate, take-append-drop, take-length_append, drop-length_append,
  get_or-append_left, get_or-append_right, take-all, get_elem?-set_self, get_elem?-set_ne,
}
use rockchip_1106_voice_agen.Text.{cstr, codes}
use rockchip_1106_voice_agen.Text.Decimal.{dec}
use rockchip_1106_voice_agen.Ble.Frame.{notify_packet}
use rockchip_1106_voice_agen.Ble.Json.{parse_wifi_credential, escape_wpa_str}
use rockchip_1106_voice_agen.Ble.Wpa.{Attempt, run_wifi_connect_flow}
use rockchip_1106_voice_agen.Ble.WifiList.{Scan, wifi_list_json}

-- What the radio and the system answer while one command is handled: the negotiated MTU, the scan,
-- the attempt to connect.
pub record Env : Type 0 where
  pub mtu : ℕ
  pub scan : Scan
  pub attempt : Attempt

-- The fields of `struct server` and the globals that the commands change. `sent` holds the
-- notifications that went to the stack, oldest first, and `conf` the text that
-- /etc/wpa_supplicant.conf was last written with.
pub record Server : Type 0 where
  pub notify_enabled : Bool
  pub list_phase_done : Bool
  pub wait_disconnect : Bool
  pub sent : List (List ℕ)
  pub conf : Option (List ℕ)

-- send_wifi_notify_packet, for its effect.
unfoldable pub send : Env → ℕ → List ℕ → Server → Server
unfolding notify_packet
send env cmd bytes s = elim (notify_packet s.notify_enabled env.mtu cmd bytes) [
  | none ↦ s
  | some pkt ↦ record s { sent = s.sent ++ (pkt ∷ []) }
]

unfoldable pub status_json : ℕ → List ℕ
unfolding dec
status_json status = codes "{\"status\":" ++ (dec status ++ codes "}")

unfoldable pub send_status_notify : Env → ℕ → Server → Server
unfolding send status_json
send_status_notify env status s = send env 0x1002 (status_json status) s

-- send_status_notify_retry; the waits between the rounds change nothing.
unfoldable pub send_status_notify_retry : Env → ℕ → ℕ → Server → Server
unfolding send_status_notify
send_status_notify_retry env status zero s = s
send_status_notify_retry env status (suc times) s =
    send_status_notify_retry env status times (send_status_notify env status s)

unfoldable pub send_wifi_list : Env → Server → Server
unfolding send wifi_list_json
send_wifi_list env s = send env 0x1001 (wifi_list_json env.mtu env.scan) s

-- The text that write_wpa_supplicant_conf writes.
unfoldable pub conf_text : List ℕ → List ℕ → List ℕ
unfolding escape_wpa_str
conf_text ssid pass =
    codes "ctrl_interface=/var/run/wpa_supplicant\nap_scan=1\nupdate_config=1\nnetwork={\n\tssid=\""
    ++ (escape_wpa_str ssid 128
        ++ (codes "\"\n\tpsk=\""
            ++ (escape_wpa_str pass 160 ++ codes "\"\n\tkey_mgmt=WPA-PSK\n}\n")))

-- The file is written if it can be opened.
unfoldable pub write_conf : Env → List ℕ → List ℕ → Server → Server
unfolding conf_text
write_conf env ssid pass s =
    if env.attempt.conf_ok then record s { conf = some (conf_text ssid pass) } else s

-- The attempt to connect and its status, three times if it worked.
unfoldable pub try_connect : Env → List ℕ → List ℕ → Server → Server
try_connect env ssid pass s =
    let tried = write_conf env ssid pass s in
    let result = run_wifi_connect_flow env.attempt in
    if result == 0
    then record (send_status_notify_retry env 0 3 tried) { wait_disconnect = true }
    else send_status_notify env result tried

-- The list, if the app has not had it.
unfoldable pub list_first : Env → Server → Server
list_first env s =
    if s.list_phase_done then s else record (send_wifi_list env s) { list_phase_done = true }

-- The credentials are read: the list if it is owed, then status 1 and the attempt.
unfoldable pub connect_with : Env → List ℕ → List ℕ → Server → Server
connect_with env ssid pass s =
    try_connect env ssid pass (send_status_notify env 1 (list_first env s))

-- `payload` is `payload[0..payload_len)`.
unfoldable pub handle_wifi_cmd : Env → Server → ℕ → List ℕ → Server
handle_wifi_cmd env s cmd payload =
    if cmd == 0x1002
    then send_wifi_list env (record s { list_phase_done = true })
    else if not (cmd == 0x1001)
    then send_status_notify env 2 s
    else elim (parse_wifi_credential (take 511 payload) 64 80) [
      | none ↦ send_status_notify env 2 s
      | some (ssid, pass) ↦ connect_with env (cstr ssid) (cstr pass) s
    ]

-- The errors that the attribute callbacks answer with.
pub data AttError : Type 0 where
  no_error invalid_length invalid_offset insufficient_resources application_80 : AttError

-- wifi_chngd_ccc_write_cb; `value` is `value[0..len)`, empty for no value.
unfoldable pub ccc_write : Env → Server → ℕ → List ℕ → Server × AttError
ccc_write env s offset value =
    let low = get_or value 0 0 in
    let set' =
      if low == 0
      then record s { notify_enabled = false; list_phase_done = false }
      else if low == 1
      then record s { notify_enabled = true }
      else s in
    let error = if low == 0 || low == 1 then no_error else application_80 in
    if not (length value == 2)
    then (s, invalid_length)
    else if not (offset == 0)
    then (s, invalid_offset)
    else if set'.notify_enabled
    then (send_wifi_list env (record set' { list_phase_done = true }), error)
    else (set', error)

-- wifi_chngd_ccc_read_cb
unfoldable pub ccc_read : Server → List ℕ
ccc_read s = (if s.notify_enabled then 0x02 else 0x00) ∷ 0x00 ∷ []
