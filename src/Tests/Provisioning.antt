-- ===== src/Tests/Provisioning.antt =====
-- Runs of the provisioning over Bluetooth (ble_sdk/btgatt-server.c, src/wifi_bootstrap.c).
use mathlib.Core.List.{Perm}
use rockchip_1106_voice_agen.Prelude.Int.{negsuc}
use rockchip_1106_voice_agen.Text.{codes}
use rockchip_1106_voice_agen.Ble.Frame.{packet, notify_packet, write_cb}
use rockchip_1106_voice_agen.Ble.Json.{parse_wifi_credential}
use rockchip_1106_voice_agen.Ble.Json.RoundTrip.{credential_message, parse-credential_message}
use rockchip_1106_voice_agen.Ble.Wpa.{Probe, Attempt, run_wifi_connect_flow}
use rockchip_1106_voice_agen.Ble.Wpa.Laws.{Started, Linked, run_wifi_connect_flow-ok_iff}
use rockchip_1106_voice_agen.Ble.WifiList.{Ap, Scan, wifi_list_json, sort_aps}
use rockchip_1106_voice_agen.Ble.WifiList.Sort.{IsDescending, sort_aps-sorts}
use rockchip_1106_voice_agen.Ble.WifiList.Budget.{wifi_list_json-notified}
use rockchip_1106_voice_agen.Ble.Server.{Env, Server, handle_wifi_cmd}
use rockchip_1106_voice_agen.Ble.Server.Laws.{IsReachable, connected, write_cb-provisions}
use rockchip_1106_voice_agen.Prelude.{◌≡◌, refl, ◌↔◌, true, false, none, some, [], ◌∷◌, arith}

abbrev home : Ap
home = record { ssid = codes "home"; rssi = negsuc 39 }

abbrev cafe : Ap
cafe = record { ssid = codes "cafe"; rssi = negsuc 69 }

abbrev scan : Scan
scan = record {
  conf_ok = true;
  started = true;
  ready = true;
  results_ok = true;
  lines = some home ∷ none ∷ some cafe ∷ [];
}

abbrev offline : Probe
offline = record { ifaces = none; status = none }

abbrev attempt : Attempt
attempt = record { conf_ok = true; start_status = λ i. 0; poll = λ i. offline }

abbrev env : Env
env = record { mtu = 100; scan = scan; attempt = attempt }

abbrev server : Server
server = record {
  notify_enabled = true;
  list_phase_done = false;
  wait_disconnect = false;
  sent = [];
  conf = none;
}

parse-credential_message_example :
    parse_wifi_credential (credential_message (0x61 ∷ []) (0x62 ∷ [])) 64 80
    ≡ some (0x61 ∷ [], 0x62 ∷ [])
parse-credential_message_example =
    parse-credential_message (0x61 ∷ []) (0x62 ∷ []) ((λ e. omega arith), (λ e. omega arith), tt)
      ((λ e. omega arith), (λ e. omega arith), tt)

run_wifi_connect_flow-ok_iff_example :
    (run_wifi_connect_flow attempt ≡ 0)
    ↔ ((attempt.conf_ok ≡ true) × Started attempt × Linked attempt)
run_wifi_connect_flow-ok_iff_example = run_wifi_connect_flow-ok_iff attempt

sort_aps-sorts_example :
    IsDescending (sort_aps (cafe ∷ home ∷ []))
    × Perm (sort_aps (cafe ∷ home ∷ [])) (cafe ∷ home ∷ [])
sort_aps-sorts_example = sort_aps-sorts (cafe ∷ home ∷ [])

wifi_list_json-notified_example :
    notify_packet true 100 0x1001 (wifi_list_json 100 scan)
    ≡ some (packet 0x1001 (wifi_list_json 100 scan))
wifi_list_json-notified_example = wifi_list_json-notified 100 scan (omega arith)

reachable : IsReachable env server
reachable = record { subscribed = refl; wide = omega arith; narrow = omega arith }

write_cb-provisions_example :
    write_cb
      (handle_wifi_cmd env)
      ([], server)
      0
      (packet 0x1001 (credential_message (0x61 ∷ []) (0x62 ∷ [])))
    ≡ some ([], connected env (0x61 ∷ []) (0x62 ∷ []) server)
write_cb-provisions_example =
    write_cb-provisions env server (0x61 ∷ []) (0x62 ∷ []) reachable
      ((λ e. omega arith), (λ e. omega arith), tt) ((λ e. omega arith), (λ e. omega arith), tt)
      (omega arith) (omega arith)
