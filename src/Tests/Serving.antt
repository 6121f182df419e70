-- ===== src/Tests/Serving.antt =====
-- A run of the provisioning process (ble_sdk/btgatt-server.c).
use rockchip_1106_voice_agen.Text.{codes, str_eq}
use rockchip_1106_voice_agen.Ble.Json.{parse_wifi_credential}
use rockchip_1106_voice_agen.Ble.Json.RoundTrip.{credential_message, parse-credential_message}
use rockchip_1106_voice_agen.Ble.Wpa.{
  Probe, find_ipv4, get_ipv4_of_iface, chomp, find_state, get_wpa_state, wifi_link_ready,
  first_index, start_supplicant, wait_link, run_wifi_connect_flow,
}
use rockchip_1106_voice_agen.Ble.Server.{Env}
use rockchip_1106_voice_agen.Ble.Serving.{Process, signalled, Round, not_accepted, session, serve}
use rockchip_1106_voice_agen.Ble.Serving.End.{Connects, provisioning, serve-provisions}
use rockchip_1106_voice_agen.Prelude.{
  ℕ, ◌≡◌, refl, sym, ◌∙◌, take, true, false, none, some, List, [], ◌∷◌, arith,
}

abbrev online : Probe
online = record {
  ifaces = some (record { name = codes "wlan0"; inet = true; text = some (codes "10.0.0.2") } ∷ []);
  status = some (codes "wpa_state=COMPLETED\n" ∷ []);
}

abbrev env : Env
env = record {
  mtu = 100;
  scan = record { conf_ok = true; started = true; ready = true; results_ok = true; lines = [] };
  attempt = record { conf_ok = true; start_status = λ i. 0; poll = λ i. online };
}

abbrev process : Process
process = record {
  stop_requested = false;
  provision_done = false;
  has_quit = false;
  server = record {
    notify_enabled = false;
    list_phase_done = false;
    wait_disconnect = false;
    sent = [];
    conf = none;
  };
}

abbrev payload : List ℕ
payload = credential_message (0x61 ∷ []) (0x62 ∷ [])

link_up : run_wifi_connect_flow env.attempt ≡ 0
unfolding run_wifi_connect_flow start_supplicant wait_link first_index wifi_link_ready
    get_ipv4_of_iface find_ipv4 get_wpa_state find_state chomp str_eq
link_up = refl

is_read : parse_wifi_credential (take 511 payload) 64 80 ≡ some (0x61 ∷ [], 0x62 ∷ [])
is_read =
    parse-credential_message (0x61 ∷ []) (0x62 ∷ []) ((λ e. omega arith), (λ e. omega arith), tt)
      ((λ e. omega arith), (λ e. omega arith), tt)

connects : Connects env payload
connects = ((λ e. let r = sym is_read ∙ e in cc), link_up)

abbrev heard : List Round
heard = not_accepted ∷ session (signalled ∷ []) ∷ []

serve-provisions_example :
    let r =
      serve (session (provisioning ((env, 0x1002, []) ∷ []) env payload [] []) ∷ heard) process in
    (r.1 ≡ true) × (r.0.provision_done ≡ true)
serve-provisions_example =
    serve-provisions ((env, 0x1002, []) ∷ []) [] env payload [] heard process connects refl
