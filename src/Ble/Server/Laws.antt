-- ===== src/Ble/Server/Laws.antt =====
-- What the provisioning commands answer (handle_wifi_cmd and the subscription callbacks of
-- ble_sdk/btgatt-server.c).
use rockchip_1106_voice_agen.Prelude.{
  ℕ, ◌+◌, ◌≤◌, ◌<◌, ◌≡◌, refl, ap, ◌∙◌, ◌≢◌, ◌↔◌, true, false, Option, none, some, List, [], ◌∷◌,
  ◌++◌, arith, ◌==◌, if◌then◌else◌, length, take, length-append, take-all,
}
use mathlib.Core.List.{append_assoc, append-nil}
use rockchip_1106_voice_agen.Text.{cstr, codes, IsText, cstr-text}
use rockchip_1106_voice_agen.Text.Decimal.{dec}
use rockchip_1106_voice_agen.Ble.Frame.{packet, notify_packet, write_cb}
use rockchip_1106_voice_agen.Ble.Frame.Stream.{write_cb-packet}
use rockchip_1106_voice_agen.Ble.Json.{parse_wifi_credential}
use rockchip_1106_voice_agen.Ble.Json.RoundTrip.{
  credential_message, IsPlain, parse-credential_message,
}
use rockchip_1106_voice_agen.Ble.Wpa.{Attempt, run_wifi_connect_flow}
use rockchip_1106_voice_agen.Ble.WifiList.{wifi_list_json}
use rockchip_1106_voice_agen.Ble.WifiList.Budget.{wifi_list_json-notified}
use rockchip_1106_voice_agen.Ble.Server.{
  Env, Server, send, status_json, send_status_notify, send_status_notify_retry, send_wifi_list,
  conf_text, write_conf, try_connect, list_first, connect_with, handle_wifi_cmd, application_80,
  ccc_write, ccc_read,
}

dec-digit : (k : ℕ) → k < 10 → dec k ≡ (b'0' + k) ∷ []
unfolding dec
dec-digit k h = ground arith

length-status_json : (k : ℕ) → k < 10 → length (status_json k) ≡ 12
unfolding status_json
length-status_json k h = rw (dec-digit k h)

-- A status of one digit fills 21 bytes, one more than the smallest MTU leaves: at an MTU of 23 or
-- less send_status_notify sends nothing, whatever the state.
pub send_status_notify-lost :
    (env : Env) (k : ℕ) (s : Server) → k < 10 → env.mtu < 24 → send_status_notify env k s ≡ s
unfolding send_status_notify notify_packet
send_status_notify-lost env k s h small = ground (arith, length-status_json k h)

-- A subscribed app, at an MTU that carries every frame of the server.
pub record IsReachable (env : Env) (s : Server) : Type 0 where
  pub subscribed : s.notify_enabled ≡ true
  pub wide : 24 ≤ env.mtu
  pub narrow : env.mtu ≤ 771

abbrev pub status_packet : ℕ → List ℕ
status_packet k = packet 0x1002 (status_json k)

abbrev pub list_packet : Env → List ℕ
list_packet env = packet 0x1001 (wifi_list_json env.mtu env.scan)

send_status_notify-sent :
    (env : Env) (k : ℕ) (s : Server)
    → k < 10
    → IsReachable env s
    → send_status_notify env k s ≡ record s { sent = s.sent ++ (status_packet k ∷ []) }
unfolding send_status_notify notify_packet
send_status_notify-sent env k s h r = ground (arith, length-status_json k h)

send_wifi_list-sent :
    (env : Env) (s : Server)
    → IsReachable env s
    → send_wifi_list env s ≡ record s { sent = s.sent ++ (list_packet env ∷ []) }
unfolding send_wifi_list
send_wifi_list-sent env s r = ground (arith, wifi_list_json-notified env.mtu env.scan r.narrow)

abbrev pub pushed : Server → List (List ℕ) → Server
pushed s pkts = record s { sent = s.sent ++ pkts }

pushed-pushed : (s : Server) (a b : List (List ℕ)) → pushed (pushed s a) b ≡ pushed s (a ++ b)
pushed-pushed s a b = ap (λ t. record s { sent = t }) (append_assoc s.sent a b)

-- The statuses that end an attempt: the success three times.
abbrev pub final_statuses : ℕ → List (List ℕ)
final_statuses r =
    if r == 0
    then status_packet 0 ∷ status_packet 0 ∷ status_packet 0 ∷ []
    else status_packet r ∷ []

-- The list goes first if the app has not had it.
abbrev pub owed_list : Env → Server → List (List ℕ)
owed_list env s = if s.list_phase_done then [] else list_packet env ∷ []

-- The state that follows a command with credentials.
abbrev pub connected : Env → List ℕ → List ℕ → Server → Server
connected env ssid pass s =
    let result = run_wifi_connect_flow env.attempt in
    record {
      notify_enabled = s.notify_enabled;
      list_phase_done = true;
      wait_disconnect = if result == 0 then true else s.wait_disconnect;
      sent = s.sent ++ (owed_list env s ++ (status_packet 1 ∷ final_statuses result));
      conf = if env.attempt.conf_ok then some (conf_text ssid pass) else s.conf;
    }

result-lt : (a : Attempt) → run_wifi_connect_flow a < 10
unfolding run_wifi_connect_flow
result-lt a = ground arith

retry-sent :
    (env : Env) (s : Server)
    → IsReachable env s
    → send_status_notify_retry env 0 3 s
      ≡ pushed s (status_packet 0 ∷ status_packet 0 ∷ status_packet 0 ∷ [])
unfolding send_status_notify_retry
retry-sent env s r =
    let p = status_packet 0 in
    rw
      (
        send_status_notify-sent env 0 s (omega arith) r,
        send_status_notify-sent env 0 (pushed s (p ∷ [])) (omega arith)
            (record { subscribed = r.subscribed; wide = r.wide; narrow = r.narrow }),
        pushed-pushed s (p ∷ []) (p ∷ []),
        send_status_notify-sent env 0 (pushed s (p ∷ p ∷ [])) (omega arith)
            (record { subscribed = r.subscribed; wide = r.wide; narrow = r.narrow }),
      )
      (pushed-pushed s (p ∷ p ∷ []) (p ∷ []))

try_connect-lem :
    (env : Env) (ssid pass : List ℕ) (s : Server)
    → IsReachable env s
    → try_connect env ssid pass s ≡ record s {
      wait_disconnect = if run_wifi_connect_flow env.attempt == 0 then true else s.wait_disconnect;
      sent = s.sent ++ final_statuses (run_wifi_connect_flow env.attempt);
      conf = if env.attempt.conf_ok then some (conf_text ssid pass) else s.conf;
    }
unfolding try_connect write_conf
try_connect-lem env ssid pass s r =
    let ok : IsReachable env (record s { conf = some (conf_text ssid pass) }) = record {
      subscribed = r.subscribed;
      wide = r.wide;
      narrow = r.narrow;
    } in
    ground (
      arith,
      result-lt env.attempt,
      retry-sent env s r,
      retry-sent env (record s { conf = some (conf_text ssid pass) }) ok,
      send_status_notify-sent env (run_wifi_connect_flow env.attempt) s,
      send_status_notify-sent env (run_wifi_connect_flow env.attempt)
          (record s { conf = some (conf_text ssid pass) }),
    )

list_first-lem :
    (env : Env) (s : Server)
    → IsReachable env s
    → list_first env s ≡ record s { list_phase_done = true; sent = s.sent ++ owed_list env s }
unfolding list_first
list_first-lem env s r = ground (arith, send_wifi_list-sent env s r, append-nil s.sent)

-- A command with credentials is answered, in this order, by the list if it is owed, the status 1 and
-- the result of the attempt; the file holds the escaped credentials if it could be opened, and the
-- server waits for the app to disconnect exactly if the link came up (or it was waiting before).
pub connect_with-lem :
    (env : Env) (ssid pass : List ℕ) (s : Server)
    → IsReachable env s
    → connect_with env ssid pass s ≡ connected env ssid pass s
unfolding connect_with
connect_with-lem env ssid pass s r =
    let one = status_packet 1 ∷ [] in
    let last = final_statuses (run_wifi_connect_flow env.attempt) in
    let owed = owed_list env s in
    rw (
      list_first-lem env s r,
      send_status_notify-sent env 1 (record s { list_phase_done = true; sent = s.sent ++ owed })
          (omega arith) (record { subscribed = r.subscribed; wide = r.wide; narrow = r.narrow }),
      try_connect-lem env ssid pass
          (record s { list_phase_done = true; sent = (s.sent ++ owed) ++ one })
          (record { subscribed = r.subscribed; wide = r.wide; narrow = r.narrow }),
      append_assoc (s.sent ++ owed) one last,
      append_assoc s.sent owed (one ++ last),
    )

IsPlain-IsText : (cs : List ℕ) → IsPlain cs → IsText cs
IsPlain-IsText [] h = tt
IsPlain-IsText (c ∷ cs) h = (h.1, IsPlain-IsText cs h.2)

module _ (env : Env) (s : Server) (ssid pass : List ℕ) (reach : IsReachable env s)
    (ssid_ok : IsPlain ssid) (pass_ok : IsPlain pass) (ssid_fits : length ssid ≤ 63)
    (pass_fits : length pass ≤ 79) where
  length-credential_message : length (credential_message ssid pass) ≤ 163
  length-credential_message = omega (
    arith,
    length-append ssid (codes "\",\"pass\":\"" ++ (pass ++ codes "\"}")),
    length-append pass (codes "\"}"),
  )

  handle-credentials :
      handle_wifi_cmd env s 0x1001 (credential_message ssid pass) ≡ connected env ssid pass s
  unfolding handle_wifi_cmd
  handle-credentials =
      rw
        (
          take-all 511 (credential_message ssid pass) (omega (arith, length-credential_message)),
          parse-credential_message ssid pass ssid_ok pass_ok,
          take-all 63 ssid ssid_fits,
          take-all 79 pass pass_fits,
          cstr-text ssid (IsPlain-IsText ssid ssid_ok),
          cstr-text pass (IsPlain-IsText pass pass_ok),
        )
        (connect_with-lem env ssid pass s reach)

  -- The whole way of a provisioning message to a subscribed server at an MTU from 24 to 771: the
  -- bytes of its packet, written in one value into the empty buffer, are taken apart, checked,
  -- parsed and acted on as `connected` says, and nothing is left in the buffer. The SSID and the
  -- passphrase hold neither a quote nor a NUL and fit their buffers.
  pub write_cb-provisions :
      write_cb (handle_wifi_cmd env) ([], s) 0 (packet 0x1001 (credential_message ssid pass))
      ≡ some ([], connected env ssid pass s)
  write_cb-provisions =
      write_cb-packet (handle_wifi_cmd env) s 0x1001 (credential_message ssid pass) (omega arith)
        (omega (arith, length-credential_message))
      ∙ ap (λ t. some ([], t)) handle-credentials

send-wait :
    (env : Env) (cmd : ℕ) (bytes : List ℕ) (s : Server)
    → (send env cmd bytes s).wait_disconnect ≡ s.wait_disconnect
unfolding send
send-wait env cmd bytes s = ground arith

status-wait :
    (env : Env) (k : ℕ) (s : Server)
    → (send_status_notify env k s).wait_disconnect ≡ s.wait_disconnect
unfolding send_status_notify
status-wait env k s = send-wait env 0x1002 (status_json k) s

list_first-wait : (env : Env) (s : Server) → (list_first env s).wait_disconnect ≡ s.wait_disconnect
unfolding list_first send_wifi_list
list_first-wait env s = ground (arith, send-wait env 0x1001 (wifi_list_json env.mtu env.scan) s)

try_connect-wait :
    (env : Env) (ssid pass : List ℕ) (s : Server)
    → (try_connect env ssid pass s).wait_disconnect
      ≡ (if run_wifi_connect_flow env.attempt == 0 then true else s.wait_disconnect)
unfolding try_connect write_conf
try_connect-wait env ssid pass s = ground (
  arith,
  status-wait env (run_wifi_connect_flow env.attempt) s,
  status-wait env (run_wifi_connect_flow env.attempt)
      (record s { conf = some (conf_text ssid pass) }),
)

-- The flag after any command.
pub handle-wait :
    (env : Env) (s : Server) (cmd : ℕ) (payload : List ℕ)
    → (handle_wifi_cmd env s cmd payload).wait_disconnect ≡ (
        if cmd == 0x1001
        then elim (parse_wifi_credential (take 511 payload) 64 80) [
          | none ↦ s.wait_disconnect
          | some c ↦ if run_wifi_connect_flow env.attempt == 0 then true else s.wait_disconnect
        ]
        else s.wait_disconnect)
unfolding handle_wifi_cmd connect_with send_wifi_list
handle-wait env s cmd payload = go (parse_wifi_credential (take 511 payload) 64 80) refl
  where
    go :
        (o : Option (List ℕ × List ℕ))
        → parse_wifi_credential (take 511 payload) 64 80 ≡ o
        → (handle_wifi_cmd env s cmd payload).wait_disconnect ≡ (
            if cmd == 0x1001
            then elim o [
              | none ↦ s.wait_disconnect
              | some c ↦ if run_wifi_connect_flow env.attempt == 0 then true else s.wait_disconnect
            ]
            else s.wait_disconnect)
    go none e = ground (
      arith,
      status-wait env 2 s,
      send-wait env 0x1001 (wifi_list_json env.mtu env.scan) (record s { list_phase_done = true }),
    )
    go (some (ssid, pass)) e = ground (
      arith,
      status-wait env 2 s,
      send-wait env 0x1001 (wifi_list_json env.mtu env.scan) (record s { list_phase_done = true }),
      try_connect-wait env (cstr ssid) (cstr pass) (send_status_notify env 1 (list_first env s)),
      status-wait env 1 (list_first env s),
      list_first-wait env s,
    )

-- The server says that it waits for the app to disconnect only after a link came up: a command sets
-- the flag exactly if it is 0x1001, its message is read and the attempt succeeds.
pub handle_wifi_cmd-wait_iff :
    (env : Env) (s : Server) (cmd : ℕ) (payload : List ℕ)
    → s.wait_disconnect ≡ false
    → ((handle_wifi_cmd env s cmd payload).wait_disconnect ≡ true) ↔ (
        (cmd ≡ 0x1001)
        × (parse_wifi_credential (take 511 payload) 64 80 ≢ none)
        × (run_wifi_connect_flow env.attempt ≡ 0))
handle_wifi_cmd-wait_iff env s cmd payload idle =
    rw (handle-wait env s cmd payload) (ground arith, ground arith)

-- A client that writes back what it reads from the subscription descriptor of a subscribed server is
-- answered with an error: the descriptor reads 2 where only 0 and 1 are accepted.
pub ccc_write-ccc_read :
    (env : Env) (s : Server)
    → s.notify_enabled ≡ true
    → (ccc_write env s 0 (ccc_read s)).1 ≡ application_80
unfolding ccc_write ccc_read
ccc_write-ccc_read env s h = ground arith
