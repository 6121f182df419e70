-- ===== src/App.antt =====
-- The application, src/app.c: one session with the server, the loop that reconnects, and the start of
-- the device. What the other parts answer is given; what they are asked is a list of calls.
pub mod Sessions
use rockchip_1106_voice_agen.Prelude.{
  ℕ, zero, suc, ◌+◌, ◌*◌, Bool, true, false, not, ◌&&◌, ◌||◌, Option, none, some, List, [], ◌∷◌,
  ◌++◌, ltb, leb, ◌==◌, if◌then◌else◌, length, replicate,
}

-- What the application asks of the other parts.
pub data AppCall : Type 0 where
  bind_device : AppCall
  wait_prompt : AppCall  -- zh_wait_prompt_done(4000)
  tone_connected : AppCall
  check_bind : AppCall
  face_start : AppCall
  face_stop : AppCall
  uplink_start : Bool → AppCall  -- whether it has started
  ws_connect : Bool → AppCall  -- whether there is a session
  wait_authenticated : AppCall
  tts_begin : AppCall  -- zh_udp_tts_start, which keeps the session in g_tts_ws
  uplink_set_ws : Bool → AppCall  -- true for the session, false for NULL
  face_set_ws : Bool → AppCall
  run_loop : AppCall
  tts_join : AppCall  -- zh_udp_tts_wait(2000)
  tts_end : AppCall  -- zh_udp_tts_stop, which sets flags, but waits for nothing and keeps g_tts_ws
  ws_close : AppCall
  pause : AppCall  -- usleep of ZH_WS_RECONNECT_INTERVAL_MS

-- The answers of the other parts during a session, true for success. A failure of the camera or
-- of the voice is only logged.
pub record Replies : Type 0 where
  pub bound : Bool
  pub checked : Bool
  pub uplink_started : Bool
  pub connected : Bool
  pub authenticated : Bool

-- The sound and camera threads are started once: the calls, and `*audio_started` after them.
unfoldable pub start_audio : Replies → Bool → List AppCall × Bool
start_audio r true = ([], true)
start_audio r false =
    if r.uplink_started
    then (face_start ∷ uplink_start true ∷ [], true)
    else (face_start ∷ uplink_start false ∷ face_stop ∷ [], false)

-- The part of zh_run_session that has a session.
unfoldable pub serve : Replies → List AppCall × Bool
serve r = if not r.authenticated then (wait_authenticated ∷ ws_close ∷ [], false) else (
  wait_authenticated
      ∷ tts_begin
      ∷ uplink_set_ws true
      ∷ face_set_ws true
      ∷ run_loop
      ∷ uplink_set_ws false
      ∷ face_set_ws false
      ∷ tts_join
      ∷ tts_end
      ∷ ws_close
      ∷ [],
  true,
)

-- zh_run_session: the calls, `*audio_started` after it, and whether it returns 0.
pub record SessionRun : Type 0 where
  pub calls : List AppCall
  pub audio_started : Bool
  pub succeeded : Bool

unfoldable pub run_session : Replies → Bool → SessionRun
unfolding start_audio serve
run_session r audio =
    let greet = bind_device ∷ wait_prompt ∷ tone_connected ∷ wait_prompt ∷ check_bind ∷ [] in
    let a = start_audio r audio in
    let s = serve r in
    if not r.bound
    then record { calls = bind_device ∷ []; audio_started = audio; succeeded = false }
    else if not r.checked
    then record { calls = greet; audio_started = audio; succeeded = false }
    else if not r.connected
    then record {
      calls = greet ++ (a.0 ++ (ws_connect false ∷ []));
      audio_started = a.1;
      succeeded = false;
    }
    else record {
      calls = greet ++ (a.0 ++ (ws_connect true ∷ s.0));
      audio_started = a.1;
      succeeded = s.1;
    }

-- zh_wait_prompt_done: how many times 50 ms it sleeps. `active` are the answers of
-- zh_music_player_is_active.
unfoldable pub wait_prompt_done : ℕ → ℕ → List Bool → ℕ
wait_prompt_done timeout waited [] = 0
wait_prompt_done timeout waited (active ∷ more) =
    let rest = wait_prompt_done timeout (waited + 50) more in
    if active && ltb waited timeout then suc rest else 0

-- The loop of zh_app_run over the sessions that `replies` answer, after `retries` of them: the
-- calls, and whether it has returned. `max` is ZH_WS_RECONNECT_MAX.
unfoldable pub app_loop : ℕ → ℕ → Bool → List Replies → List AppCall × Bool
unfolding run_session
app_loop max retries audio [] = ([], false)
app_loop max retries audio (r ∷ rs) =
    let s = run_session r audio in
    let rest = app_loop max (retries + 1) s.audio_started rs in
    if not (max == 0) && ltb max (retries + 1)
    then (s.calls, true)
    else (s.calls ++ (pause ∷ rest.0), rest.1)

-- zh_app_run: `none` if it refuses the configuration.
unfoldable pub app_run : ℕ → List ℕ → List ℕ → List Replies → Option (List AppCall × Bool)
unfolding app_loop
app_run max device_id key replies =
    if length device_id == 0 || length key == 0 then none else some (app_loop max 0 false replies)

-- What the loop at the start of zh_app_start comes to.
pub data BootEvent : Type 0 where
  try_wifi : BootEvent  -- zh_wifi_ensure_connected
  tone_provision : BootEvent
  enter_ble : BootEvent  -- zh_ble_provision_enter
  main_app : BootEvent

-- A round of that loop: the answers of zh_wifi_ensure_connected, which is asked unless the last
-- provisioning failed, and of zh_ble_provision_enter.
pub record Round : Type 0 where
  pub online : Bool
  pub provisioned : Bool

-- The loop of zh_app_start, to the entry of the main application. `force` is force_ble_retry.
unfoldable pub boot_loop : Bool → List Round → List BootEvent
boot_loop force [] = []
boot_loop force (r ∷ rs) =
    let rest = boot_loop (not r.provisioned) rs in
    let asked = if force then [] else try_wifi ∷ [] in
    if not force && r.online
    then try_wifi ∷ main_app ∷ []
    else asked ++ (tone_provision ∷ enter_ble ∷ rest)
