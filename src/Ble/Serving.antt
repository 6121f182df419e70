-- ===== src/Ble/Serving.antt =====
-- The process of ble_sdk/btgatt-server.c: the loop of main over the connections, the main loop of one
-- session, and what ends them. Sockets and the Bluetooth library are answers.
pub mod End
use rockchip_1106_voice_agen.Ble.Server.{Env, Server, handle_wifi_cmd}
use rockchip_1106_voice_agen.Prelude.{ℕ, Bool, true, false, not, ◌||◌, List, [], ◌∷◌, if◌then◌else◌}

-- g_stop_requested, g_provision_done, whether the main loop of the session has quit, and the server
-- with g_wait_disconnect_after_success.
pub record Process : Type 0 where
  pub stop_requested : Bool
  pub provision_done : Bool
  pub has_quit : Bool
  pub server : Server

-- What a session hears: a command of the app, with the answers while it is handled, its
-- disconnection, and SIGINT or SIGTERM.
pub data Heard : Type 0 where
  command : Env → ℕ → List ℕ → Heard
  disconnected : Heard
  signalled : Heard

-- wifi_process_frames up to a command, att_disconnect_cb and signal_cb
unfoldable pub hear : Heard → Process → Process
hear (command env cmd payload) p = record p { server = handle_wifi_cmd env p.server cmd payload }
hear disconnected p = record p {
  provision_done = p.provision_done || p.server.wait_disconnect;
  has_quit = true;
}
hear signalled p = record p { stop_requested = true; has_quit = true }

-- mainloop_run_with_signal: the session hears until its main loop quits.
unfoldable pub run_session : List Heard → Process → Process
unfolding hear
run_session [] p = p
run_session (h ∷ hs) p = if p.has_quit then p else run_session hs (hear h p)

-- server_create, as far as the commands see it: a new server and a new main loop.
unfoldable pub new_session : Process → Process
new_session p = record p {
  has_quit = false;
  server = record p.server { notify_enabled = false; list_phase_done = false };
}

-- A round of the loop of main: no connection, no server for it, or a session.
pub data Round : Type 0 where
  not_accepted : Round
  not_created : Round
  session : List Heard → Round

-- The loop of main, to the end of the rounds or of the process: the process, and whether it has
-- returned. It returns EXIT_SUCCESS in each case.
unfoldable pub serve : List Round → Process → Process × Bool
unfolding run_session new_session
serve [] p = (p, p.stop_requested)
serve (not_accepted ∷ rs) p = let rest = serve rs p in if p.stop_requested then (p, true) else rest
serve (not_created ∷ rs) p = let rest = serve rs p in if p.stop_requested then (p, true) else rest
serve (session hs ∷ rs) p =
    let q = run_session hs (new_session p) in
    let rest = serve rs q in
    if p.stop_requested
    then (p, true)
    else if not q.has_quit
    then (q, false)
    else if q.provision_done
    then (q, true)
    else rest
