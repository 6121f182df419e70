-- ===== src/Session/Core.antt =====
-- The life cycle of the closed core in src/bithion_core_compat.c: how `g_core` is made, configured and
-- handed out, and the forwards to it. The core itself is reached through its answers; a zh_config_t is
-- a value of any type.
pub mod Forwards
pub mod Cycle
use rockchip_1106_voice_agen.Prelude.Int.{ℤ, pos, negsuc}
use rockchip_1106_voice_agen.Text.{codes}
use rockchip_1106_voice_agen.Session.{
  Session, session_reset, send_str, authenticated_now, close, begin_segment,
}
use rockchip_1106_voice_agen.Prelude.{
  ℕ, Bool, true, false, not, ◌&&◌, ◌||◌, Option, none, some, List, [], ◌∷◌, ◌++◌, ◌==◌,
  if◌then◌else◌, length,
}

-- A call of the core library, with its answer where the bridge looks at it.
pub data CoreCall (C : Type 0) : Type 0 where
  core_create : C → Bool → CoreCall C
  core_reset : CoreCall C
  core_apply_config : C → Bool → CoreCall C
  core_set_host_hooks : Bool → CoreCall C
  core_copy_config : CoreCall C
  core_bind_device : Bool → CoreCall C
  core_check_bind : Bool → CoreCall C
  core_set_ws_url : List ℕ → CoreCall C
  core_set_udp_ip : CoreCall C
  core_set_udp_port : CoreCall C
  core_connect_and_auth : ℤ → CoreCall C
  core_ws_send : List ℕ → CoreCall C
  core_run_loop : CoreCall C
  core_stop : CoreCall C
  core_tts_start : CoreCall C
  core_tts_stop : CoreCall C
  core_tts_wait : ℤ → CoreCall C
  core_tts_read_opus : ℤ → CoreCall C
  core_tts_interrupt : CoreCall C
  core_tts_has_pending_data : CoreCall C
  core_tts_is_transport_running : CoreCall C
  core_uplink_start : CoreCall C
  core_uplink_stop : CoreCall C
  core_uplink_begin_segment : CoreCall C
  core_uplink_send_opus : List ℕ → CoreCall C
  core_uplink_reset : CoreCall C
  core_uplink_flush : CoreCall C

-- g_core, which is NULL or not, g_core_cfg and g_ws_session.
pub record Bridge (C : Type 0) : Type 0 where
  pub has_core : Bool
  pub core_cfg : C
  pub session : Session

-- What an operation leaves: whether it returns 0 or not NULL, and its calls in order.
pub record Ran (C : Type 0) : Type 0 where
  pub bridge : Bridge C
  pub succeeded : Bool
  pub calls : List (CoreCall C)

-- The answers of the core while one operation runs.
pub record CoreReplies (C : Type 0) : Type 0 where
  pub created : Bool
  pub applied : Bool
  pub hooked : Bool
  pub bound : Bool
  pub checked : Bool
  pub copied : Option C
  pub connected : Bool
  pub sent : Bool
  pub done : Bool  -- the answer to a forward

module _ {C : Type 0} where
  -- zh_core_sync_config
  unfoldable pub sync_config : CoreReplies C → Bridge C → Ran C
  sync_config r b =
      if not b.has_core
      then record { bridge = b; succeeded = false; calls = [] }
      else elim r.copied [
        | none ↦ record { bridge = b; succeeded = false; calls = core_copy_config ∷ [] }
        | some cfg ↦ record {
          bridge = record b { core_cfg = cfg };
          succeeded = true;
          calls = core_copy_config ∷ [];
        }
      ]

  -- The end of zh_core_prepare, behind these calls.
  unfoldable pub hook_up : C → CoreReplies C → List (CoreCall C) → Bridge C → Ran C
  hook_up cfg r before b = record {
    bridge = if r.hooked then record b { core_cfg = cfg } else b;
    succeeded = r.hooked;
    calls = before ++ (core_set_host_hooks r.hooked ∷ []);
  }

  -- zh_core_prepare of a configuration that is not NULL
  unfoldable pub prepare : C → CoreReplies C → Bridge C → Ran C
  unfolding hook_up
  prepare cfg r b =
      if not b.has_core
      then (if r.created
          then hook_up cfg r (core_create cfg true ∷ []) (record b { has_core = true })
          else record { bridge = b; succeeded = false; calls = core_create cfg false ∷ [] })
      else if r.applied
      then hook_up cfg r (core_reset ∷ core_apply_config cfg true ∷ []) b
      else record {
        bridge = b;
        succeeded = false;
        calls = core_reset ∷ core_apply_config cfg false ∷ [];
      }

  -- A second operation behind a first one that has succeeded.
  unfoldable pub then_run : Ran C → (Bridge C → Ran C) → Ran C
  then_run first next =
      if first.succeeded
      then (let more = next first.bridge in record more { calls = first.calls ++ more.calls })
      else first

  -- One call of the core, on which the success depends.
  unfoldable pub ask : CoreCall C → Bool → Bridge C → Ran C
  ask call answer b = record { bridge = b; succeeded = answer; calls = call ∷ [] }

  -- zh_core_apply_local_route_override, for ZH_FORCE_LOCAL_ROUTE_CONFIG and the ZH_WS_URL
  unfoldable pub route_override : Bool → List ℕ → Bridge C → Ran C
  route_override force url b = record {
    bridge = b;
    succeeded = true;
    calls =
        if b.has_core && force
        then core_set_ws_url url ∷ core_set_udp_ip ∷ core_set_udp_port ∷ []
        else [];
  }

  -- zh_http_bind_device. `none` is a NULL configuration.
  unfoldable pub bind_device : Option C → CoreReplies C → Bridge C → Ran C
  unfolding prepare then_run ask sync_config
  bind_device none r b = record { bridge = b; succeeded = false; calls = [] }
  bind_device (some cfg) r b =
      then_run (then_run (prepare cfg r b) (ask (core_bind_device r.bound) r.bound)) (sync_config r)

  -- A core is there, or is made.
  unfoldable pub ensure_core : Option C → CoreReplies C → Bridge C → Ran C
  unfolding prepare
  ensure_core cfg r b =
      if b.has_core then record { bridge = b; succeeded = true; calls = [] } else elim cfg [
        | none ↦ record { bridge = b; succeeded = false; calls = [] }
        | some c ↦ prepare c r b
      ]

  -- zh_http_check_bind
  unfoldable pub check_bind : Bool → List ℕ → Option C → CoreReplies C → Bridge C → Ran C
  unfolding ensure_core then_run ask route_override sync_config
  check_bind force url cfg r b =
      then_run
        (then_run (then_run (ensure_core cfg r b) (ask (core_check_bind r.checked) r.checked))
          (route_override force url))
        (sync_config r)

  -- The end of zh_ws_connect. `url` is empty for NULL.
  unfoldable pub open_session : List ℕ → Bridge C → Ran C
  unfolding session_reset
  open_session url b = record {
    bridge = record b { session = session_reset b.session };
    succeeded = true;
    calls = if length url == 0 then [] else core_set_ws_url url ∷ [];
  }

  -- zh_ws_connect
  unfoldable pub ws_connect : Option C → List ℕ → CoreReplies C → Bridge C → Ran C
  unfolding ensure_core then_run open_session
  ws_connect cfg url r b = then_run (ensure_core cfg r b) (open_session url)

  -- zh_core_valid_session: the session is g_ws_session, as `ours` says, and there is a core.
  unfoldable pub valid_session : Bool → Bridge C → Bool
  valid_session ours b = ours && b.has_core

  -- zh_ws_wait_authenticated
  unfoldable pub wait_authenticated : Bool → ℤ → CoreReplies C → Bridge C → Ran C
  unfolding valid_session authenticated_now
  wait_authenticated ours timeout r b =
      let device = codes "{\"type\":\"Device State\",\"devices\":{\"camera\":\"on\"}}" in
      if not (valid_session ours b)
      then record { bridge = b; succeeded = false; calls = [] }
      else if not r.connected
      then record { bridge = b; succeeded = false; calls = core_connect_and_auth timeout ∷ [] }
      else record {
        bridge = record b { session = (authenticated_now r.sent b.session).0 };
        succeeded = true;
        calls = core_connect_and_auth timeout ∷ core_ws_send device ∷ [];
      }

  -- zh_ws_run_loop
  unfoldable pub run_loop : Bool → Bridge C → Ran C
  unfolding valid_session
  run_loop ours b = record {
    bridge = b;
    succeeded = true;
    calls = if valid_session ours b then core_run_loop ∷ [] else [];
  }

  -- zh_ws_close
  unfoldable pub ws_close : Bool → Bridge C → Ran C
  unfolding valid_session close
  ws_close ours b =
      if valid_session ours b
      then record {
        bridge = record b { session = close b.session };
        succeeded = true;
        calls = core_stop ∷ [];
      }
      else record { bridge = b; succeeded = true; calls = [] }

  -- zh_ws_get_device_id, with the device_id of a configuration: the empty string where it fails.
  unfoldable pub get_device_id : (C → List ℕ) → Bool → CoreReplies C → Bridge C → Ran C × List ℕ
  unfolding valid_session sync_config
  get_device_id id ours r b =
      let synced = sync_config r b in
      if not (valid_session ours b)
      then (record { bridge = b; succeeded = false; calls = [] }, [])
      else (synced, if synced.succeeded then id synced.bridge.core_cfg else [])
