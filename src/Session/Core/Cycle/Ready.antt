-- ===== src/Session/Core/Cycle/Ready.antt =====
-- The calls of src/bithion_core_compat.c to the closed core, made in order.
use rockchip_1106_voice_agen.Session.{Session, Call, send_str}
use rockchip_1106_voice_agen.Session.Vision.{send_upload_request, send_upload_commit}
use rockchip_1106_voice_agen.Session.Core.Cycle.Relays.{
  Relays, send_str-Relays, send_upload_request-Relays, send_upload_commit-Relays,
}
use rockchip_1106_voice_agen.Session.Core.{
  Bridge, Ran, CoreReplies, sync_config, hook_up, prepare, then_run, ask, route_override,
  bind_device, ensure_core, check_bind, open_session, ws_connect, valid_session, wait_authenticated,
  run_loop, ws_close, get_device_id,
}
use rockchip_1106_voice_agen.Session.Core.Forwards.{
  forward, tts_transport_start, uplink_begin_segment, tts_transport_stop, tts_transport_wait,
  tts_read_opus, tts_transport_interrupt, tts_transport_has_pending_data, tts_transport_is_running,
  uplink_start, uplink_stop, uplink_send_opus, uplink_reset, uplink_flush, to_core, relay,
  ws_send_str, ws_request_upload, ws_commit_upload,
}
use rockchip_1106_voice_agen.Prelude.{
  ◌≡◌, refl, sym, ◌∙◌, inl, inr, Bool, true, false, not, ◌&&◌, Option, none, some, List, [], ◌∷◌,
  ◌++◌, arith,
}
use rockchip_1106_voice_agen.Session.Core.Cycle.{
  Track, ready, permit_all, permit_all-append, Op, binds, checks, connects, authenticates, runs,
  closes, asks_id, tts_starts, tts_stops, tts_waits, tts_reads, tts_interrupts, tts_asks_pending,
  tts_asks_running, uplink_starts, uplink_stops, uplink_begins, uplink_sends, uplink_resets,
  uplink_flushes, sends, requests_upload, commits_upload, run_op, run_ops, is_bind, no_bind,
}

-- The calls may be made, and lead to where the bridge knows whether there is a core.
abbrev pub knows : Bool → Option Track → Bool
knows has none = false
knows has (some u) = not (u.made && not has) && not (has && not u.made)

abbrev pub is_proper : {C : Type 0} → Track → Ran C → Bool
is_proper t o = knows o.bridge.has_core (permit_all false o.calls t)

-- From where the core is ready they lead there again.
abbrev pub is_ready : Bool → Option Track → Bool
is_ready has none = false
is_ready has (some u) = u.made && u.configured && u.hooks && has

abbrev pub stays_ready : {C : Type 0} → Ran C → Bool
stays_ready o = is_ready o.bridge.has_core (permit_all true o.calls ready)

known_track :
    (has : Bool) (q : Option Track)
    → knows has q ≡ true
    → (u : Track) × (q ≡ some u) × (u.made ≡ has)
known_track has none h = cc
known_track has (some u) h = (u, refl, ground arith)

ready_track :
    (has : Bool) (q : Option Track) → is_ready has q ≡ true → (q ≡ some ready) × (has ≡ true)
ready_track has none h = cc
ready_track has (some u) h = ground arith

module _ {C : Type 0} where
  relay-proper :
      (ours : Bool) (s : Session × Bool × List Call) (b : Bridge C) (t : Track)
      → t.made ≡ b.has_core
      → Relays (valid_session ours b) s.2
      → is_proper t (relay s b) ≡ true
  unfolding relay to_core valid_session permit_all
  relay-proper ours s b t k (inl e) = rw e (ground arith)
  relay-proper ours s b t k (inr (there, m, e)) = rw e (ground arith)

  relay-ready :
      (ours : Bool) (s : Session × Bool × List Call) (b : Bridge C)
      → b.has_core ≡ true
      → Relays (valid_session ours b) s.2
      → stays_ready (relay s b) ≡ true
  unfolding relay to_core valid_session permit_all
  relay-ready ours s b k (inl e) = rw e (ground arith)
  relay-ready ours s b k (inr (there, m, e)) = rw e (ground arith)

  run_op-proper :
      (op : Op C) (r : CoreReplies C) (b : Bridge C) (t : Track)
      → t.made ≡ b.has_core
      → is_proper t (run_op op r b) ≡ true
  unfolding run_op bind_device check_bind ws_connect wait_authenticated run_loop ws_close
      get_device_id tts_transport_start tts_transport_stop tts_transport_wait tts_read_opus
      tts_transport_interrupt tts_transport_has_pending_data tts_transport_is_running uplink_start
      uplink_stop uplink_begin_segment uplink_send_opus uplink_reset uplink_flush forward
      ensure_core prepare hook_up then_run ask sync_config route_override open_session valid_session
      permit_all ws_send_str ws_request_upload ws_commit_upload
  run_op-proper (binds none) r b t k = ground arith
  run_op-proper (binds (some cfg)) r b t k = ground arith
  run_op-proper (checks force url none) r b t k = ground arith
  run_op-proper (checks force url (some cfg)) r b t k = ground arith
  run_op-proper (connects none url) r b t k = ground arith
  run_op-proper (connects (some cfg) url) r b t k = ground arith
  run_op-proper (authenticates ours timeout) r b t k = ground arith
  run_op-proper (runs ours) r b t k = ground arith
  run_op-proper (closes ours) r b t k = ground arith
  run_op-proper (asks_id id ours) r b t k = ground arith
  run_op-proper (tts_starts ours) r b t k = ground arith
  run_op-proper tts_stops r b t k = ground arith
  run_op-proper (tts_waits timeout) r b t k = ground arith
  run_op-proper (tts_reads timeout) r b t k = ground arith
  run_op-proper tts_interrupts r b t k = ground arith
  run_op-proper tts_asks_pending r b t k = ground arith
  run_op-proper tts_asks_running r b t k = ground arith
  run_op-proper uplink_starts r b t k = ground arith
  run_op-proper uplink_stops r b t k = ground arith
  run_op-proper uplink_begins r b t k = ground arith
  run_op-proper (uplink_sends opus_data) r b t k = ground arith
  run_op-proper uplink_resets r b t k = ground arith
  run_op-proper uplink_flushes r b t k = ground arith
  run_op-proper (sends ours msg) r b t k =
      relay-proper ours (send_str (valid_session ours b) r.sent msg b.session) b t k
        (send_str-Relays (valid_session ours b) r.sent msg b.session)
  run_op-proper (requests_upload escape ours device_id frame_id content_type) r b t k =
      relay-proper ours
        (send_upload_request escape (valid_session ours b) r.sent device_id frame_id content_type
          b.session)
        b t k
        (send_upload_request-Relays escape (valid_session ours b) r.sent device_id frame_id
          content_type b.session)
  run_op-proper (commits_upload escape ours device_id frame_id upload_id object_key name) r b t k =
      relay-proper ours
        (send_upload_commit escape (valid_session ours b) r.sent device_id frame_id upload_id
          object_key name b.session)
        b t k
        (send_upload_commit-Relays escape (valid_session ours b) r.sent device_id frame_id upload_id
          object_key name b.session)

  run_op-ready :
      (op : Op C) (r : CoreReplies C) (b : Bridge C)
      → b.has_core ≡ true
      → is_bind op ≡ false
      → stays_ready (run_op op r b) ≡ true
  unfolding run_op bind_device check_bind ws_connect wait_authenticated run_loop ws_close
      get_device_id tts_transport_start tts_transport_stop tts_transport_wait tts_read_opus
      tts_transport_interrupt tts_transport_has_pending_data tts_transport_is_running uplink_start
      uplink_stop uplink_begin_segment uplink_send_opus uplink_reset uplink_flush forward
      ensure_core prepare hook_up then_run ask sync_config route_override open_session valid_session
      permit_all ws_send_str ws_request_upload ws_commit_upload
  run_op-ready (binds cfg) r b k n = cc
  run_op-ready (checks force url cfg) r b k n = ground arith
  run_op-ready (connects cfg url) r b k n = ground arith
  run_op-ready (authenticates ours timeout) r b k n = ground arith
  run_op-ready (runs ours) r b k n = ground arith
  run_op-ready (closes ours) r b k n = ground arith
  run_op-ready (asks_id id ours) r b k n = ground arith
  run_op-ready (tts_starts ours) r b k n = ground arith
  run_op-ready tts_stops r b k n = ground arith
  run_op-ready (tts_waits timeout) r b k n = ground arith
  run_op-ready (tts_reads timeout) r b k n = ground arith
  run_op-ready tts_interrupts r b k n = ground arith
  run_op-ready tts_asks_pending r b k n = ground arith
  run_op-ready tts_asks_running r b k n = ground arith
  run_op-ready uplink_starts r b k n = ground arith
  run_op-ready uplink_stops r b k n = ground arith
  run_op-ready uplink_begins r b k n = ground arith
  run_op-ready (uplink_sends opus_data) r b k n = ground arith
  run_op-ready uplink_resets r b k n = ground arith
  run_op-ready uplink_flushes r b k n = ground arith
  run_op-ready (sends ours msg) r b k n =
      relay-ready ours (send_str (valid_session ours b) r.sent msg b.session) b k
        (send_str-Relays (valid_session ours b) r.sent msg b.session)
  run_op-ready (requests_upload escape ours device_id frame_id content_type) r b k n =
      relay-ready ours
        (send_upload_request escape (valid_session ours b) r.sent device_id frame_id content_type
          b.session)
        b k
        (send_upload_request-Relays escape (valid_session ours b) r.sent device_id frame_id
          content_type b.session)
  run_op-ready (commits_upload escape ours device_id frame_id upload_id object_key name) r b k n =
      relay-ready ours
        (send_upload_commit escape (valid_session ours b) r.sent device_id frame_id upload_id
          object_key name b.session)
        b k
        (send_upload_commit-Relays escape (valid_session ours b) r.sent device_id frame_id upload_id
          object_key name b.session)

  run_ops-proper :
      (ops : List (Op C × CoreReplies C)) (b : Bridge C) (t : Track)
      → t.made ≡ b.has_core
      → (u : Track) × (permit_all false (run_ops ops b).calls t ≡ some u)
        × (u.made ≡ (run_ops ops b).bridge.has_core)
  unfolding run_ops
  run_ops-proper [] b t k = (t, unfold permit_all in refl, k)
  run_ops-proper ((op, r) ∷ ops) b t k =
      let o = run_op op r b in
      let first =
        known_track o.bridge.has_core (permit_all false o.calls t) (run_op-proper op r b t k) in
      let rest = run_ops-proper ops o.bridge first.0 first.2 in
      (
        rest.0,
        permit_all-append false o.calls (run_ops ops o.bridge).calls t first.0 first.1 ∙ rest.1,
        rest.2,
      )

  run_ops-ready :
      (ops : List (Op C × CoreReplies C)) (b : Bridge C)
      → b.has_core ≡ true
      → no_bind ops ≡ true
      → permit_all true (run_ops ops b).calls ready ≡ some ready
  unfolding run_ops
  run_ops-ready [] b k n = unfold permit_all in refl
  run_ops-ready ((op, r) ∷ ops) b k n =
      let o = run_op op r b in
      let first =
        ready_track o.bridge.has_core (permit_all true o.calls ready)
          (run_op-ready op r b k (ground arith)) in
      permit_all-append true o.calls (run_ops ops o.bridge).calls ready ready first.0
      ∙ run_ops-ready ops o.bridge first.1 (ground arith)

  -- What a binding that succeeds leaves.
  bind_device-bound :
      (cfg : C) (r : CoreReplies C) (b : Bridge C) (t : Track)
      → t.made ≡ b.has_core
      → (bind_device (some cfg) r b).succeeded ≡ true
      → let o = bind_device (some cfg) r b in
        (r.copied ≡ some o.bridge.core_cfg)
        × (o.bridge.has_core ≡ true)
        × (permit_all true o.calls t ≡ some ready)
  unfolding bind_device prepare hook_up then_run ask sync_config permit_all
  bind_device-bound cfg r b t k s = ground arith

  -- Whatever sequence of the operations that use `g_core` is called and whatever the core answers,
  -- from a start without a core: a core is made only while there is none, no function that takes a
  -- core is called before it is made, a device is bound only on a core that has a configuration and
  -- the hooks since its last reset, and the bridge knows whether there is a core. The detector, whose
  -- functions take no core, is not among these operations.
  pub run_ops-permitted :
      (ops : List (Op C × CoreReplies C)) (b : Bridge C)
      → b.has_core ≡ false
      → let o = run_ops ops b in
        let start : Track = record { made = false; configured = false; hooks = false } in
        (u : Track) × (permit_all false o.calls start ≡ some u) × (u.made ≡ o.bridge.has_core)
  run_ops-permitted ops b k =
      run_ops-proper ops b (record { made = false; configured = false; hooks = false }) (sym k)

  -- After a binding that succeeds the bridge holds the configuration that the core has given out, and
  -- until the next binding every function that takes a core, whatever sequence of the operations that
  -- use `g_core` calls it, is called on a core that has a configuration and the hooks. The detector,
  -- whose functions take no core, is not among these operations.
  pub bind_device-ready :
      (cfg : C) (r : CoreReplies C) (b : Bridge C) (t : Track) (ops : List (Op C × CoreReplies C))
      → t.made ≡ b.has_core
      → (bind_device (some cfg) r b).succeeded ≡ true
      → no_bind ops ≡ true
      → let o = bind_device (some cfg) r b in
        (r.copied ≡ some o.bridge.core_cfg)
        × (permit_all true (o.calls ++ (run_ops ops o.bridge).calls) t ≡ some ready)
  bind_device-ready cfg r b t ops k s n =
      let o = bind_device (some cfg) r b in
      let bound = bind_device-bound cfg r b t k s in
      (
        bound.0,
        permit_all-append true o.calls (run_ops ops o.bridge).calls t ready bound.2
            ∙ run_ops-ready ops o.bridge bound.1 n,
      )
