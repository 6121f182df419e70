-- ===== src/Session/Core/Cycle.antt =====
-- The order in which src/bithion_core_compat.c uses the closed core: the operations of the bridge and
-- the calls that they may make.
pub mod Relays
pub mod Ready
use rockchip_1106_voice_agen.Prelude.Int.{ℤ}
use rockchip_1106_voice_agen.Session.Core.{
  CoreCall, core_create, core_reset, core_apply_config, core_set_host_hooks, core_bind_device,
  Bridge, Ran, CoreReplies, sync_config, hook_up, prepare, then_run, ask, route_override,
  bind_device, ensure_core, check_bind, open_session, ws_connect, valid_session, wait_authenticated,
  run_loop, ws_close, get_device_id,
}
use rockchip_1106_voice_agen.Session.Core.Forwards.{
  forward, tts_transport_start, uplink_begin_segment, tts_transport_stop, tts_transport_wait,
  tts_read_opus, tts_transport_interrupt, tts_transport_has_pending_data, tts_transport_is_running,
  uplink_start, uplink_stop, uplink_send_opus, uplink_reset, uplink_flush, ws_send_str,
  ws_request_upload, ws_commit_upload,
}
use rockchip_1106_voice_agen.Prelude.{
  ℕ, ◌≡◌, refl, sym, ap, ◌∙◌, inl, inr, Bool, true, false, not, ◌&&◌, ◌||◌, Option, none, some,
  List, [], ◌∷◌, ◌++◌, arith, if◌then◌else◌, Option-cases, Bool-cases,
}

-- What is known of the core: that it is made, and that since its last reset it has been given a
-- configuration and the hooks.
pub record Track : Type 0 where
  pub made : Bool
  pub configured : Bool
  pub hooks : Bool

abbrev pub ready : Track
ready = record { made = true; configured = true; hooks = true }

-- One call, `none` where it may not be made. A core is made only once and before all else, and its
-- configuration is that of its creation or of a later one. A device is bound only on a core that has
-- its configuration and the hooks; if `strict`, so is every call made that does not make or set up
-- the core.
abbrev pub permit : {C : Type 0} → Bool → CoreCall C → Track → Option Track
permit strict (core_create cfg ok) t =
    if t.made then none else some (record { made = ok; configured = ok; hooks = false })
permit strict core_reset t =
    if t.made then some (record t { configured = false; hooks = false }) else none
permit strict (core_apply_config cfg ok) t =
    if t.made then some (record t { configured = ok }) else none
permit strict (core_set_host_hooks ok) t = if t.made then some (record t { hooks = ok }) else none
permit strict (core_bind_device ok) t = if t.made && t.configured && t.hooks then some t else none
permit strict _ t = if t.made && (not strict || t.configured && t.hooks) then some t else none

-- An operation of the bridge, with its inputs.
pub data Op (C : Type 0) : Type 0 where
  binds : Option C → Op C
  checks : Bool → List ℕ → Option C → Op C
  connects : Option C → List ℕ → Op C
  authenticates : Bool → ℤ → Op C
  runs : Bool → Op C
  closes : Bool → Op C
  asks_id : (C → List ℕ) → Bool → Op C
  tts_starts : Bool → Op C
  tts_stops : Op C
  tts_waits : ℤ → Op C
  tts_reads : ℤ → Op C
  tts_interrupts : Op C
  tts_asks_pending : Op C
  tts_asks_running : Op C
  uplink_starts : Op C
  uplink_stops : Op C
  uplink_begins : Op C
  uplink_sends : List ℕ → Op C
  uplink_resets : Op C
  uplink_flushes : Op C
  sends : Bool → List ℕ → Op C
  requests_upload : (List ℕ → ℕ → Option (List ℕ)) → Bool → List ℕ → List ℕ → List ℕ → Op C
  commits_upload :
      (List ℕ → ℕ → Option (List ℕ))
      → Bool
      → List ℕ
      → List ℕ
      → List ℕ
      → List ℕ
      → Option (List ℕ)
      → Op C

module _ {C : Type 0} where
  unfoldable pub permit_all : Bool → List (CoreCall C) → Track → Option Track
  permit_all strict [] t = some t
  permit_all strict (c ∷ cs) t = elim (permit strict c t) [
    | none ↦ none
    | some u ↦ permit_all strict cs u
  ]

  pub permit_all-append :
      (strict : Bool) (cs ds : List (CoreCall C)) (t u : Track)
      → permit_all strict cs t ≡ some u
      → permit_all strict (cs ++ ds) t ≡ permit_all strict ds u
  unfolding permit_all
  permit_all-append strict [] ds t u h = ground arith
  permit_all-append strict (c ∷ cs) ds t u h = elim (Option-cases (permit strict c t)) [
    | inl e ↦ cc (rw (e, permit_all) at h)
    | inr (p, e) ↦ rw (e, permit_all) (permit_all-append strict cs ds p u (rw (permit_all, e) at h))
  ]

  unfoldable pub run_op : Op C → CoreReplies C → Bridge C → Ran C
  run_op (binds cfg) r b = bind_device cfg r b
  run_op (checks force url cfg) r b = check_bind force url cfg r b
  run_op (connects cfg url) r b = ws_connect cfg url r b
  run_op (authenticates ours timeout) r b = wait_authenticated ours timeout r b
  run_op (runs ours) r b = run_loop ours b
  run_op (closes ours) r b = ws_close ours b
  run_op (asks_id id ours) r b = (get_device_id id ours r b).0
  run_op (tts_starts ours) r b = tts_transport_start ours r b
  run_op tts_stops r b = tts_transport_stop r b
  run_op (tts_waits timeout) r b = tts_transport_wait timeout r b
  run_op (tts_reads timeout) r b = tts_read_opus timeout r b
  run_op tts_interrupts r b = tts_transport_interrupt r b
  run_op tts_asks_pending r b = tts_transport_has_pending_data r b
  run_op tts_asks_running r b = tts_transport_is_running r b
  run_op uplink_starts r b = uplink_start r b
  run_op uplink_stops r b = uplink_stop r b
  run_op uplink_begins r b = uplink_begin_segment r b
  run_op (uplink_sends opus_data) r b = uplink_send_opus opus_data r b
  run_op uplink_resets r b = uplink_reset r b
  run_op uplink_flushes r b = uplink_flush r b
  run_op (sends ours msg) r b = ws_send_str ours msg r b
  run_op (requests_upload escape ours device_id frame_id content_type) r b =
      ws_request_upload escape ours device_id frame_id content_type r b
  run_op (commits_upload escape ours device_id frame_id upload_id object_key face_name) r b =
      ws_commit_upload escape ours device_id frame_id upload_id object_key face_name r b

  -- Operations one after the other, each with the answers of the core.
  unfoldable pub run_ops : List (Op C × CoreReplies C) → Bridge C → Ran C
  unfolding run_op
  run_ops [] b = record { bridge = b; succeeded = true; calls = [] }
  run_ops ((op, r) ∷ ops) b =
      let first = run_op op r b in
      let rest = run_ops ops first.bridge in record rest { calls = first.calls ++ rest.calls }

  abbrev pub is_bind : Op C → Bool
  is_bind (binds cfg) = true
  is_bind _ = false

  abbrev pub no_bind : List (Op C × CoreReplies C) → Bool
  no_bind [] = true
  no_bind ((op, r) ∷ ops) = not (is_bind op) && no_bind ops
