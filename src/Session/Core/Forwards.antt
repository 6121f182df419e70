-- ===== src/Session/Core/Forwards.antt =====
-- The forwards of src/bithion_core_compat.c to the closed core: the voice, the uplink, the detector and
-- the messages.
use rockchip_1106_voice_agen.Prelude.Int.{ℤ}
use rockchip_1106_voice_agen.Session.{Session, Call, ws_send, begin_segment, send_str}
use rockchip_1106_voice_agen.Session.Vision.{send_upload_request, send_upload_commit}
use rockchip_1106_voice_agen.Session.Core.{
  CoreCall, core_tts_start, core_tts_stop, core_tts_wait, core_tts_read_opus, core_tts_interrupt,
  core_tts_has_pending_data, core_tts_is_transport_running, core_uplink_start, core_uplink_stop,
  core_uplink_begin_segment, core_uplink_send_opus, core_uplink_reset, core_uplink_flush,
  core_ws_send, Bridge, Ran, CoreReplies, ask, valid_session,
}
use rockchip_1106_voice_agen.Prelude.{
  ℕ, Bool, true, false, not, Option, none, List, [], ◌∷◌, if◌then◌else◌,
}

module _ {C : Type 0} where
  -- A forward without a session: with no core nothing is called and the answer is an error or 0.
  unfoldable pub forward : CoreCall C → Bool → Bridge C → Ran C
  unfolding ask
  forward call answer b =
      if b.has_core then ask call answer b else record { bridge = b; succeeded = false; calls = [] }

  -- zh_core_tts_transport_start
  unfoldable pub tts_transport_start : Bool → CoreReplies C → Bridge C → Ran C
  unfolding valid_session ask
  tts_transport_start ours r b =
      if valid_session ours b
      then ask core_tts_start r.done b
      else record { bridge = b; succeeded = false; calls = [] }

  -- zh_core_uplink_begin_segment
  unfoldable pub uplink_begin_segment : CoreReplies C → Bridge C → Ran C
  unfolding begin_segment
  uplink_begin_segment r b =
      if b.has_core
      then (let s = begin_segment r.done b.session in
          record {
            bridge = record b { session = s.0 };
            succeeded = s.1;
            calls = core_uplink_begin_segment ∷ [];
          })
      else record { bridge = b; succeeded = false; calls = [] }

  -- zh_core_tts_transport_stop
  unfoldable pub tts_transport_stop : CoreReplies C → Bridge C → Ran C
  unfolding forward
  tts_transport_stop r b = forward core_tts_stop r.done b

  -- zh_core_tts_transport_wait
  unfoldable pub tts_transport_wait : ℤ → CoreReplies C → Bridge C → Ran C
  unfolding forward
  tts_transport_wait timeout r b = forward (core_tts_wait timeout) r.done b

  -- zh_core_tts_read_opus
  unfoldable pub tts_read_opus : ℤ → CoreReplies C → Bridge C → Ran C
  unfolding forward
  tts_read_opus timeout r b = forward (core_tts_read_opus timeout) r.done b

  -- zh_core_tts_transport_interrupt
  unfoldable pub tts_transport_interrupt : CoreReplies C → Bridge C → Ran C
  unfolding forward
  tts_transport_interrupt r b = forward core_tts_interrupt r.done b

  -- zh_core_tts_transport_has_pending_data
  unfoldable pub tts_transport_has_pending_data : CoreReplies C → Bridge C → Ran C
  unfolding forward
  tts_transport_has_pending_data r b = forward core_tts_has_pending_data r.done b

  -- zh_core_tts_transport_is_running
  unfoldable pub tts_transport_is_running : CoreReplies C → Bridge C → Ran C
  unfolding forward
  tts_transport_is_running r b = forward core_tts_is_transport_running r.done b

  -- zh_core_uplink_start
  unfoldable pub uplink_start : CoreReplies C → Bridge C → Ran C
  unfolding forward
  uplink_start r b = forward core_uplink_start r.done b

  -- zh_core_uplink_stop
  unfoldable pub uplink_stop : CoreReplies C → Bridge C → Ran C
  unfolding forward
  uplink_stop r b = forward core_uplink_stop r.done b

  -- zh_core_uplink_send_opus
  unfoldable pub uplink_send_opus : List ℕ → CoreReplies C → Bridge C → Ran C
  unfolding forward
  uplink_send_opus opus_data r b = forward (core_uplink_send_opus opus_data) r.done b

  -- zh_core_uplink_reset
  unfoldable pub uplink_reset : CoreReplies C → Bridge C → Ran C
  unfolding forward
  uplink_reset r b = forward core_uplink_reset r.done b

  -- zh_core_uplink_flush
  unfoldable pub uplink_flush : CoreReplies C → Bridge C → Ran C
  unfolding forward
  uplink_flush r b = forward core_uplink_flush r.done b

  -- The messages among the calls of a session, as the core gets them.
  unfoldable pub to_core : List Call → List (CoreCall C)
  to_core [] = []
  to_core (ws_send msg ∷ cs) = core_ws_send msg ∷ to_core cs
  to_core (_ ∷ cs) = to_core cs

  -- What an operation on the session leaves of the bridge.
  unfoldable pub relay : Session × Bool × List Call → Bridge C → Ran C
  unfolding to_core
  relay s b = record { bridge = record b { session = s.0 }; succeeded = s.1; calls = to_core s.2 }

  -- zh_ws_send_str
  unfoldable pub ws_send_str : Bool → List ℕ → CoreReplies C → Bridge C → Ran C
  unfolding relay valid_session send_str
  ws_send_str ours msg r b = relay (send_str (valid_session ours b) r.sent msg b.session) b

  -- zh_ws_send_vision_upload_request
  unfoldable pub ws_request_upload :
      (List ℕ → ℕ → Option (List ℕ))
      → Bool
      → List ℕ
      → List ℕ
      → List ℕ
      → CoreReplies C
      → Bridge C
      → Ran C
  unfolding relay valid_session send_upload_request
  ws_request_upload escape ours device_id frame_id content_type r b =
      relay
        (send_upload_request escape (valid_session ours b) r.sent device_id frame_id content_type
          b.session)
        b

  -- zh_ws_send_vision_upload_commit
  unfoldable pub ws_commit_upload :
      (List ℕ → ℕ → Option (List ℕ))
      → Bool
      → List ℕ
      → List ℕ
      → List ℕ
      → List ℕ
      → Option (List ℕ)
      → CoreReplies C
      → Bridge C
      → Ran C
  unfolding relay valid_session send_upload_commit
  ws_commit_upload escape ours device_id frame_id upload_id object_key face_name r b =
      relay
        (send_upload_commit escape (valid_session ours b) r.sent device_id frame_id upload_id
          object_key face_name b.session)
        b

-- What the detector calls of the core.
pub data VadCall : Type 0 where
  core_vad_create : Bool → VadCall
  core_vad_destroy : VadCall
  core_vad_reset : VadCall

-- zh_core_vad_create: `created` is the answer of the core, `alloc` that of calloc.
unfoldable pub vad_create : Bool → Bool → Bool × List VadCall
vad_create created alloc =
    if not created
    then (false, core_vad_create false ∷ [])
    else if not alloc
    then (false, core_vad_create true ∷ core_vad_destroy ∷ [])
    else (true, core_vad_create true ∷ [])

-- zh_core_vad_destroy and zh_core_vad_reset. `there` says that the detector is not NULL; one that
-- zh_core_vad_create has made has its `impl`.
unfoldable pub vad_destroy : Bool → List VadCall
vad_destroy there = if there then core_vad_destroy ∷ [] else []

unfoldable pub vad_reset : Bool → List VadCall
vad_reset there = if there then core_vad_reset ∷ [] else []

-- zh_core_vad_result_t. A probability is a value of any type.
pub record VadResult (P : Type 0) : Type 0 where
  pub l1_active : Bool
  pub speech_active : Bool
  pub speech_started : Bool
  pub speech_ended : Bool
  pub l2_prob : P

-- zh_core_vad_process with the core's answer, `none` for an error.
unfoldable pub vad_process : {P : Type 0} → Bool → Option (VadResult P) → Option (VadResult P)
vad_process there answer = if there then answer else none
