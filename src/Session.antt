-- ===== src/Session.antt =====
-- The session with the server, src/bithion_core_compat.c: the state that the mutex of
-- `g_ws_session` guards and the operations on it that neither parse nor wait. The closed core is
-- reached through parameters.
pub mod Rounds
pub mod Messages
pub mod Vision
pub mod Core
use rockchip_1106_voice_agen.Text.{codes, copy_str, str_eq}
use rockchip_1106_voice_agen.Prelude.Int.{ℤ, pos, negsuc}
use rockchip_1106_voice_agen.Prelude.{
  ℕ, zero, suc, ◌+◌, ◌-◌, ◌*◌, ◌/◌, ◌%◌, ◌^◌, ◌≤◌, ◌<◌, min, ◌≡◌, refl, sym, ap, ◌∙◌, ◌≢◌, ◌↔◌, ◌⊎◌,
  inl, inr, Bool, true, false, not, ◌&&◌, ◌||◌, Option, none, some, List, [], ◌∷◌, ◌++◌, map, arith,
  ltb, leb, ◌==◌, if◌then◌else◌, ltb→lt, lt→ltb, leb→le, ==_iff, Bool-cases, Option-cases, length,
  get_elem?, set, get_or, take, drop, replicate, length-append, length-set, length-take,
  length-drop, length-replicate, take-append-drop, take-length_append, drop-length_append,
  get_or-append_left, get_or-append_right, take-all, get_elem?-set_self, get_elem?-set_ne,
}

-- zh_ws_vision_upload_response_t: strings of at most 15, 127, 2047 and 511 bytes.
pub record UploadResponse : Type 0 where
  pub status : List ℕ
  pub upload_id : List ℕ
  pub upload_url : List ℕ
  pub object_key : List ℕ
  pub expires_at : ℤ

-- zh_ws_vision_done_t: strings of at most 15, 63, 127 and 63 bytes.
pub record VisionDone : Type 0 where
  pub result : List ℕ
  pub device_id : List ℕ
  pub frame_id : List ℕ
  pub error_code : List ℕ

abbrev pub no_response : UploadResponse
no_response = record {
  status = [];
  upload_id = [];
  upload_url = [];
  object_key = [];
  expires_at = pos 0;
}

abbrev pub no_vision : VisionDone
no_vision = record { result = []; device_id = []; frame_id = []; error_code = [] }

-- struct zh_ws_session. The array of pending music is a list, empty for NULL.
pub record Session : Type 0 where
  pub authenticated : Bool
  pub should_stop : Bool
  pub stt_completed : Bool
  pub stt_completed_chat_valid : Bool
  pub stt_completed_chat_count : ℕ  -- uint32_t
  pub tts_completed : Bool
  pub vad_started : Bool
  pub vision_upload_ready : Bool
  pub vision_done_ready : Bool
  pub vision_upload_resp : UploadResponse
  pub vision_done : VisionDone
  pub pending_music : List (List ℕ)

-- What an operation asks of the rest of the program.
pub data Call : Type 0 where
  interrupt_tts : Call
  play_urls : List (List ℕ) → Call
  enroll_on_recog : Call
  enroll_on_owner : List ℕ → Call
  set_face_active : Bool → Call
  prompt_disconnected : Call
  ws_send : List ℕ → Call

-- The events of bithion_core_event_t that the client tells apart.
pub data Event : Type 0 where
  ws_error : Event
  ws_closed : Event
  other_event : Event

-- zh_copy_str, a NULL source being `none`
unfoldable pub copy_opt : ℕ → Option (List ℕ) → List ℕ
copy_opt n none = []
copy_opt n (some src) = copy_str n src

-- zh_ws_reset_round_state_locked
unfoldable pub reset_round : Session → Session
reset_round s = record s {
  stt_completed = false;
  stt_completed_chat_valid = false;
  stt_completed_chat_count = 0;
  tts_completed = false;
  vad_started = false;
}

-- zh_ws_session_reset
unfoldable pub session_reset : Session → Session
unfolding reset_round
session_reset s = record (reset_round (record s { authenticated = false; should_stop = false })) {
  vision_upload_ready = false;
  vision_done_ready = false;
  vision_upload_resp = no_response;
  vision_done = no_vision;
  pending_music = [];
}

-- zh_ws_mark_vad_start: the session and whether the playing voice is to be interrupted.
unfoldable pub mark_vad_start : Session → Session × Bool
mark_vad_start s = if s.vad_started then (s, false) else (
  record s {
    vad_started = true;
    stt_completed = false;
    stt_completed_chat_valid = false;
    stt_completed_chat_count = 0;
    tts_completed = false;
  },
  true,
)

-- zh_core_host_event_notify
unfoldable pub event_notify : Event → Session → Session × List Call
event_notify e s = (
  record s { authenticated = false; should_stop = true },
  elim e [
    | ws_error ↦ prompt_disconnected ∷ []
    | ws_closed ↦ prompt_disconnected ∷ []
    | other_event ↦ []
  ],
)

-- zh_core_host_audio_vad_state_changed
unfoldable pub vad_state_changed : Bool → Session → Session × List Call
unfolding reset_round
vad_state_changed active s = (if active then reset_round s else s, set_face_active active ∷ [])

-- zh_ws_send_str. `there` is zh_core_valid_session, `sent` the answer of bithion_core_ws_send.
unfoldable pub send_str : Bool → Bool → List ℕ → Session → Session × Bool × List Call
unfolding reset_round
send_str there sent msg s =
    if not there || length msg == 0
    then (s, false, [])
    else if not sent
    then (s, false, ws_send msg ∷ [])
    else (if str_eq msg (codes "START") then reset_round s else s, true, ws_send msg ∷ [])

-- zh_ws_is_stt_completed
unfoldable pub is_stt_completed : Bool → Session → Bool
is_stt_completed there s = there && s.stt_completed

-- zh_ws_is_tts_completed
unfoldable pub is_tts_completed : Bool → Session → Bool
is_tts_completed there s = there && s.tts_completed

-- zh_ws_get_stt_completed_chat_count: `none` for -1.
unfoldable pub get_stt_completed_chat_count : Bool → Session → Option ℕ
get_stt_completed_chat_count there s =
    if there && (s.stt_completed && s.stt_completed_chat_valid)
    then some s.stt_completed_chat_count
    else none

-- zh_ws_consume_vad_start
unfoldable pub consume_vad_start : Bool → Session → Session × Bool
consume_vad_start there s =
    if there then (record s { vad_started = false }, s.vad_started) else (s, false)

-- The end of zh_ws_wait_authenticated, once the core has connected: the state and the report that
-- it sends.
unfoldable pub authenticated_now : Bool → Session → Session × List Call
unfolding send_str
authenticated_now sent s =
    let msg = codes "{\"type\":\"Device State\",\"devices\":{\"camera\":\"on\"}}" in
    let r = send_str true sent msg (record s { authenticated = true; should_stop = false }) in
    (r.0, r.2)

-- zh_ws_close on a valid session, up to the core's stop.
unfoldable pub close : Session → Session
close s = record s { authenticated = false; should_stop = true; pending_music = [] }

-- zh_core_uplink_begin_segment, with the core's answer.
unfoldable pub begin_segment : Bool → Session → Session × Bool
unfolding reset_round
begin_segment begun s = if begun then (reset_round s, true) else (s, false)

-- zh_core_ws_on_tts_round_done, with zh_ws_take_pending_music and zh_ws_play_music_urls_owned
unfoldable pub on_tts_round_done : Session → Session × List Call
on_tts_round_done s = (
  record s { pending_music = [] },
  elim s.pending_music [ [] ↦ [] | u ∷ us ↦ play_urls (u ∷ us) ∷ [] ],
)
