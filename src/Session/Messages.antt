-- ===== src/Session/Messages.antt =====
-- What a text message of the server does, zh_core_host_ws_text_message of
-- src/bithion_core_compat.c. The JSON reader is the core's: a message is what it answers.
pub mod Laws
use rockchip_1106_voice_agen.Text.{codes, str_eq}
use rockchip_1106_voice_agen.Text.Decimal.{dec}
use rockchip_1106_voice_agen.Prelude.Int.{ℤ, pos, negsuc}
use rockchip_1106_voice_agen.Session.{
  UploadResponse, VisionDone, Session, Call, interrupt_tts, play_urls, enroll_on_recog,
  enroll_on_owner, ws_send, copy_opt, mark_vad_start, send_str,
}
use rockchip_1106_voice_agen.Prelude.{
  ℕ, zero, suc, ◌+◌, ◌-◌, ◌*◌, ◌/◌, ◌%◌, ◌^◌, ◌≤◌, ◌<◌, min, ◌≡◌, refl, sym, ap, ◌∙◌, ◌≢◌, ◌↔◌, ◌⊎◌,
  inl, inr, Bool, true, false, not, ◌&&◌, ◌||◌, Option, none, some, List, [], ◌∷◌, ◌++◌, map, arith,
  ltb, leb, ◌==◌, if◌then◌else◌, ltb→lt, lt→ltb, leb→le, ==_iff, Bool-cases, Option-cases, length,
  get_elem?, set, get_or, take, drop, replicate, length-append, length-set, length-take,
  length-drop, length-replicate, take-append-drop, take-length_append, drop-length_append,
  get_or-append_left, get_or-append_right, take-all, get_elem?-set_self, get_elem?-set_ne,
}

-- mg_json_get_str and mg_json_get_long on a message.
pub record Json : Type 0 where
  pub get_str : List ℕ → Option (List ℕ)
  pub get_long : List ℕ → ℤ → ℤ

-- The rest of the program, as a message finds it.
pub record Host : Type 0 where
  pub core_there : Bool
  pub tts_busy : Bool
  pub send_ok : Bool
  pub alloc : ℕ → Bool  -- whether realloc gives an array of so many pointers

abbrev pub has_value : Option (List ℕ) → List ℕ → Bool
has_value none text = false
has_value (some s) text = str_eq s text

abbrev pub or_empty : Option (List ℕ) → List ℕ
or_empty none = []
or_empty (some s) = s

-- `"$.url[%d]"`
abbrev pub url_path : ℕ → List ℕ
url_path i = codes "$.url[" ++ (dec i ++ codes "]")

-- The loop of zh_ws_collect_music_urls from index `i`, which is also `count`: the URLs it adds. One
-- round of `fuel` for each of them.
unfoldable pub collect_from : Json → (ℕ → Bool) → ℕ → ℕ → ℕ → List (List ℕ)
collect_from msg alloc zero i capacity = []
collect_from msg alloc (suc fuel) i capacity =
    let wider = if capacity == 0 then 4 else capacity * 2 in
    let rest = collect_from msg alloc fuel (i + 1) (if leb capacity i then wider else capacity) in
    elim (msg.get_str (url_path i)) [
      | none ↦ []
      | some url ↦ if leb capacity i && not (alloc wider) then [] else url ∷ rest
    ]

-- zh_ws_collect_music_urls: an empty list stands for -1.
unfoldable pub collect_music_urls : Json → (ℕ → Bool) → ℕ → List (List ℕ)
unfolding collect_from
collect_music_urls msg alloc fuel = collect_from msg alloc fuel 0 0

-- The branch on "vision_upload_response".
unfoldable pub take_upload_response : Json → Session → Session
unfolding copy_opt
take_upload_response msg s =
    if has_value (msg.get_str (codes "$.type")) (codes "vision_upload_response")
    then record s {
      vision_upload_resp = record {
        status = copy_opt 16 (msg.get_str (codes "$.status"));
        upload_id = copy_opt 128 (msg.get_str (codes "$.upload_id"));
        upload_url = copy_opt 2048 (msg.get_str (codes "$.upload_url"));
        object_key = copy_opt 512 (msg.get_str (codes "$.object_key"));
        expires_at = msg.get_long (codes "$.expires_at") (pos 0);
      };
      vision_upload_ready = true;
    }
    else s

-- The branch on "STT_COMPLETED".
unfoldable pub stt_completed_now : ℤ → Session → Session
stt_completed_now (negsuc n) s = record s {
  stt_completed = true;
  stt_completed_chat_valid = false;
  stt_completed_chat_count = 0;
}
stt_completed_now (pos n) s =
    if leb n 0xffffffff
    then record s {
      stt_completed = true;
      stt_completed_chat_valid = true;
      stt_completed_chat_count = n;
    }
    else record s {
      stt_completed = true;
      stt_completed_chat_valid = false;
      stt_completed_chat_count = 0;
    }

-- A VAD_START, in a status or in `vad_start`.
unfoldable pub vad_start_now : Session → Session × List Call
unfolding mark_vad_start
vad_start_now s = let r = mark_vad_start s in (r.0, if r.1 then interrupt_tts ∷ [] else [])

-- The branch on "vision_done".
unfoldable pub take_vision_done : Json → Session → Session
unfolding copy_opt
take_vision_done msg s = record s {
  vision_done = record {
    result = copy_opt 16 (msg.get_str (codes "$.result"));
    device_id = copy_opt 64 (msg.get_str (codes "$.device_id"));
    frame_id = copy_opt 128 (msg.get_str (codes "$.frame_id"));
    error_code = copy_opt 64 (msg.get_str (codes "$.error_code"));
  };
  vision_done_ready = true;
}

-- The branch on "music_server", with the URLs of the message.
unfoldable pub music_server : Bool → List (List ℕ) → Session → Session × List Call
music_server busy [] s = (s, [])
music_server busy (u ∷ us) s =
    if busy then (record s { pending_music = u ∷ us }, []) else (s, play_urls (u ∷ us) ∷ [])

-- The branch on "music_play_pre".
unfoldable pub music_play_pre : Host → ℤ → Session → Session × List Call
unfolding send_str
music_play_pre host (negsuc n) s = (s, [])
music_play_pre host (pos code) s =
    let r = send_str host.core_there host.send_ok (codes "START") s in
    if code == 200 then (r.0, r.2) else (s, [])

-- The branches on the status.
unfoldable pub apply_status : Host → ℕ → Json → List ℕ → Session → Session × List Call
apply_status host fuel msg status s =
    if str_eq status (codes "authenticated")
    then (record s { authenticated = true }, [])
    else if str_eq status (codes "error")
    then (s, [])
    else if str_eq status (codes "STT_COMPLETED")
    then (stt_completed_now (msg.get_long (codes "$.chat_count") (negsuc 0)) s, [])
    else if str_eq status (codes "TTS_COMPLETED")
    then (record s { tts_completed = true }, [])
    else if str_eq status (codes "vision_done")
    then (take_vision_done msg s, [])
    else if str_eq status (codes "VAD_START")
    then vad_start_now s
    else if str_eq status (codes "face_recog")
    then (s, enroll_on_recog ∷ [])
    else if str_eq status (codes "face_owner")
    then (s, enroll_on_owner (or_empty (msg.get_str (codes "$.message"))) ∷ [])
    else if str_eq status (codes "music_server")
    then music_server host.tts_busy (collect_music_urls msg host.alloc fuel) s
    else if str_eq status (codes "music_play_pre")
    then music_play_pre host (msg.get_long (codes "$.status_code") (negsuc 0)) s
    else (s, [])

abbrev pub then_status : Host → ℕ → Json → Option (List ℕ) → Session → Session × List Call
then_status host fuel msg none s = (s, [])
then_status host fuel msg (some status) s = apply_status host fuel msg status s

-- zh_core_host_ws_text_message, for a text that is there and not empty.
unfoldable pub ws_text_message : Host → ℕ → Json → Session → Session × List Call
ws_text_message host fuel msg s =
    let s1 = take_upload_response msg s in
    let r = then_status host fuel msg (msg.get_str (codes "$.status")) s1 in
    let v = vad_start_now (r.0) in
    if has_value (msg.get_str (codes "$.vad_start.status")) (codes "VAD_START")
    then (v.0, r.1 ++ v.1)
    else r
