-- ===== src/Tests/Talk.antt =====
-- Runs of the session with the server (src/bithion_core_compat.c).
use rockchip_1106_voice_agen.Prelude.Int.{ℤ, pos}
use rockchip_1106_voice_agen.Text.{codes, str_eq}
use rockchip_1106_voice_agen.Text.Decimal.{dec, digits_of}
use rockchip_1106_voice_agen.Session.{Session, play_urls, on_tts_round_done, no_response, no_vision}
use rockchip_1106_voice_agen.Session.Messages.{
  Json, Host, has_value, collect_from, collect_music_urls, ws_text_message, take_upload_response,
}
use rockchip_1106_voice_agen.Session.Messages.Laws.{IsPlainStatus, ws_text_message-music}
use rockchip_1106_voice_agen.Session.Vision.{Sleep, answered, wait_upload, wait_done}
use rockchip_1106_voice_agen.Session.Vision.Laws.{
  AnswersFrame, idle, wait_done-AnswersFrame, wait_upload-take,
}
use rockchip_1106_voice_agen.Session.Rounds.{Step, Reachable, Sound, Reachable-Sound}
use rockchip_1106_voice_agen.Prelude.{
  ℕ, ◌≡◌, ◌⊎◌, refl, true, false, none, some, List, [], ◌∷◌, ◌++◌, arith, if◌then◌else◌, replicate,
}

abbrev session : Session
session = record {
  authenticated = true;
  should_stop = false;
  stt_completed = false;
  stt_completed_chat_valid = false;
  stt_completed_chat_count = 0;
  tts_completed = false;
  vad_started = false;
  vision_upload_ready = false;
  vision_done_ready = false;
  vision_upload_resp = no_response;
  vision_done = no_vision;
  pending_music = [];
}

abbrev busy_host : Host
busy_host = record { core_there = true; tts_busy = true; send_ok = true; alloc = λ n. true }

-- A message with one member and one number.
abbrev message : List ℕ → List ℕ → ℤ → Json
message member value number = record {
  get_str = λ path. if str_eq path member then some value else none;
  get_long = λ path fallback. number;
}

abbrev stt : Json
stt = message (codes "$.status") (codes "STT_COMPLETED") (pos 12)

-- A message with one URL.
abbrev music : Json
music = record {
  get_str = λ path.
      if str_eq path (codes "$.status")
      then some (codes "music_server")
      else if str_eq path (codes "$.url[0]")
      then some (codes "u")
      else none;
  get_long = λ path fallback. fallback;
}

music_plain : IsPlainStatus music (codes "music_server")
unfolding str_eq
music_plain = (refl, refl, refl)

music_collected : collect_music_urls music busy_host.alloc 2 ≡ codes "u" ∷ []
unfolding collect_music_urls collect_from str_eq dec digits_of
music_collected = refl

ws_text_message-music_example :
    let r = ws_text_message busy_host 2 music session in
    let done = on_tts_round_done (r.0) in
    ((true ≡ true)
      × (r.1 ≡ [])
      × (done.1 ≡ play_urls (codes "u" ∷ []) ∷ [])
      × ((on_tts_round_done (done.0)).1 ≡ []))
    ⊎ ((true ≡ false) × (r ≡ (session, play_urls (codes "u" ∷ []) ∷ [])))
ws_text_message-music_example =
    ws_text_message-music busy_host 2 music (codes "u") [] session music_plain music_collected

abbrev ready : Session
ready = record session {
  vision_done_ready = true;
  vision_done = record no_vision { frame_id = codes "f" };
}

wait_done-AnswersFrame_example : AnswersFrame (codes "f") (wait_done (codes "f") (idle ∷ []) ready)
wait_done-AnswersFrame_example = wait_done-AnswersFrame (codes "f") (idle ∷ []) ready

abbrev upload : Json
upload = message (codes "$.type") (codes "vision_upload_response") (pos 9)

upload_typed : has_value (upload.get_str (codes "$.type")) (codes "vision_upload_response") ≡ true
unfolding str_eq
upload_typed = refl

wait_upload-take_example :
    let arrives : Sleep = record { running = true; during = take_upload_response upload } in
    let r = wait_upload (replicate 2 idle ++ (arrives ∷ [])) session in
    (r.1 ≡ answered ((take_upload_response upload session).vision_upload_resp))
    × (r.0.vision_upload_ready ≡ false)
wait_upload-take_example = wait_upload-take 2 upload [] session upload_typed refl refl

Sound-session : Sound session
Sound-session = ((λ e. absurd (ground (arith, e))), omega arith, λ _. refl)

Reachable-Sound_example : Sound ((ws_text_message busy_host 1 stt session).0)
Reachable-Sound_example =
    Reachable-Sound session ((ws_text_message busy_host 1 stt session).0)
      (Reachable.next session ((ws_text_message busy_host 1 stt session).0) Reachable.start
        (Step.message busy_host 1 stt session))
      Sound-session
