-- ===== src/Tests/Core.antt =====
-- Runs of the bridge to the core (src/bithion_core_compat.c), of the face engine and its threads
-- (src/face_recognition.c), and of the microphone (src/audio_capture_rockit.c).
use rockchip_1106_voice_agen.Prelude.Int.{pos}
use rockchip_1106_voice_agen.Text.{codes}
use rockchip_1106_voice_agen.Session.{Session, no_response, no_vision}
use rockchip_1106_voice_agen.Session.Core.{
  Bridge, CoreReplies, sync_config, hook_up, prepare, then_run, ask, bind_device,
}
use rockchip_1106_voice_agen.Session.Core.Cycle.{
  Track, ready, permit_all, Op, binds, checks, connects, authenticates, runs, closes, tts_starts,
  uplink_starts, sends, run_ops,
}
use rockchip_1106_voice_agen.Session.Core.Cycle.Ready.{run_ops-permitted, bind_device-ready}
use rockchip_1106_voice_agen.Face.Engine.{
  whole, Header, Photo, or_zero, uds_read_line, uds_send_cmd, Starts, capture_photo,
}
use rockchip_1106_voice_agen.Face.Engine.Dialogue.{
  running, photo_shot, capture_photo-in_step, capture_photo-out_of_step,
}
use rockchip_1106_voice_agen.Face.Workers.{
  Workers, in_compare, face_gone, Luck, face_run, taking, capture_gone, capture_run,
}
use rockchip_1106_voice_agen.Face.Workers.Stop.{
  work_count, face_due, capture_due, told_turns, recognition_stop-ends,
}
use rockchip_1106_voice_agen.Audio.Capture.Driver.{
  RkAnswers, capture_init, capture_deinit, rk_effects, holds, capture_init-releases,
}
use rockchip_1106_voice_agen.Prelude.{
  ℕ, ◌≤◌, ◌≡◌, refl, inr, ◌⊎◌, true, false, none, some, List, [], ◌∷◌, ◌++◌, arith,
}

abbrev session : Session
session = record {
  authenticated = false;
  should_stop = false;
  stt_completed = false;
  stt_completed_chat_valid = false;
  stt_completed_chat_count = 0;
  tts_completed = false;
  vad_started = false;
  vision_upload_ready = false;
  vision_done_ready = false;
  vision_upload_resp = no_response;
  vision_done = no_vision;
  pending_music = [];
}

-- A configuration is a number here.
abbrev bridge : Bridge ℕ
bridge = record { has_core = false; core_cfg = 0; session = session }

abbrev replies : CoreReplies ℕ
replies = record {
  created = true;
  applied = true;
  hooked = true;
  bound = true;
  checked = true;
  copied = some 5;
  connected = true;
  sent = true;
  done = true;
}

abbrev after_binding : List (Op ℕ × CoreReplies ℕ)
after_binding =
    (checks false [] (some 4), replies)
    ∷ (uplink_starts, replies)
    ∷ (connects (some 4) [], replies)
    ∷ (authenticates true (pos 5000), replies)
    ∷ (tts_starts true, replies)
    ∷ (sends true (codes "START"), replies)
    ∷ (runs true, replies)
    ∷ (closes true, replies)
    ∷ []

abbrev all_ops : List (Op ℕ × CoreReplies ℕ)
all_ops = (uplink_starts, replies) ∷ (binds (some 4), replies) ∷ after_binding

run_ops-permitted_example :
    let o = run_ops all_ops bridge in
    let start : Track = record { made = false; configured = false; hooks = false } in
    (u : Track) × (permit_all false o.calls start ≡ some u) × (u.made ≡ o.bridge.has_core)
run_ops-permitted_example = run_ops-permitted all_ops bridge refl

binding_works : (bind_device (some 4) replies bridge).succeeded ≡ true
unfolding bind_device prepare hook_up then_run ask sync_config
binding_works = refl

bind_device-ready_example :
    let o = bind_device (some 4) replies bridge in
    let start : Track = record { made = false; configured = false; hooks = false } in
    (replies.copied ≡ some o.bridge.core_cfg)
    × (permit_all true (o.calls ++ (run_ops after_binding o.bridge).calls) start ≡ some ready)
bind_device-ready_example =
    bind_device-ready 4 replies bridge (record { made = false; configured = false; hooks = false })
      after_binding refl binding_works refl

-- A reader that takes every header for that of a photo of three bytes.
abbrev parse : List ℕ → Header
parse line = record {
  answer_ok = true;
  size = whole 3;
  width = some (pos 640);
  height = none;
  quality = some (pos 85);
  message = none;
}

abbrev starts : Starts
starts = record { forked = none; connected = none; greeting = [] }

capture_photo-in_step_example :
    let c =
      capture_photo parse starts
        (photo_shot (codes "{}") (1 ∷ 10 ∷ 3 ∷ []) true (λ n. n))
        (running 7 8 []) in
    let h = parse (codes "{}") in
    let photo : Photo = record {
      jpeg = 1 ∷ 10 ∷ 3 ∷ [];
      cap_w = or_zero h.width;
      cap_h = or_zero h.height;
      cap_q = or_zero h.quality;
    } in
    (c ≡ record { engine = running 7 8 []; photo = some photo; err = [] })
    × (uds_send_cmd true (codes "{\"ok\":1}\n") 8192 c.engine.inbox
        ≡ uds_read_line 8192 (codes "{\"ok\":1}\n"))
capture_photo-in_step_example =
    capture_photo-in_step parse starts 7 8 (codes "{}") (1 ∷ 10 ∷ 3 ∷ []) (codes "{\"ok\":1}\n")
      (λ n. n) ((λ e. absurd (omega arith)), ((λ e. absurd (omega arith)), tt)) (omega arith)
      (omega arith) refl refl (omega arith)

capture_photo-out_of_step_example :
    let c =
      capture_photo parse starts
        (photo_shot (codes "{}") (1 ∷ 10 ∷ 3 ∷ []) false (λ n. n))
        (running 7 8 []) in
    (c.photo ≡ none)
    × (c.engine ≡ running 7 8 (1 ∷ 10 ∷ 3 ∷ []))
    × (uds_send_cmd true (codes "{\"ok\":1}\n") 8192 c.engine.inbox
        ≡ uds_read_line 8192 ((1 ∷ 10 ∷ 3 ∷ []) ++ codes "{\"ok\":1}\n"))
capture_photo-out_of_step_example =
    capture_photo-out_of_step parse starts 7 8 (codes "{}") (1 ∷ 10 ∷ 3 ∷ []) (codes "{\"ok\":1}\n")
      false (λ n. n) ((λ e. absurd (omega arith)), ((λ e. absurd (omega arith)), tt)) (omega arith)
      (omega arith) refl refl (inr refl)

abbrev busy : Workers
busy = record {
  face_running = true;
  face_active = true;
  thread_started = true;
  capture_running = true;
  capture_thread_started = true;
  face_ws = true;
}

abbrev luck : Luck
luck = record { prepared = true; compared = false; captured = true; cost_ms = 30 }

recognition_stop-ends_example :
    let turns = told_turns busy (λ n. (luck, true)) in
    let face = face_run turns in_compare in
    let capture = capture_run turns taking in
    (face.0 ≡ face_gone)
    × (work_count face.1 ≡ face_due in_compare)
    × (capture.0 ≡ capture_gone)
    × (work_count capture.1 ≤ capture_due taking)
recognition_stop-ends_example = recognition_stop-ends busy in_compare taking (λ n. (luck, true))

abbrev no_channel : RkAnswers
no_channel = record {
  allocated = true;
  inited = true;
  attr_set = true;
  enabled = true;
  vqe_set = true;
  vqe_enabled = true;
  chn_enabled = false;
}

capture_init-releases_example :
    let o = capture_init no_channel in
    let h = rk_effects o.1 (holds false false) in
    ((o.0 ≡ true)
      × (h ≡ holds true true)
      × (rk_effects (capture_deinit true) h ≡ holds false false))
    ⊎ ((o.0 ≡ false) × (h ≡ holds false true))
capture_init-releases_example = capture_init-releases no_channel
