-- ===== src/Audio/Uplink.antt =====
-- The uplink thread, src/audio_uplink.c: what one turn of the loop of zh_audio_uplink_thread_main
-- does with a captured frame. The detector, the encoder and the sender are the core's, so they are
-- parameters, as are the frame sizes, which its headers define; what a turn does to them and to the
-- session is a list of actions.
pub mod Laws
pub mod Thread
use rockchip_1106_voice_agen.Prelude.Int.{ℤ, pos, negsuc}
use rockchip_1106_voice_agen.Audio.Gate.{Thresholds, Gate, gate_filter}
use rockchip_1106_voice_agen.Audio.Preroll.{Preroll, restart, remember, flush_preroll}
use rockchip_1106_voice_agen.Prelude.{
  ℕ, zero, suc, ◌+◌, ◌-◌, ◌*◌, ◌/◌, ◌%◌, ◌^◌, ◌≤◌, ◌<◌, min, ◌≡◌, refl, sym, ap, ◌∙◌, ◌≢◌, ◌↔◌, ◌⊎◌,
  inl, inr, Bool, true, false, not, ◌&&◌, ◌||◌, Option, none, some, List, [], ◌∷◌, ◌++◌, map, arith,
  ltb, leb, ◌==◌, if◌then◌else◌, ltb→lt, lt→ltb, leb→le, ==_iff, Bool-cases, Option-cases, length,
  get_elem?, set, get_or, take, drop, replicate, length-append, length-set, length-take,
  length-drop, length-replicate, take-append-drop, take-length_append, drop-length_append,
  get_or-append_left, get_or-append_right, take-all, get_elem?-set_self, get_elem?-set_ne,
}

-- zh_core_vad_result_t, as far as the thread reads it
pub record Vad : Type 0 where
  pub speech_active : Bool
  pub speech_started : Bool
  pub speech_ended : Bool

-- The calls a turn makes, and a frame that it submits.
pub data Action : Type 0 where
  report_asr_upload_meta : Bool → Action
  set_face_active : Bool → Action
  reset_vad : Action
  reset_uplink : Action
  begin_segment : Action
  send_opus : List ℕ → Action
  flush_uplink : Action

-- The core and the constants of its headers. `vad` is the answer to the frame of this turn.
pub record Core : Type 0 where
  pub frame_samples : ℕ  -- ZH_AUDIO_FRAME_SAMPLES
  pub opus_samples : ℕ  -- ZH_OPUS_FRAME_SAMPLES
  pub preroll_frames : ℕ  -- ZH_VAD_PREROLL_FRAMES
  pub thresholds : Thresholds
  pub apply_gain : ℤ → ℤ  -- zh_apply_gain with ZH_AUDIO_GAIN
  pub vad : List ℤ → Option Vad
  pub encode : List ℤ → Option (List ℕ)  -- opus_encode
  pub send_ok : List ℕ → Bool  -- zh_core_uplink_send_opus
  pub begin_ok : Bool  -- zh_core_uplink_begin_segment

-- What the thread reads of the rest of the program in a turn.
pub record Sees : Type 0 where
  pub has_ws : Bool
  pub music_active : Bool
  pub stt_completed : Bool  -- at the head of the turn
  pub stt_completed_later : Bool  -- before a frame is sent
  pub tts_playing : Bool

-- The variables that the loop keeps.
pub record Uplink : Type 0 where
  pub ring : Preroll (List ℤ)
  pub speech_active : Bool
  pub gate : Gate
  pub stt_completed_seen : Bool
  pub music_reported : Option Bool  -- `none` for -1

abbrev pub channels : ℕ
channels = 2

-- The left channel, `pcm[i * ZH_AUDIO_CHANNELS]` for `count` samples from sample `i`.
unfoldable pub left_channel : List ℤ → ℕ → ℕ → List ℤ
left_channel pcm i zero = []
left_channel pcm i (suc count) = get_or pcm (i * channels) (pos 0) ∷ left_channel pcm (i + 1) count

-- zh_audio_uplink_submit_frame
unfoldable pub submit_frame : Core → List ℤ → List Action → List Action × Bool
unfolding left_channel
submit_frame core pcm done =
    if ltb (length pcm) (core.opus_samples * channels) || length pcm == 0
    then (done, false)
    else elim (core.encode (left_channel pcm 0 core.opus_samples)) [
      | none ↦ (done, false)
      | some opus ↦ (done ++ (send_opus opus ∷ []), core.send_ok opus)
    ]

abbrev same : Bool → Bool → Bool
same true b = b
same false b = not b

-- The report of a change of the music state, zh_ws_report_asr_upload_meta with it.
unfoldable pub watch_music : Sees → Uplink → List Action → Uplink × List Action
watch_music sees u done = elim u.music_reported [
  | none ↦ (record u { music_reported = some sees.music_active }, done)
  | some before ↦ if same before sees.music_active then (u, done) else (
    record u { music_reported = some sees.music_active },
    if sees.has_ws then done ++ (report_asr_upload_meta sees.music_active ∷ []) else done,
  )
]

-- The reset when the recognition of the round is complete, once per round.
unfoldable pub watch_stt : Sees → Uplink → List Action → Uplink × List Action
unfolding restart
watch_stt sees u done =
    if sees.has_ws && sees.stt_completed
    then if u.stt_completed_seen then (u, done) else (
      record u {
        stt_completed_seen = true;
        speech_active = false;
        ring = restart u.ring;
        gate = record { gate_open = false; below_close_frames = 0 };
      },
      done ++ (set_face_active false ∷ reset_vad ∷ reset_uplink ∷ []),
    )
    else (record u { stt_completed_seen = false }, done)

-- The start of a segment: what was done, and `frame_flushed_in_preroll`.
unfoldable pub start_segment :
    Core → Sees → Vad → Preroll (List ℤ) → List Action → List Action × Bool
start_segment core sees v ring done =
    if v.speech_started
    then (let woken = done ++ (set_face_active true ∷ []) in
        if sees.has_ws
        then (let begun = woken ++ (begin_segment ∷ []) in
            if core.begin_ok
            then flush_preroll (submit_frame core) core.preroll_frames ring begun
            else (begun, false))
        else (woken, false))
    else (done, false)

-- The turn from the answer of the detector on. `u` has the filtered frame's gate already, and
-- `frame` is the one captured.
unfoldable pub speak : Core → Sees → List ℤ → Vad → Uplink → List Action → Uplink × List Action
speak core sees frame v u done =
    let loud = map core.apply_gain frame in
    let ring : Preroll (List ℤ) =
      if u.speech_active then u.ring else remember core.preroll_frames loud u.ring in
    let started = start_segment core sees v ring done in
    let wanted =
      v.speech_active && (sees.has_ws && (not sees.stt_completed_later || sees.tts_playing)) in
    let sent : List Action =
      if wanted && not started.1 then (submit_frame core loud (started.0)).0 else started.0 in
    (
      record u { ring = ring; speech_active = v.speech_active },
      if v.speech_ended then sent ++ (set_face_active false ∷ flush_uplink ∷ []) else sent,
    )

-- Nothing more is done when the detector fails.
unfoldable pub answer :
    Core → Sees → List ℤ → Option Vad → Uplink → List Action → Uplink × List Action
answer core sees frame none u done = (u, done)
answer core sees frame (some v) u done = speak core sees frame v u done

-- One turn of the loop with a frame that was read.
unfoldable pub turn : Core → Sees → List ℤ → Uplink → Uplink × List Action
turn core sees frame u =
    if length frame == core.frame_samples * channels
    then (let heard = watch_music sees u [] in
        let ready = watch_stt sees (heard.0) (heard.1) in
        let filtered = gate_filter core.thresholds frame ready.0.gate in
        let gated : Uplink = record (ready.0) { gate = filtered.0 } in
        answer core sees frame (core.vad (filtered.1)) gated (ready.1))
    else (u, [])
