-- ===== src/Audio/Uplink/Laws.antt =====
-- Which frames the uplink thread of src/audio_uplink.c sends, and when.
use rockchip_1106_voice_agen.Prelude.Int.{ℤ}
use rockchip_1106_voice_agen.Audio.Gate.{gate_filter}
use rockchip_1106_voice_agen.Audio.Preroll.{Preroll, remember}
use rockchip_1106_voice_agen.Audio.Preroll.Laws.{
  IsRing, contents, last_of, submit_all, contents-remember, remember-IsRing, flush_preroll-submits,
}
use rockchip_1106_voice_agen.Audio.Uplink.{
  Vad, Action, set_face_active, begin_segment, Core, Sees, Uplink, channels, submit_frame,
  watch_music, watch_stt, start_segment, speak, answer, turn,
}
use rockchip_1106_voice_agen.Prelude.{
  ◌*◌, ◌≡◌, refl, ◌∙◌, inl, inr, Bool, true, false, not, ◌&&◌, ◌||◌, Option, none, some, List, [],
  ◌∷◌, ◌++◌, map, arith, ◌==◌, if◌then◌else◌, Bool-cases, length,
}

-- The frames that a segment opens with.
abbrev pub opening : Core → List ℤ → Uplink → List (List ℤ)
opening core frame u =
    last_of core.preroll_frames (contents u.ring ++ (map core.apply_gain frame ∷ []))

-- Everything done up to the first frame of a segment.
abbrev pub begun : List Action → List Action
begun done = (done ++ (set_face_active true ∷ [])) ++ (begin_segment ∷ [])

start_segment-lem :
    (core : Core) (sees : Sees) (frame : List ℤ) (v : Vad) (u : Uplink) (done : List Action)
    → IsRing core.preroll_frames u.ring
    → v.speech_started ≡ true
    → sees.has_ws ≡ true
    → core.begin_ok ≡ true
    → start_segment core sees v
        (remember core.preroll_frames (map core.apply_gain frame) u.ring)
        done
      ≡ submit_all (submit_frame core) (opening core frame u) (begun done)
unfolding start_segment
start_segment-lem core sees frame v u done is_ring starts ws begin =
    let loud = map core.apply_gain frame in
    let n = core.preroll_frames in
    rw (
      flush_preroll-submits (submit_frame core) n (remember n loud u.ring) (begun done)
          (remember-IsRing n loud u.ring is_ring),
      contents-remember n loud u.ring is_ring,
      starts,
      ws,
      begin,
    )

never {ℓ} : {A : Type ℓ} (b : Bool) (x y : A) → (if b && false then x else y) ≡ y
never true x y = refl
never false x y = refl

always {ℓ} : {A : Type ℓ} (b : Bool) (x y : A) → (if b && true then x else y) ≡ (if b then x else y)
always true x y = refl
always false x y = refl

-- Whether a turn sends its own frame.
abbrev pub wanted : Sees → Vad → Bool
wanted sees v =
    v.speech_active && (sees.has_ws && (not sees.stt_completed_later || sees.tts_playing))

-- A turn without an end of speech, from what the start of a segment did.
speak-of :
    (core : Core) (sees : Sees) (frame : List ℤ) (v : Vad) (u : Uplink) (done : List Action)
    (started : List Action × Bool)
    → start_segment core sees v
        (if u.speech_active
          then u.ring
          else remember core.preroll_frames (map core.apply_gain frame) u.ring)
        done
      ≡ started
    → v.speech_ended ≡ false
    → (speak core sees frame v u done).1 ≡ (
        if wanted sees v && not started.1
        then (submit_frame core (map core.apply_gain frame) (started.0)).0
        else started.0)
unfolding speak
speak-of core sees frame v u done started e no_end = rw (e, no_end)

-- When speech starts in a session, without ending in the same frame, the core begins the segment
-- and every frame of the opening can be sent, a turn marks the face recognition active, begins the
-- segment and sends the last frames in their order, the one just captured last, each once.
pub speak-starts :
    (core : Core) (sees : Sees) (frame : List ℤ) (v : Vad) (u : Uplink) (done : List Action)
    → IsRing core.preroll_frames u.ring
    → u.speech_active ≡ false
    → v.speech_started ≡ true
    → v.speech_ended ≡ false
    → sees.has_ws ≡ true
    → core.begin_ok ≡ true
    → (submit_all (submit_frame core) (opening core frame u) (begun done)).1 ≡ true
    → (speak core sees frame v u done).1
      ≡ (submit_all (submit_frame core) (opening core frame u) (begun done)).0
unfolding speak
speak-starts core sees frame v u done is_ring idle starts goes_on ws begin ok =
    let opened = submit_all (submit_frame core) (opening core frame u) (begun done) in
    speak-of core sees frame v u done opened
      (rw idle (start_segment-lem core sees frame v u done is_ring starts ws begin)) goes_on
    ∙ rw ok (
        never (wanted sees v) ((submit_frame core (map core.apply_gain frame) (opened.0)).0)
          (opened.0))

start_segment-none :
    (core : Core) (sees : Sees) (v : Vad) (done : List Action) (ring : Preroll (List ℤ))
    → v.speech_started ≡ false
    → start_segment core sees v ring done ≡ (done, false)
unfolding start_segment
start_segment-none core sees v done ring h = rw h

-- While speech goes on a turn sends its frame, with the gain, and nothing else, as long as there is
-- a session whose recognition is not complete or a voice that is being played; otherwise it sends
-- nothing.
pub speak-goes_on :
    (core : Core) (sees : Sees) (frame : List ℤ) (v : Vad) (u : Uplink) (done : List Action)
    → v.speech_started ≡ false
    → v.speech_ended ≡ false
    → (speak core sees frame v u done).1
      ≡ (if wanted sees v then (submit_frame core (map core.apply_gain frame) done).0 else done)
speak-goes_on core sees frame v u done no_start no_end =
    speak-of core sees frame v u done (done, false)
      (start_segment-none core sees v done
        (if u.speech_active
          then u.ring
          else remember core.preroll_frames (map core.apply_gain frame) u.ring)
        no_start)
      no_end
    ∙ always (wanted sees v) ((submit_frame core (map core.apply_gain frame) done).0) done

-- A turn's two checks change neither the ring nor whether there is speech, but for the reset.
Steady : Uplink → Uplink → Type 0
Steady u w = (w.ring ≡ u.ring) × (w.speech_active ≡ u.speech_active)

watch_music-Steady :
    (sees : Sees) (u : Uplink) (done : List Action) → Steady u ((watch_music sees u done).0)
unfolding watch_music Steady
watch_music-Steady sees u done = ground arith

watch_stt-Steady :
    (sees : Sees) (u : Uplink) (done : List Action)
    → (sees.has_ws && sees.stt_completed) ≡ false
    → Steady u ((watch_stt sees u done).0)
unfolding watch_stt Steady
watch_stt-Steady sees u done h = rw h ((refl, refl))

speak-ring :
    (core : Core) (sees : Sees) (frame : List ℤ) (v : Vad) (u : Uplink) (done : List Action)
    → u.speech_active ≡ true
    → (speak core sees frame v u done).0.ring ≡ u.ring
unfolding speak
speak-ring core sees frame v u done h = rw h

answered :
    (core : Core) (sees : Sees) (frame : List ℤ) (o : Option Vad) (u : Uplink) (done : List Action)
    → u.speech_active ≡ true
    → (answer core sees frame o u done).0.ring ≡ u.ring
unfolding answer
answered core sees frame none u done h = refl
answered core sees frame (some v) u done h = speak-ring core sees frame v u done h

-- A turn that starts during speech, with no session whose recognition is complete, changes nothing
-- of the ring, whatever the detector answers: the end of speech leaves in it the frames that were
-- there at its start.
pub turn-keeps_ring :
    (core : Core) (sees : Sees) (frame : List ℤ) (u : Uplink)
    → u.speech_active ≡ true
    → (sees.has_ws && sees.stt_completed) ≡ false
    → (turn core sees frame u).0.ring ≡ u.ring
unfolding turn Steady
turn-keeps_ring core sees frame u active going =
    let heard = watch_music sees u [] in
    let (a, b) = watch_music-Steady sees u [] in
    let (c, d) = watch_stt-Steady sees (heard.0) (heard.1) going in
    let gate = gate_filter core.thresholds frame (watch_stt sees (heard.0) (heard.1)).0.gate in
    elim (Bool-cases (length frame == core.frame_samples * channels)) [
      | inl t ↦ rw t (
          answered core sees frame (core.vad (gate.1))
            (record ((watch_stt sees (heard.0) (heard.1)).0) { gate = gate.0 })
            ((watch_stt sees (heard.0) (heard.1)).1) (d ∙ b ∙ active)
          ∙ c
          ∙ a)
      | inr n ↦ rw n
    ]
