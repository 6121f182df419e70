-- ===== src/Tests/Speech.antt =====
-- Runs of the voice (src/udp_tts.c).
use rockchip_1106_voice_agen.Prelude.Int.{ℤ, pos, negsuc}
use rockchip_1106_voice_agen.Tts.{
  Tts, perform, release_playback, tts_start, tts_stop, tts_interrupt,
}
use rockchip_1106_voice_agen.Tts.Thread.{
  opus, top, opening, decoding, draining, Look, thread_begin, step, leave, answer_flush, after_read,
  open_for, play_pcm, write_pcm, end_round, count_packet,
}
use rockchip_1106_voice_agen.Tts.Thread.Events.{
  Happens, thread, started, weave, happen, run, never_two,
}
use rockchip_1106_voice_agen.Tts.Thread.Silence.{writes, tts_interrupt-silent}
use rockchip_1106_voice_agen.Tts.Thread.Handles.{uses, is_shut, run-handles}
use rockchip_1106_voice_agen.Tts.Thread.Plays.{Frame, burst, Played, burst-Plays}
use rockchip_1106_voice_agen.Prelude.{
  ℕ, zero, suc, ◌+◌, ◌/◌, ◌≡◌, refl, true, false, none, some, List, [], ◌∷◌, ◌++◌, arith, take,
  drop,
}

abbrev pub half : ℤ → ℤ
half (pos n) = pos (n / 2)
half (negsuc n) = negsuc (n / 2)

abbrev voice : Tts
voice = record {
  play_running = true;
  flush_pending = false;
  playing = true;
  drop_stale_pending = false;
  interrupt_generation = 0;
  packet_count = 3;
  packet_chat_count = negsuc 0;
  last_audio_ms = 100;
  open_fail_log_ms = 0;
  active_playback = some 7;
  playback = some 7;
  has_ws = true;
}

abbrev look : Look
look = record {
  read = opus (1 ∷ 2 ∷ []);
  pending = true;
  now = 200;
  music_active = false;
  opened = some 8;
  transport_running = true;
  completed = false;
  chat_count = none;
  pcm = some (pos 10 ∷ negsuc 3 ∷ []);
}

abbrev steps : List Happens
steps = thread look ∷ thread look ∷ thread look ∷ thread look ∷ thread look ∷ []

-- Five steps of the thread behind each step of an interrupt but the first two.
abbrev between : ℕ → List Happens
between zero = []
between (suc zero) = []
between (suc (suc n)) = steps

tts_interrupt-silent_example :
    let pc = decoding (1 ∷ 2 ∷ []) in
    let before = run half (weave (take 2 tts_interrupt) between) pc voice in
    writes
      (run half (weave (drop 2 tts_interrupt) (λ n. between (n + 2))) before.pc before.tts).acts
    ≡ []
tts_interrupt-silent_example =
    let pc = decoding (1 ∷ 2 ∷ []) in
    tts_interrupt-silent half between pc voice
      (unfold run weave happen tts_interrupt perform in refl)
      (unfold run weave happen tts_interrupt perform in refl)
      (unfold run weave happen tts_interrupt perform in refl) (unfold weave tts_interrupt in refl)

abbrev silent_voice : Tts
silent_voice = record voice { playback = none; active_playback = none }

-- An interrupt, a stop, and a start after the thread has left.
abbrev life : List Happens
life =
    steps
    ++ weave tts_interrupt (λ n. steps)
    ++ weave tts_stop (λ n. steps)
    ++ (started true true true true ∷ steps)

life-never_two : never_two half life top silent_voice ≡ true
unfolding never_two weave happen tts_interrupt tts_stop perform step leave answer_flush after_read
    open_for play_pcm write_pcm end_round release_playback count_packet tts_start thread_begin
life-never_two = refl

run-handles_example :
    let o = run half life top silent_voice in
    (uses o.acts none ≡ some o.tts.playback) × (is_shut o.pc o.tts ≡ true)
run-handles_example = run-handles half life silent_voice life-never_two refl refl

-- A frame that the thread has tested for stale data before an interrupt marks it, where the thread
-- has answered the flush already, is written after the interrupt.
stale_after_interrupt :
    let rest = weave (drop 2 tts_interrupt) (λ n. []) ++ steps in
    let t : Tts = record silent_voice { playing = false } in
    writes (run half rest (opening (1 ∷ 2 ∷ [])) t).acts ≡ (pos 5 ∷ negsuc 1 ∷ []) ∷ []
unfolding writes run weave happen tts_interrupt perform step leave answer_flush after_read open_for
    play_pcm write_pcm end_round release_playback count_packet
stale_after_interrupt = refl

abbrev frames : List Frame
frames =
    record { look = look; first = 1; others = 2 ∷ []; sound = pos 10 ∷ [] }
    ∷ record { look = look; first = 3; others = []; sound = negsuc 20 ∷ [] }
    ∷ []

burst-Plays_example :
    Played half voice 7 2
      ((pos 5 ∷ []) ∷ (negsuc 10 ∷ []) ∷ [])
      (run half (burst frames) draining voice)
burst-Plays_example = burst-Plays half frames voice 7 (refl, refl, refl, refl, refl) (omega arith)
