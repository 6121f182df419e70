-- ===== src/Tts/Thread/Plays.antt =====
-- What the thread of src/udp_tts.c plays while nobody interrupts it.
use rockchip_1106_voice_agen.Prelude.Int.{ℤ}
use rockchip_1106_voice_agen.Tts.{Tts}
use rockchip_1106_voice_agen.Tts.Thread.{
  opus, draining, Look, Out, count_packet, play_pcm, write_pcm, step,
}
use rockchip_1106_voice_agen.Tts.Thread.Events.{Happens, thread, happen, run, run-append}
use rockchip_1106_voice_agen.Tts.Thread.Silence.{writes, writes-append}
use rockchip_1106_voice_agen.Prelude.{
  ℕ, suc, ◌+◌, ◌%◌, ◌^◌, ◌<◌, ◌≡◌, refl, true, false, none, some, List, [], ◌∷◌, ◌++◌, map, arith,
  length,
}

-- A frame that the core hands out and what the decoder makes of it, with the other answers.
pub record Frame : Type 0 where
  pub look : Look
  pub first : ℕ
  pub others : List ℕ
  pub sound : List ℤ

-- The six steps of the inner loop for it, in a conversation without a number.
abbrev pub frame_look : Frame → Look
frame_look f = record f.look {
  read = opus (f.first ∷ f.others);
  pcm = some f.sound;
  chat_count = none;
}

pub frame_steps : Frame → List Happens
frame_steps f = let l = thread (frame_look f) in l ∷ l ∷ l ∷ l ∷ l ∷ l ∷ []

pub burst : List Frame → List Happens
burst [] = []
burst (f ∷ fs) = frame_steps f ++ burst fs

-- The thread has its playback open and nobody has interrupted or stopped it.
abbrev pub Plays : Tts → ℕ → Type 0
Plays t h =
    (t.playback ≡ some h)
    × (t.active_playback ≡ some h)
    × (t.play_running ≡ true)
    × (t.flush_pending ≡ false)
    × (t.drop_stale_pending ≡ false)

module _ (gain : ℤ → ℤ) where
  pub record Played (t : Tts) (h n : ℕ) (sounds : List (List ℤ)) (o : Out) : Type 0 where
    pub back : o.pc ≡ draining
    pub sounded : writes o.acts ≡ sounds
    pub counted : o.tts.packet_count ≡ (t.packet_count + n) % 2 ^ 64
    pub goes_on : Plays o.tts h

  frame-Played :
      (f : Frame) (t : Tts) (h : ℕ)
      → Plays t h
      → Played t h 1 (map gain f.sound ∷ []) (run gain (frame_steps f) draining t)
  unfolding run happen step play_pcm write_pcm count_packet writes frame_steps
  frame-Played f t h p = ground arith

  Played-then :
      (t : Tts) (h n : ℕ) (sound : List ℤ) (sounds : List (List ℤ)) (o r : Out)
      → Played t h 1 (sound ∷ []) o
      → Played o.tts h n sounds r
      → Played t h (suc n) (sound ∷ sounds) (record r { acts = o.acts ++ r.acts })
  Played-then t h n sound sounds o r a b = record {
    back = b.back;
    sounded = rw (writes-append o.acts r.acts, a.sounded, b.sounded) refl;
    counted = omega (arith, a.counted, b.counted);
    goes_on = b.goes_on;
  }

  -- While the playback is open and nobody interrupts or stops the voice, the frames that the core
  -- hands out one after the other in a conversation without a number are decoded, amplified and
  -- written each once, in their order, and counted (modulo 2^64); the thread is ready for the next.
  pub burst-Plays :
      (fs : List Frame) (t : Tts) (h : ℕ)
      → Plays t h
      → t.packet_count < 2 ^ 64
      → Played t h (length fs) (map (λ f. map gain f.sound) fs) (run gain (burst fs) draining t)
  unfolding burst
  burst-Plays [] t h p small = unfold writes run in ground arith
  burst-Plays (f ∷ fs) t h p small =
      let one = run gain (frame_steps f) draining t in
      let first = frame-Played f t h p in
      let rest = burst-Plays fs one.tts h first.goes_on (omega (arith, first.counted)) in
      rw (run-append gain (frame_steps f) (burst fs) draining t, first.back)
        (Played-then t h (length fs) (map gain f.sound) (map (λ f. map gain f.sound) fs) one
          (run gain (burst fs) draining one.tts) first rest)
