-- ===== src/Tts/Thread/Silence.antt =====
-- What the thread of src/udp_tts.c plays after an interrupt.
use rockchip_1106_voice_agen.Prelude.Int.{ℤ}
use rockchip_1106_voice_agen.Tts.{
  Tts, Act, open_playback, write_playback, flush_playback, drain_playback, close_playback,
  reset_decoder, destroy_decoder, interrupt_music, play_pending_music, transport_stop,
  transport_interrupt, release_playback, Store, clear_running, raise_flush, clear_playing,
  clear_stale, mark_stale, next_generation, clear_last_audio, clear_count, clear_chat, flush_active,
  stop_transport, interrupt_transport, perform, tts_interrupt, tts_set_playing,
}
use rockchip_1106_voice_agen.Tts.Thread.{
  nothing, Pc, top, reading, emptied, got, current, opening, decoding, decoded, writing, draining,
  draining_read, draining_got, round_end, exited, Look, Out, answer_flush, leave, after_read,
  end_drop, end_idle, after_empty, open_for, count_packet, play_pcm, write_pcm, end_round, step,
}
use rockchip_1106_voice_agen.Tts.Thread.Events.{
  Happens, thread, store, set_playing, started, weave, happen, run,
}
use rockchip_1106_voice_agen.Prelude.{
  ℕ, ◌+◌, take, drop, ◌≡◌, refl, ap, ◌∙◌, Bool, true, false, not, ◌&&◌, ◌||◌, List, [], ◌∷◌, ◌++◌,
  arith,
}

-- The sound that is written.
unfoldable pub writes : List Act → List (List ℤ)
writes [] = []
writes (write_playback h pcm ∷ as') = pcm ∷ writes as'
writes (open_playback h ∷ as') = writes as'
writes (flush_playback h ∷ as') = writes as'
writes (drain_playback h ∷ as') = writes as'
writes (close_playback h ∷ as') = writes as'
writes (reset_decoder ∷ as') = writes as'
writes (destroy_decoder ∷ as') = writes as'
writes (interrupt_music ∷ as') = writes as'
writes (play_pending_music ∷ as') = writes as'
writes (transport_stop ∷ as') = writes as'
writes (transport_interrupt ∷ as') = writes as'

pub writes-append : (as' bs : List Act) → writes (as' ++ bs) ≡ writes as' ++ writes bs
unfolding writes
writes-append [] bs = refl
writes-append (write_playback h pcm ∷ as') bs = ap (λ l. pcm ∷ l) (writes-append as' bs)
writes-append (open_playback h ∷ as') bs = writes-append as' bs
writes-append (flush_playback h ∷ as') bs = writes-append as' bs
writes-append (drain_playback h ∷ as') bs = writes-append as' bs
writes-append (close_playback h ∷ as') bs = writes-append as' bs
writes-append (reset_decoder ∷ as') bs = writes-append as' bs
writes-append (destroy_decoder ∷ as') bs = writes-append as' bs
writes-append (interrupt_music ∷ as') bs = writes-append as' bs
writes-append (play_pending_music ∷ as') bs = writes-append as' bs
writes-append (transport_stop ∷ as') bs = writes-append as' bs
writes-append (transport_interrupt ∷ as') bs = writes-append as' bs

-- The thread has just seen that the core has no more data.
abbrev pub is_dry : Pc → Bool
is_dry (emptied pending) = not pending
is_dry _ = false

-- A frame is in hand that has passed the test for stale data.
abbrev pub is_passed : Pc → Bool
is_passed (opening f) = true
is_passed (decoding f) = true
is_passed (decoded pcm) = true
is_passed (writing pcm) = true
is_passed _ = false

-- The thread is about to write a frame, with no test between.
abbrev pub is_writing : Pc → Bool
is_writing (writing pcm) = true
is_writing _ = false

-- Nothing can be played: no frame is being written, and the thread is to stop, or frames are dropped
-- and the one in hand, if it has passed, meets a flush.
quiet : Pc → Tts → Bool
quiet pc t =
    not (is_writing pc)
    && (not t.play_running
        || (t.drop_stale_pending && (t.flush_pending || not (is_passed pc)) && not (is_dry pc)))

-- A read of nothing finds data pending, no thread is started, and the mark of stale data is taken
-- back by no other thread, unless `off` says that the thread is told to stop.
abbrev pub keeps_data : Bool → Happens → Bool
keeps_data off (thread l) = elim l.read [ nothing ↦ l.pending | _ ↦ true ]
keeps_data off (store clear_stale) = off
keeps_data off (started ws transport created made) = false
keeps_data off _ = true

abbrev pub tells_to_stop : Happens → Bool
tells_to_stop (store clear_running) = true
tells_to_stop _ = false

abbrev pub all_keep_data : Bool → List Happens → Bool
all_keep_data off [] = true
all_keep_data off (e ∷ es) = keeps_data off e && all_keep_data (off || tells_to_stop e) es

record Still (off : Bool) (o : Out) : Type 0 where
  silent : writes o.acts ≡ []
  stays : quiet o.pc o.tts ≡ true
  told : off && o.tts.play_running ≡ false

module _ (gain : ℤ → ℤ) where
  step-Still :
      (off : Bool) (l : Look) (pc : Pc) (t : Tts)
      → keeps_data off (thread l) ≡ true
      → off && t.play_running ≡ false
      → quiet pc t ≡ true
      → Still off (step gain l pc t)
  unfolding quiet step writes answer_flush leave after_read end_drop end_idle after_empty open_for
      play_pcm write_pcm end_round release_playback count_packet
  step-Still off l top t k n q = ground arith
  step-Still off l (reading g) t k n q = ground arith
  step-Still off l (got f) t k n q = ground arith
  step-Still off l (current f) t k n q = ground arith
  step-Still off l (opening f) t k n q = ground arith
  step-Still off l (decoding f) t k n q = ground arith
  step-Still off l (decoded pcm) t k n q = ground arith
  step-Still off l (writing pcm) t k n q = ground arith
  step-Still off l draining t k n q = ground arith
  step-Still off l (draining_read g) t k n q = ground arith
  step-Still off l (draining_got f) t k n q = ground arith
  step-Still off l round_end t k n q = ground arith
  step-Still off l exited t k n q = ground arith
  step-Still off l (emptied pending) t k n q = ground arith

  perform-Still :
      (off : Bool) (s : Store) (pc : Pc) (t : Tts)
      → keeps_data off (store s) ≡ true
      → off && t.play_running ≡ false
      → quiet pc t ≡ true
      → let r = perform s t in
        Still (off || tells_to_stop (store s)) (record { pc = pc; tts = r.0; acts = r.1 })
  unfolding quiet writes perform
  perform-Still off clear_running pc t k n q = ground arith
  perform-Still off raise_flush pc t k n q = ground arith
  perform-Still off clear_playing pc t k n q = ground arith
  perform-Still off clear_stale pc t k n q = ground arith
  perform-Still off mark_stale pc t k n q = ground arith
  perform-Still off next_generation pc t k n q = ground arith
  perform-Still off clear_last_audio pc t k n q = ground arith
  perform-Still off clear_count pc t k n q = ground arith
  perform-Still off clear_chat pc t k n q = ground arith
  perform-Still off flush_active pc t k n q = ground arith
  perform-Still off stop_transport pc t k n q = ground arith
  perform-Still off interrupt_transport pc t k n q = ground arith

  happen-Still :
      (off : Bool) (e : Happens) (pc : Pc) (t : Tts)
      → keeps_data off e ≡ true
      → off && t.play_running ≡ false
      → quiet pc t ≡ true
      → Still (off || tells_to_stop e) (happen gain e pc t)
  unfolding happen
  happen-Still true (thread l) pc t k n q = step-Still true l pc t k n q
  happen-Still false (thread l) pc t k n q = step-Still false l pc t k n q
  happen-Still off (store s) pc t k n q = perform-Still off s pc t k n q
  happen-Still off (set_playing b) pc t k n q = unfold quiet writes tts_set_playing in ground arith
  happen-Still off (started ws transport created made) pc t k n q = cc

  run-silent :
      (off : Bool) (es : List Happens) (pc : Pc) (t : Tts)
      → all_keep_data off es ≡ true
      → off && t.play_running ≡ false
      → quiet pc t ≡ true
      → writes (run gain es pc t).acts ≡ []
  unfolding run
  run-silent off [] pc t k n q = unfold writes in refl
  run-silent off (e ∷ es) pc t k n q =
      let o = happen gain e pc t in
      let first = happen-Still off e pc t (ground arith) n q in
      let rest =
        run-silent (off || tells_to_stop e) es o.pc o.tts (ground arith) first.told first.stays in
      writes-append o.acts _
      ∙ ap (λ l. l ++ writes (run gain es o.pc o.tts).acts) first.silent
      ∙ rest

  -- The steps of an interrupt happen one after the other, with any events behind each. Suppose that,
  -- when it marks the data of the core as stale, the thread has not just seen the core dry, is not
  -- between the last test and the write of a frame, and either has not yet answered the flush that the
  -- interrupt has asked for or has no frame in hand that has passed the test for stale data. Then
  -- from there on no sound is written, while no read that finds nothing finds the core without
  -- pending data, no thread is started, and nobody takes the mark back but one who has told the thread
  -- to stop.
  pub tts_interrupt-silent :
      (others : ℕ → List Happens) (pc : Pc) (t : Tts)
      → let before = run gain (weave (take 2 tts_interrupt) others) pc t in
        let rest = weave (drop 2 tts_interrupt) (λ n. others (n + 2)) in
        is_dry before.pc ≡ false
        → is_writing before.pc ≡ false
        → before.tts.flush_pending || not (is_passed before.pc) ≡ true
        → all_keep_data false rest ≡ true
        → writes (run gain rest before.pc before.tts).acts ≡ []
  unfolding tts_interrupt weave run happen perform
  tts_interrupt-silent others pc t dry idle held kept =
      let before = run gain (weave (take 2 tts_interrupt) others) pc t in
      let marked : Tts = record before.tts { drop_stale_pending = true } in
      run-silent false (weave (drop 2 tts_interrupt) (λ n. others (n + 2))) before.pc marked kept
        refl (unfold quiet in ground arith)
