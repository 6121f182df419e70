-- ===== src/Tts/Thread/Handles.antt =====
-- How src/udp_tts.c handles its playback.
use rockchip_1106_voice_agen.Prelude.Int.{ℤ}
use rockchip_1106_voice_agen.Tts.{
  Tts, Act, open_playback, write_playback, flush_playback, drain_playback, close_playback, is_same,
  release_playback, Store, clear_running, raise_flush, clear_playing, clear_stale, mark_stale,
  next_generation, clear_last_audio, clear_count, clear_chat, flush_active, stop_transport,
  interrupt_transport, perform, tts_start, tts_set_playing,
}
use rockchip_1106_voice_agen.Tts.Thread.{
  Pc, top, reading, emptied, got, current, opening, decoding, decoded, writing, draining,
  draining_read, draining_got, round_end, exited, Look, Out, answer_flush, leave, after_read,
  end_drop, end_idle, after_empty, open_for, count_packet, play_pcm, write_pcm, end_round, step,
  thread_begin,
}
use rockchip_1106_voice_agen.Tts.Thread.Events.{
  Happens, thread, store, set_playing, started, is_joined, happen, run, never_two,
}
use rockchip_1106_voice_agen.Prelude.{
  ℕ, ◌≡◌, refl, sym, ap, ◌∙◌, inl, inr, Bool, true, false, Option, none, some, List, [], ◌∷◌, ◌++◌,
  arith, if◌then◌else◌, Option-cases,
}

-- One call at the sound driver with this playback open: `none` if it may not be made.
abbrev pub use_one : Act → Option ℕ → Option (Option ℕ)
use_one (open_playback h) none = some (some h)
use_one (open_playback h) (some g) = none
use_one (write_playback h pcm) held = if is_same held h then some held else none
use_one (flush_playback h) held = if is_same held h then some held else none
use_one (drain_playback h) held = if is_same held h then some held else none
use_one (close_playback h) held = if is_same held h then some none else none
use_one _ held = some held

-- The calls in order: what is open after them, or `none` if one may not be made.
pub uses : List Act → Option ℕ → Option (Option ℕ)
uses [] held = some held
uses (a ∷ as') held = elim (use_one a held) [ none ↦ none | some held' ↦ uses as' held' ]

uses-append :
    (as' bs : List Act) (held held' : Option ℕ)
    → uses as' held ≡ some held'
    → uses (as' ++ bs) held ≡ uses bs held'
unfolding uses
uses-append [] bs held held' h = ground arith
uses-append (a ∷ as') bs held held' h = elim (Option-cases (use_one a held)) [
  | inl e ↦ cc (rw (e, uses) at h)
  | inr (k, e) ↦ rw (e, uses) (uses-append as' bs k held' (rw (uses, e) at h))
]

-- g_tts_active_playback is the playback of the thread or NULL.
abbrev pub tracks : Tts → Bool
tracks t = elim t.active_playback [ none ↦ true | some h ↦ is_same t.playback h ]

-- Where the thread has left, nothing is open.
abbrev pub is_shut : Pc → Tts → Bool
is_shut exited t = elim t.playback [ none ↦ true | some h ↦ false ]
is_shut _ t = true

record Proper (o : Out) (held : Option ℕ) : Type 0 where
  used : uses o.acts held ≡ some o.tts.playback
  kept : tracks o.tts ≡ true
  shut : is_shut o.pc o.tts ≡ true

module _ (gain : ℤ → ℤ) where
  step-Proper :
      (l : Look) (pc : Pc) (t : Tts)
      → tracks t ≡ true
      → is_shut pc t ≡ true
      → Proper (step gain l pc t) t.playback
  unfolding uses step answer_flush leave after_read end_drop end_idle after_empty open_for play_pcm
      write_pcm end_round release_playback count_packet
  step-Proper l top t k q = ground arith
  step-Proper l (reading g) t k q = ground arith
  step-Proper l (got f) t k q = ground arith
  step-Proper l (current f) t k q = ground arith
  step-Proper l (opening f) t k q = ground arith
  step-Proper l (decoding f) t k q = ground arith
  step-Proper l (decoded pcm) t k q = ground arith
  step-Proper l (writing pcm) t k q = ground arith
  step-Proper l draining t k q = ground arith
  step-Proper l (draining_read g) t k q = ground arith
  step-Proper l (draining_got f) t k q = ground arith
  step-Proper l round_end t k q = ground arith
  step-Proper l exited t k q = ground arith
  step-Proper l (emptied pending) t k q = ground arith

  perform-Proper :
      (s : Store) (pc : Pc) (t : Tts)
      → tracks t ≡ true
      → is_shut pc t ≡ true
      → let r = perform s t in Proper (record { pc = pc; tts = r.0; acts = r.1 }) t.playback
  unfolding uses perform
  perform-Proper clear_running pc t k q = ground arith
  perform-Proper raise_flush pc t k q = ground arith
  perform-Proper clear_playing pc t k q = ground arith
  perform-Proper clear_stale pc t k q = ground arith
  perform-Proper mark_stale pc t k q = ground arith
  perform-Proper next_generation pc t k q = ground arith
  perform-Proper clear_last_audio pc t k q = ground arith
  perform-Proper clear_count pc t k q = ground arith
  perform-Proper clear_chat pc t k q = ground arith
  perform-Proper flush_active pc t k q = ground arith
  perform-Proper stop_transport pc t k q = ground arith
  perform-Proper interrupt_transport pc t k q = ground arith

  happen-Proper :
      (e : Happens) (pc : Pc) (t : Tts)
      → is_joined e pc t ≡ true
      → tracks t ≡ true
      → is_shut pc t ≡ true
      → Proper (happen gain e pc t) t.playback
  unfolding happen
  happen-Proper (thread l) pc t j k q = step-Proper l pc t k q
  happen-Proper (store s) pc t j k q = perform-Proper s pc t k q
  happen-Proper (set_playing b) pc t j k q = unfold uses tts_set_playing in ground arith
  happen-Proper (started ws transport created made) exited t j k q =
      unfold uses tts_start thread_begin in ground arith
  happen-Proper (started ws transport created made) pc t j k q =
      unfold uses tts_start thread_begin in ground arith

  run-Proper :
      (es : List Happens) (pc : Pc) (t : Tts)
      → never_two gain es pc t ≡ true
      → tracks t ≡ true
      → is_shut pc t ≡ true
      → Proper (run gain es pc t) t.playback
  unfolding run never_two
  run-Proper [] pc t j k q = record { used = unfold uses in refl; kept = k; shut = q }
  run-Proper (e ∷ es) pc t j k q =
      let o = happen gain e pc t in
      let first = happen-Proper e pc t (ground arith) k q in
      let rest = run-Proper es o.pc o.tts (ground arith) first.kept first.shut in
      record {
        used = uses-append o.acts _ t.playback o.tts.playback first.used ∙ rest.used;
        kept = rest.kept;
        shut = rest.shut;
      }

  -- From a start without a playback, however the steps of zh_udp_tts_stop, zh_udp_tts_interrupt,
  -- zh_udp_tts_set_playing and zh_udp_tts_start come between those of the thread, if no start makes a
  -- thread before the last one has left: a playback is opened only while none is open, only the one
  -- that is open is written, flushed, drained and closed, by the thread and by an interrupt, and
  -- while the thread has left, none is open.
  pub run-handles :
      (es : List Happens) (t : Tts)
      → never_two gain es top t ≡ true
      → t.playback ≡ none
      → t.active_playback ≡ none
      → let o = run gain es top t in
        (uses o.acts none ≡ some o.tts.playback) × (is_shut o.pc o.tts ≡ true)
  run-handles es t j p a =
      let o = run gain es top t in
      let proper = run-Proper es top t j (rw a refl) refl in
      (ap (λ held. uses o.acts held) (sym p) ∙ proper.used, proper.shut)
