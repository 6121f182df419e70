-- ===== src/Tts/Thread/Events.antt =====
-- The steps of the thread of src/udp_tts.c and of the entry points that other threads call, in any
-- order.
use mathlib.Core.List.{append_assoc}
use rockchip_1106_voice_agen.Prelude.Int.{ℤ}
use rockchip_1106_voice_agen.Tts.{Tts, Store, perform, tts_start, tts_set_playing}
use rockchip_1106_voice_agen.Tts.Thread.{Pc, exited, Look, Out, thread_begin, step}
use rockchip_1106_voice_agen.Prelude.{
  ℕ, suc, ◌≡◌, refl, Bool, true, false, not, ◌&&◌, ◌||◌, none, List, [], ◌∷◌, ◌++◌, if◌then◌else◌,
}

-- What happens: a step of the thread, or of an entry point that another thread calls.
pub data Happens : Type 0 where
  thread : Look → Happens
  store : Store → Happens  -- one step of zh_udp_tts_stop or zh_udp_tts_interrupt
  set_playing : Bool → Happens
  started : Bool → Bool → Bool → Bool → Happens  -- zh_udp_tts_start, and opus_decoder_create behind it

-- The steps of an entry point, each with what happens behind it.
unfoldable pub weave : List Store → (ℕ → List Happens) → List Happens
weave [] others = []
weave (s ∷ ss) others = store s ∷ (others 0 ++ weave ss (λ n. others (suc n)))

abbrev pub is_gone : Pc → Bool
is_gone exited = true
is_gone _ = false

-- A call of zh_udp_tts_start that makes a thread makes it when the last one has left.
abbrev pub is_joined : Happens → Pc → Tts → Bool
is_joined (started ws transport created made) pc t =
    t.play_running || not (transport && created) || is_gone pc
is_joined _ pc t = true

module _ (gain : ℤ → ℤ) where
  -- A second thread, which a start makes while the first one has not left, is not followed.
  unfoldable pub happen : Happens → Pc → Tts → Out
  unfolding thread_begin
  happen (thread l) pc t = step gain l pc t
  happen (store s) pc t = let r = perform s t in record { pc = pc; tts = r.0; acts = r.1 }
  happen (set_playing b) pc t = record { pc = pc; tts = tts_set_playing b t; acts = [] }
  happen (started ws transport created made) pc t =
      let r = tts_start ws transport created t in
      if transport && created && not t.play_running && is_gone pc
      then thread_begin made (record r.0 { playback = none })
      else record { pc = pc; tts = r.0; acts = r.2 }

  unfoldable pub run : List Happens → Pc → Tts → Out
  unfolding happen
  run [] pc t = record { pc = pc; tts = t; acts = [] }
  run (e ∷ es) pc t =
      let o = happen e pc t in
      let rest = run es o.pc o.tts in record rest { acts = o.acts ++ rest.acts }

  pub run-append :
      (xs ys : List Happens) (pc : Pc) (t : Tts)
      → let o = run xs pc t in
        let r = run ys o.pc o.tts in run (xs ++ ys) pc t ≡ record r { acts = o.acts ++ r.acts }
  unfolding run
  run-append [] ys pc t = refl
  run-append (e ∷ xs) ys pc t =
      let o = happen e pc t in
      let q = run xs o.pc o.tts in
      let r = run ys q.pc q.tts in
      rw (run-append xs ys o.pc o.tts, append_assoc o.acts q.acts r.acts) refl

  -- Each start that makes a thread makes it when the last one has left.
  unfoldable pub never_two : List Happens → Pc → Tts → Bool
  never_two [] pc t = true
  never_two (e ∷ es) pc t = let o = happen e pc t in is_joined e pc t && never_two es o.pc o.tts
