-- ===== src/Music/Decoder/Driver.antt =====
-- How the decoder of src/music_player.c handles its playback.
use rockchip_1106_voice_agen.Prelude.Int.{ℤ}
use rockchip_1106_voice_agen.Music.Decoder.{
  Decoder, Decoded, Sound, opens, plays, drains, flushes, closes, Turn, Verdict, fails, continues,
  starves, Fed, decoder_open, play_pcm, ensure_open, at_play_rate, amplify, play_opened, play_frame,
  frame_outcome, resume, settle, wanted_cap, feed_loop, decoder_feed,
}
use rockchip_1106_voice_agen.Prelude.{
  ℕ, zero, suc, ◌+◌, ◌*◌, ◌≡◌, refl, sym, ap, ◌∙◌, inl, inr, Bool, true, false, not, ◌&&◌, Option,
  none, some, List, [], ◌∷◌, ◌++◌, arith, ltb, ◌==◌, if◌then◌else◌, length, take, drop, Bool-cases,
  Option-cases,
}

-- The one playback that a source may open: not yet, open, or closed for good.
pub data Use : Type 0 where
  unopened : Use
  in_use : ℕ → Use
  over : Use

-- One call at the driver: `none` if it may not be made. A playback is opened only where none has been
-- open before, and closed, written, drained and flushed only while it is open.
abbrev pub sound_one : Sound → Use → Option Use
sound_one (opens h) unopened = some (in_use h)
sound_one (opens h) (in_use g) = none
sound_one (opens h) over = none
sound_one (closes h) (in_use g) = if g == h then some over else none
sound_one (plays h pcm) (in_use g) = if g == h then some (in_use g) else none
sound_one (drains h) (in_use g) = if g == h then some (in_use g) else none
sound_one (flushes h) (in_use g) = if g == h then some (in_use g) else none
sound_one _ unopened = none
sound_one _ over = none

-- The calls in order: what has become of the playback, or `none` if one may not be made.
unfoldable pub sound_all : List Sound → Use → Option Use
sound_all [] held = some held
sound_all (a ∷ as') held = elim (sound_one a held) [
  | none ↦ none
  | some held' ↦ sound_all as' held'
]

pub sound_all-append :
    (as' bs : List Sound) (held held' : Use)
    → sound_all as' held ≡ some held'
    → sound_all (as' ++ bs) held ≡ sound_all bs held'
unfolding sound_all
sound_all-append [] bs held held' h = ground arith
sound_all-append (a ∷ as') bs held held' h = elim (Option-cases (sound_one a held)) [
  | inl e ↦ cc (rw (e, sound_all) at h)
  | inr (k, e) ↦ rw (e, sound_all) (sound_all-append as' bs k held' (rw (sound_all, e) at h))
]

-- The use of a decoder that has not been reset, by its playback.
abbrev pub use_of : Option ℕ → Use
use_of none = unopened
use_of (some h) = in_use h

-- The decoder knows whether its playback is open.
abbrev pub is_open : Option ℕ → Bool
is_open none = false
is_open (some h) = true

pub record Driven {D : Type 0} (held : Option ℕ) (r : Decoder D) (sounds : List Sound)
    : Type 0 where
  pub driven : sound_all sounds (use_of held) ≡ some (use_of r.play)
  pub knows : r.opened ≡ is_open r.play

module _ {D : Type 0} (decode : D → List ℕ → Decoded D)
    (resample : List ℤ → ℕ → ℕ → ℕ → ℕ → ℕ → ℕ × List ℤ) (scale : Option (ℤ → ℤ)) where
  decoder_open-Driven :
      (n : ℕ) (tries : List (Bool × Option ℕ)) (d : Decoder D)
      → d.play ≡ none
      → d.opened ≡ false
      → let o = decoder_open n tries d in Driven none o.0 o.2
  unfolding decoder_open sound_all
  decoder_open-Driven zero tries d p q = ground arith
  decoder_open-Driven (suc n) [] d p q = ground arith
  decoder_open-Driven (suc n) ((true, answer) ∷ tries) d p q = ground arith
  decoder_open-Driven (suc n) ((false, none) ∷ tries) d p q = decoder_open-Driven n tries d p q
  decoder_open-Driven (suc n) ((false, some h) ∷ tries) d p q = ground arith

  opened_from_none :
      (t : Turn) (d : Decoder D)
      → d.opened ≡ is_open d.play
      → d.opened ≡ false
      → let o = decoder_open 50 t.tries d in Driven d.play o.0 o.2
  opened_from_none t d k shut =
      let p : d.play ≡ none = ground arith in
      let o = decoder_open 50 t.tries d in
      let r = decoder_open-Driven 50 t.tries d p shut in
      record { driven = ap (λ x. sound_all o.2 (use_of x)) p ∙ r.driven; knows = r.knows }

  opening_of :
      (held : Option ℕ) (b c : Bool) (ch : ℕ) (d o : Decoder D) (l : List Sound)
      → d.opened ≡ b
      → d.play ≡ held
      → b ≡ is_open held
      → (b ≡ false → Driven held o l)
      → let r : Decoder D × Bool × List Sound =
          if b
          then (d, true, [])
          else (if c then record o { play_rate = 16000; channels = ch } else o, c, l) in
        Driven held r.0 r.2
  opening_of held true c ch d o l e p k f = unfold sound_all in ground arith
  opening_of held false true ch d o l e p k f = record {
    driven = (f refl).driven;
    knows = (f refl).knows;
  }
  opening_of held false false ch d o l e p k f = f refl

  played_keeps :
      (play : Option ℕ) (t : Turn) (pcm : List ℤ) (frames : ℕ)
      → sound_all (play_pcm t play pcm frames).1 (use_of play) ≡ some (use_of play)
  unfolding play_pcm sound_all
  played_keeps none t pcm frames = refl
  played_keeps (some h) t pcm frames = ground arith

  at_play_rate-keeps :
      (t : Turn) (f : Decoded D) (rate : ℕ) (d d' : Decoder D) (frames : ℕ) (pcm : List ℤ)
      → at_play_rate decode resample scale t f rate d ≡ some (d', frames, pcm)
      → (d'.play ≡ d.play) × (d'.opened ≡ d.opened)
  unfolding at_play_rate
  at_play_rate-keeps t f rate d d' frames pcm e = ground arith

  sounded-Driven :
      (held : Option ℕ) (t : Turn) (pcm : List ℤ) (frames : ℕ) (d d' : Decoder D) (l : List Sound)
      → Driven held d l
      → (d'.play ≡ d.play) × (d'.opened ≡ d.opened)
      → Driven held d' (l ++ (play_pcm t d'.play pcm frames).1)
  sounded-Driven held t pcm frames d d' l h (p, o) = record {
    driven =
        sound_all-append l (play_pcm t d'.play pcm frames).1 (use_of held) (use_of d'.play)
          (h.driven ∙ ap (λ x. some (use_of x)) (sym p))
        ∙ played_keeps d'.play t pcm frames;
    knows = o ∙ h.knows ∙ ap is_open (sym p);
  }

  play_opened-Driven :
      (held : Option ℕ) (t : Turn) (f : Decoded D) (rate : ℕ) (d : Decoder D) (o : Bool)
      (l : List Sound)
      → Driven held d l
      → let p = play_opened decode resample scale t f rate d o l in Driven held p.0 p.2
  unfolding play_opened
  play_opened-Driven held t f rate d false l h = h
  play_opened-Driven held t f rate d true l h =
      elim (Option-cases (at_play_rate decode resample scale t f rate d)) [
        | inl e ↦ rw (play_opened, e) h
        | inr ((d', frames, pcm), e) ↦
            let same = at_play_rate-keeps t f rate d d' frames pcm e in
            elim (Bool-cases (frames == 0)) [
              | inl z ↦
                  rw (play_opened, e, z)
                    (record {
                      driven = h.driven ∙ ap (λ x. some (use_of x)) (sym same.0);
                      knows = same.1 ∙ h.knows ∙ ap is_open (sym same.0);
                    })
              | inr z ↦
                  rw (play_opened, e, z)
                    (sounded-Driven held t (amplify scale (take (frames * d'.channels) pcm)) frames
                      d d' l h same)
            ]
      ]

  frame_outcome-Driven :
      (t : Turn) (f : Decoded D) (d : Decoder D)
      → d.opened ≡ is_open d.play
      → let p = frame_outcome decode resample scale t f d in Driven d.play p.0 p.2
  unfolding frame_outcome play_frame ensure_open
  frame_outcome-Driven t f d k = elim (Bool-cases (f.samples == 0)) [
    | inl e ↦ rw e (record { driven = unfold sound_all in refl; knows = k })
    | inr e ↦
        let ch = if f.frame_channels == 0 then 1 else f.frame_channels in
        let o = decoder_open 50 t.tries d in
        let opened = ensure_open t ch d in
        rw e (
          play_opened-Driven d.play t f (if f.hz == 0 then 16000 else f.hz) opened.0 opened.1
            opened.2
            (opening_of d.play d.opened o.1 ch d o.0 o.2 refl refl k
              (λ shut. opened_from_none t d k shut)))
  ]

  pub then_Driven :
      (held : Option ℕ) (p r : Decoder D) (l m : List Sound)
      → Driven held p l
      → Driven p.play r m
      → Driven held r (l ++ m)
  then_Driven held p r l m a b = record {
    driven = sound_all-append l m (use_of held) (use_of p.play) a.driven ∙ b.driven;
    knows = b.knows;
  }

  pub idle_Driven : (d : Decoder D) → d.opened ≡ is_open d.play → Driven d.play d []
  unfolding sound_all
  idle_Driven d k = record { driven = refl; knows = k }

  resume-Driven :
      (held : Option ℕ) (v : Verdict) (p : Decoder D) (bytes : List ℕ) (l : List Sound)
      (more : Fed D)
      → Driven held p l
      → Driven p.play more.decoder more.sounds
      → let o = resume v p bytes l more in Driven held o.decoder o.sounds
  unfolding resume
  resume-Driven held continues p bytes l more a b =
      then_Driven held p more.decoder l more.sounds a b
  resume-Driven held fails p bytes l more a b = a
  resume-Driven held starves p bytes l more a b = a

  stopped_Driven :
      (d : Decoder D) (s : D)
      → d.opened ≡ is_open d.play
      → Driven d.play (record d { state = s }) []
  unfolding sound_all
  stopped_Driven d s k = record { driven = refl; knows = k }

  branch_Driven :
      (a e : Bool) (held : Option ℕ) (x y z : Fed D)
      → Driven held x.decoder x.sounds
      → Driven held y.decoder y.sounds
      → Driven held z.decoder z.sounds
      → let o : Fed D = if a then x else if e then y else z in Driven held o.decoder o.sounds
  branch_Driven true e held x y z hx hy hz = hx
  branch_Driven false true held x y z hx hy hz = hy
  branch_Driven false false held x y z hx hy hz = hz

  feed_loop-Driven :
      (fuel : ℕ) (turns : ℕ → Turn) (bytes : List ℕ) (d : Decoder D)
      → d.opened ≡ is_open d.play
      → let o = feed_loop decode resample scale fuel turns bytes d in
        Driven d.play o.decoder o.sounds
  unfolding feed_loop
  feed_loop-Driven zero turns [] d k = idle_Driven d k
  feed_loop-Driven (suc fuel) turns [] d k = idle_Driven d k
  feed_loop-Driven zero turns (b ∷ bs) d k = idle_Driven d k
  feed_loop-Driven (suc fuel) turns (b ∷ bs) d k =
      let f = decode d.state (b ∷ bs) in
      let d' = record d { state = f.next } in
      let p = frame_outcome decode resample scale (turns 0) f d' in
      let first = frame_outcome-Driven (turns 0) f d' k in
      let rest =
        feed_loop-Driven fuel (λ n. turns (suc n)) (drop f.frame_bytes (b ∷ bs)) p.0 first.knows in
      branch_Driven (turns 0).abort (f.frame_bytes == 0) d.play _ _ _ (idle_Driven d k)
        (stopped_Driven d f.next k) (resume-Driven d.play p.1 p.0 (b ∷ bs) p.2 _ first rest)

  settle-Driven :
      (v : Verdict) (held : Option ℕ) (fed : Fed D)
      → Driven held fed.decoder fed.sounds
      → let r = settle v fed in Driven held r.0 r.2
  unfolding settle
  settle-Driven continues held fed h = record { driven = h.driven; knows = h.knows }
  settle-Driven fails held fed h = h
  settle-Driven starves held fed h = h

  pick_Driven :
      (a : Bool) (held : Option ℕ) (x y : Decoder D × Verdict × List Sound)
      → Driven held x.0 x.2
      → Driven held y.0 y.2
      → let o : Decoder D × Verdict × List Sound = if a then x else y in Driven held o.0 o.2
  pick_Driven true held x y hx hy = hx
  pick_Driven false held x y hx hy = hy

  pub decoder_feed-Driven :
      (alloc : Bool) (turns : ℕ → Turn) (bytes : List ℕ) (d : Decoder D)
      → d.opened ≡ is_open d.play
      → let r = decoder_feed decode resample scale alloc turns bytes d in Driven d.play r.0 r.2
  unfolding decoder_feed
  decoder_feed-Driven alloc turns [] d k = idle_Driven d k
  decoder_feed-Driven alloc turns (x ∷ xs) d k =
      let need = length d.bytes + length (x ∷ xs) in
      let all = d.bytes ++ (x ∷ xs) in
      let held = record d {
        bytes = all;
        cap = if ltb d.cap need then wanted_cap d.cap need else d.cap;
      } in
      let fed = feed_loop decode resample scale (length all) turns all held in
      pick_Driven (ltb d.cap need && not alloc) d.play (d, fails, []) (settle fed.verdict fed)
        (idle_Driven d k)
        (settle-Driven fed.verdict d.play fed (feed_loop-Driven (length all) turns all held k))
