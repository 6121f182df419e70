-- ===== src/Music/Decoder/Taken.antt =====
-- What the loop of zh_music_decoder_feed (src/music_player.c) leaves of the buffer.
use rockchip_1106_voice_agen.Prelude.Int.{ℤ}
use rockchip_1106_voice_agen.Music.Decoder.{
  Decoder, Decoded, Sound, Turn, Verdict, fails, continues, starves, Fed, decoder_open, play_pcm,
  ensure_open, at_play_rate, play_opened, play_frame, frame_outcome, resume, feed_loop,
}
use mathlib.Core.List.{append_assoc}
use mathlib.Core.Path.{subst}
use rockchip_1106_voice_agen.Prelude.{
  ℕ, zero, suc, ◌≤◌, ◌≡◌, refl, ap, ◌∙◌, ◌≢◌, inl, inr, Bool, true, false, Option, none, some, List,
  [], ◌∷◌, ◌++◌, arith, ◌==◌, if◌then◌else◌, length, take, drop, length-drop, take-append-drop,
  Bool-cases,
}

-- Frames leave the buffer alone and never run out of the model's fuel.
pub record Same {D : Type 0} (d : Decoder D) (r : Decoder D) (v : Verdict) : Type 0 where
  pub same_bytes : r.bytes ≡ d.bytes
  pub same_cap : r.cap ≡ d.cap
  pub same_state : r.state ≡ d.state
  pub decides : v ≢ starves

-- `Frames decode s bytes rest`: the frames that the codec finds from its state `s` on, one behind the
-- other, to the first place where it finds none, are `bytes` less `rest`.
pub data Frames {D : Type 0} (decode : D → List ℕ → Decoded D) : D → List ℕ → List ℕ → Type 0 where
  all_taken : (s : D) → Frames decode s [] []
  none_found :
      (s : D) (bytes : List ℕ) → (decode s bytes).frame_bytes ≡ 0 → Frames decode s bytes bytes
  takes :
      (s : D) (b : ℕ) (bs rest : List ℕ)
      → (decode s (b ∷ bs)).frame_bytes ≢ 0
      → Frames decode (decode s (b ∷ bs)).next (drop (decode s (b ∷ bs)).frame_bytes (b ∷ bs)) rest
      → Frames decode s (b ∷ bs) rest

-- The loop takes frames from the front; the state of the codec in `d` is not looked at.
pub record Taken {D : Type 0} (decode : D → List ℕ → Decoded D) (s : D) (d : Decoder D)
    (bytes : List ℕ) (o : Fed D) : Type 0 where
  pub front : List ℕ
  pub joined : front ++ o.rest ≡ bytes
  pub same_bytes : o.decoder.bytes ≡ d.bytes
  pub same_cap : o.decoder.cap ≡ d.cap
  pub decides : o.verdict ≢ starves
  pub parsed : o.verdict ≡ continues → Frames decode s bytes o.rest

module _ {D : Type 0} (decode : D → List ℕ → Decoded D)
    (resample : List ℤ → ℕ → ℕ → ℕ → ℕ → ℕ → ℕ × List ℤ) (scale : Option (ℤ → ℤ)) where
  decoder_open-Same :
      (n : ℕ) (tries : List (Bool × Option ℕ)) (d : Decoder D)
      → Same d (decoder_open n tries d).0 continues
  unfolding decoder_open
  decoder_open-Same zero tries d = ground arith
  decoder_open-Same (suc n) [] d = ground arith
  decoder_open-Same (suc n) ((abort, none) ∷ tries) d = ground (arith, decoder_open-Same n tries d)
  decoder_open-Same (suc n) ((abort, some h) ∷ tries) d = ground arith

  branch-Same :
      (b c : Bool) (ch : ℕ) (d o : Decoder D) (l : List Sound)
      → Same d o continues
      → Same d
          (if◌then◌else◌ {A = Decoder D × Bool × List Sound} b
            (d, true, [])
            (if c then record o { play_rate = 16000; channels = ch } else o, c, l)).0
          continues
  branch-Same true c ch d o l s = record {
    same_bytes = refl;
    same_cap = refl;
    same_state = refl;
    decides = s.decides;
  }
  branch-Same false true ch d o l s = record {
    same_bytes = s.same_bytes;
    same_cap = s.same_cap;
    same_state = s.same_state;
    decides = s.decides;
  }
  branch-Same false false ch d o l s = s

  ensure_open-Same : (t : Turn) (ch : ℕ) (d : Decoder D) → Same d (ensure_open t ch d).0 continues
  unfolding ensure_open
  ensure_open-Same t ch d =
      let o = decoder_open 50 t.tries d in
      branch-Same d.opened o.1 ch d o.0 o.2 (decoder_open-Same 50 t.tries d)

  play_opened-Same :
      (t : Turn) (f : Decoded D) (rate : ℕ) (d : Decoder D) (o : Bool) (l : List Sound)
      → let p = play_opened decode resample scale t f rate d o l in Same d p.0 p.1
  unfolding play_opened at_play_rate play_pcm
  play_opened-Same t f rate d false l = ground arith
  play_opened-Same t f rate d true l = ground arith

  play_frame-Same :
      (t : Turn) (f : Decoded D) (d : Decoder D)
      → let p = play_frame decode resample scale t f d in Same d p.0 p.1
  unfolding play_frame
  play_frame-Same t f d =
      let o = ensure_open t (if f.frame_channels == 0 then 1 else f.frame_channels) d in
      let opened = ensure_open-Same t (if f.frame_channels == 0 then 1 else f.frame_channels) d in
      let played = play_opened-Same t f (if f.hz == 0 then 16000 else f.hz) o.0 o.1 o.2 in
      record {
        same_bytes = played.same_bytes ∙ opened.same_bytes;
        same_cap = played.same_cap ∙ opened.same_cap;
        same_state = played.same_state ∙ opened.same_state;
        decides = played.decides;
      }

  frame_outcome-Same :
      (t : Turn) (f : Decoded D) (d : Decoder D)
      → let p = frame_outcome decode resample scale t f d in Same d p.0 p.1
  unfolding frame_outcome
  frame_outcome-Same t f d = elim (Bool-cases (f.samples == 0)) [
    | inl e ↦
        rw e (record { same_bytes = refl; same_cap = refl; same_state = refl; decides = λ h. cc })
    | inr e ↦ rw e (play_frame-Same t f d)
  ]

  resume-Taken :
      (v : Verdict) (d p : Decoder D) (b : ℕ) (bs : List ℕ) (l : List Sound) (more : Fed D)
      → let f = decode d.state (b ∷ bs) in
        Same (record d { state = f.next }) p v
        → f.frame_bytes ≢ 0
        → Taken decode p.state p (drop f.frame_bytes (b ∷ bs)) more
        → Taken decode d.state d (b ∷ bs) (resume v p (b ∷ bs) l more)
  unfolding resume
  resume-Taken fails d p b bs l more s z m = record {
    front = [];
    joined = refl;
    same_bytes = s.same_bytes;
    same_cap = s.same_cap;
    decides = s.decides;
    parsed = λ e. cc;
  }
  resume-Taken starves d p b bs l more s z m = absurd (s.decides refl)
  resume-Taken continues d p b bs l more s z m =
      let n = (decode d.state (b ∷ bs)).frame_bytes in
      record {
        front = take n (b ∷ bs) ++ m.front;
        joined =
            append_assoc (take n (b ∷ bs)) m.front more.rest
            ∙ ap (λ xs. take n (b ∷ bs) ++ xs) m.joined
            ∙ take-append-drop n (b ∷ bs);
        same_bytes = m.same_bytes ∙ s.same_bytes;
        same_cap = m.same_cap ∙ s.same_cap;
        decides = m.decides;
        parsed = λ e.
            takes d.state b bs more.rest z
              (subst (λ q. Frames decode q (drop n (b ∷ bs)) more.rest) s.same_state (m.parsed e));
      }

  branch-Taken :
      (a e : Bool) (d : Decoder D) (bytes : List ℕ) (x y z : Fed D)
      → Taken decode d.state d bytes x
      → (e ≡ true → Taken decode d.state d bytes y)
      → (e ≡ false → Taken decode d.state d bytes z)
      → Taken decode d.state d bytes (if a then x else if e then y else z)
  branch-Taken true e d bytes x y z tx ty tz = tx
  branch-Taken false true d bytes x y z tx ty tz = ty refl
  branch-Taken false false d bytes x y z tx ty tz = tz refl

  stop-Taken :
      (d : Decoder D) (s : D) (bytes : List ℕ) (v : Verdict)
      → v ≢ starves
      → (v ≡ continues → Frames decode d.state bytes bytes)
      → Taken decode d.state d bytes
          (record { decoder = record d { state = s }; rest = bytes; verdict = v; sounds = [] })
  stop-Taken d s bytes v h parsed = record {
    front = [];
    joined = refl;
    same_bytes = refl;
    same_cap = refl;
    decides = h;
    parsed = parsed;
  }

  pub feed_loop-Taken :
      (fuel : ℕ) (turns : ℕ → Turn) (bytes : List ℕ) (d : Decoder D)
      → length bytes ≤ fuel
      → Taken decode d.state d bytes (feed_loop decode resample scale fuel turns bytes d)
  unfolding feed_loop
  feed_loop-Taken zero turns [] d h =
      stop-Taken d d.state [] continues (λ e. cc) (λ e. all_taken d.state)
  feed_loop-Taken (suc fuel) turns [] d h =
      stop-Taken d d.state [] continues (λ e. cc) (λ e. all_taken d.state)
  feed_loop-Taken zero turns (b ∷ bs) d h = absurd (omega arith)
  feed_loop-Taken (suc fuel) turns (b ∷ bs) d h =
      let f = decode d.state (b ∷ bs) in
      let d' = record d { state = f.next } in
      let p = frame_outcome decode resample scale (turns 0) f d' in
      let same = frame_outcome-Same (turns 0) f d' in
      let n = f.frame_bytes in
      branch-Taken (turns 0).abort (n == 0) d (b ∷ bs) _ _ _
        (stop-Taken d d.state (b ∷ bs) fails (λ e. cc) (λ e. cc))
        (λ no_bytes.
          stop-Taken d f.next (b ∷ bs) continues (λ e. cc)
            (λ e. none_found d.state (b ∷ bs) (ground arith)))
        (λ some_bytes. resume-Taken p.1 d p.0 b bs p.2 _ same (ground arith) (
          feed_loop-Taken fuel (λ n. turns (suc n)) (drop n (b ∷ bs)) p.0
            (ground (arith, length-drop n (b ∷ bs)))))
