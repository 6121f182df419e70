-- ===== src/Music/Decoder.antt =====
-- The decoder of the music player, src/music_player.c: the buffer of undecoded bytes, the frames
-- that are taken from it, and the two sources that feed it. minimp3, the sound driver and the
-- network are parameters; floating point is reached through an interface.
pub mod Resample
pub mod Taken
pub mod Buffer
pub mod Driver
pub mod Sources
use rockchip_1106_voice_agen.Prelude.Int.{ℤ, pos, negsuc}
use rockchip_1106_voice_agen.Prelude.{
  ℕ, zero, suc, ◌+◌, ◌-◌, ◌*◌, ◌/◌, ◌<◌, Bool, true, false, not, ◌&&◌, ◌||◌, Option, none, some,
  List, [], ◌∷◌, ◌++◌, map, ltb, leb, ◌==◌, if◌then◌else◌, length, take, drop,
}

-- zh_music_decoder_t. `state` is the mp3dec_t; `bytes` are the first `len` bytes of `buf`; the pcm
-- buffers hold nothing from one frame to the next.
pub record Decoder (D : Type 0) : Type 0 where
  pub state : D
  pub bytes : List ℕ
  pub cap : ℕ
  pub resample_cap_frames : ℕ
  pub play : Option ℕ
  pub opened : Bool
  pub play_rate : ℕ
  pub channels : ℕ

-- The answer of mp3dec_decode_frame with its mp3dec_frame_info_t. `samples` is 0 also for a negative
-- number; `pcm` are the samples of all channels in turn.
pub record Decoded (D : Type 0) : Type 0 where
  pub next : D
  pub frame_bytes : ℕ
  pub samples : ℕ
  pub frame_channels : ℕ
  pub hz : ℕ
  pub pcm : List ℤ

-- What the decoder does to the sound driver.
pub data Sound : Type 0 where
  opens : ℕ → Sound
  plays : ℕ → List ℤ → Sound
  drains : ℕ → Sound
  flushes : ℕ → Sound
  closes : ℕ → Sound

-- The answers of the rest of the program while one frame is handled.
pub record Turn : Type 0 where
  pub abort : Bool  -- zh_music_should_abort at the head of the loop
  pub tries : List (Bool × Option ℕ)  -- at each try to open: zh_music_should_abort, then the driver
  pub alloc : Bool  -- realloc of the resample buffer
  pub play_abort : Bool  -- zh_music_should_abort in zh_music_play_pcm
  pub wrote : Bool  -- zh_ao_playback_write

-- How the handling of frames ends.
pub data Verdict : Type 0 where
  fails : Verdict  -- zh_music_decoder_feed returns -1
  continues : Verdict
  starves : Verdict  -- the model's fuel ran out

-- What the loop over the buffer leaves.
pub record Fed (D : Type 0) : Type 0 where
  pub decoder : Decoder D
  pub rest : List ℕ
  pub verdict : Verdict
  pub sounds : List Sound

-- The growth of the buffer: `new_cap *= 2` until it is enough.
unfoldable pub enlarge : ℕ → ℕ → ℕ → ℕ
enlarge zero new_cap need = new_cap
enlarge (suc fuel) new_cap need =
    let more = enlarge fuel (new_cap * 2) need in if ltb new_cap need then more else new_cap

-- The capacity that zh_music_decoder_feed asks realloc for.
unfoldable pub wanted_cap : ℕ → ℕ → ℕ
unfolding enlarge
wanted_cap cap need = enlarge need (if cap == 0 then 8192 else cap * 2) need

-- zh_music_apply_gain_sample, on the truncated product `v`
unfoldable pub clamp_sample : ℤ → ℤ
clamp_sample (pos n) = if ltb 32767 n then pos 32767 else pos n
clamp_sample (negsuc n) = if ltb 32767 n then negsuc 32767 else negsuc n

-- zh_music_play_pcm of a whole frame: its loop writes all that is left in its first round.
unfoldable pub play_pcm : Turn → Option ℕ → List ℤ → ℕ → Bool × List Sound
play_pcm t none pcm frames = (false, [])
play_pcm t (some h) pcm frames =
    if frames == 0 || t.play_abort then (false, []) else (t.wrote, plays h pcm ∷ [])

module _ {D : Type 0} where
  -- zh_music_decoder_open: the tries of ten seconds, one each 200 ms.
  unfoldable pub decoder_open :
      ℕ → List (Bool × Option ℕ) → Decoder D → Decoder D × Bool × List Sound
  decoder_open zero tries d = (d, false, [])
  decoder_open (suc n) [] d = (d, false, [])
  decoder_open (suc n) ((abort, answer) ∷ tries) d =
      let rest = decoder_open n tries d in
      if abort then (d, false, []) else elim answer [
        | none ↦ rest
        | some h ↦ (record d { play = some h; opened = true }, true, opens h ∷ [])
      ]

  -- The opening of the playback, at the first frame with samples.
  unfoldable pub ensure_open : Turn → ℕ → Decoder D → Decoder D × Bool × List Sound
  unfolding decoder_open
  ensure_open t ch d =
      if d.opened
      then (d, true, [])
      else (let o = decoder_open 50 t.tries d in
          (if o.1 then record o.0 { play_rate = 16000; channels = ch } else o.0, o.1, o.2))

-- The samples with the gain: none for gain 1, else the product with it.
unfoldable pub amplify : Option (ℤ → ℤ) → List ℤ → List ℤ
unfolding clamp_sample
amplify none pcm = pcm
amplify (some scale) pcm = map (λ s. clamp_sample (scale s)) pcm

-- After a frame: the loop goes on to `more`, or stops with what is left.
unfoldable pub resume : {D : Type 0} → Verdict → Decoder D → List ℕ → List Sound → Fed D → Fed D
resume continues d rest sounds more = record more { sounds = sounds ++ more.sounds }
resume fails d rest sounds more = record {
  decoder = d;
  rest = rest;
  verdict = fails;
  sounds = sounds;
}
resume starves d rest sounds more = record {
  decoder = d;
  rest = rest;
  verdict = starves;
  sounds = sounds;
}

-- The end of zh_music_decoder_feed: the bytes that are left move to the front.
unfoldable pub settle : {D : Type 0} → Verdict → Fed D → Decoder D × Verdict × List Sound
settle continues fed = (record fed.decoder { bytes = fed.rest }, continues, fed.sounds)
settle fails fed = (fed.decoder, fails, fed.sounds)
settle starves fed = (fed.decoder, starves, fed.sounds)

-- `decode` is mp3dec_decode_frame, which uses at most the bytes that it is given. `resample` is zh_music_resample_linear of samples, with their
-- number of frames, input rate and channels, into a buffer of some frames at an output rate: the
-- number of frames and the samples.
module _ {D : Type 0} (decode : D → List ℕ → Decoded D)
    (resample : List ℤ → ℕ → ℕ → ℕ → ℕ → ℕ → ℕ × List ℤ) (scale : Option (ℤ → ℤ)) where
  -- The frame at the rate of the playback: `none` if there is no memory for it.
  unfoldable pub at_play_rate : Turn → Decoded D → ℕ → Decoder D → Option (Decoder D × ℕ × List ℤ)
  at_play_rate t f rate d =
      if rate == d.play_rate
      then some (d, f.samples, f.pcm)
      else (let need = (f.samples * d.play_rate + rate - 1) / rate + 2 in
          let grows = ltb d.resample_cap_frames need in
          let cap = if grows then need else d.resample_cap_frames in
          if grows && not t.alloc
          then none
          else (let r = resample f.pcm f.samples rate d.channels cap d.play_rate in
              some (record d { resample_cap_frames = cap }, r.0, r.1)))

  -- The frame is played, if the playback is open. The driver reads as many samples as the frames
  -- have at the channels of the playback.
  unfoldable pub play_opened :
      Turn → Decoded D → ℕ → Decoder D → Bool → List Sound → Decoder D × Verdict × List Sound
  unfolding at_play_rate play_pcm amplify
  play_opened t f rate d false opening = (d, fails, opening)
  play_opened t f rate d true opening = elim (at_play_rate t f rate d) [
    | none ↦ (d, fails, opening)
    | some (d', frames, pcm) ↦
        if frames == 0
        then (d', continues, opening)
        else (let w = play_pcm t d'.play (amplify scale (take (frames * d'.channels) pcm)) frames in
            (d', if w.0 then continues else fails, opening ++ w.1))
  ]

  -- What zh_music_decoder_feed does with a frame of at least one sample.
  unfoldable pub play_frame : Turn → Decoded D → Decoder D → Decoder D × Verdict × List Sound
  unfolding ensure_open play_opened
  play_frame t f d =
      let o = ensure_open t (if f.frame_channels == 0 then 1 else f.frame_channels) d in
      play_opened t f (if f.hz == 0 then 16000 else f.hz) o.0 o.1 o.2

  -- A frame: one without samples is skipped.
  unfoldable pub frame_outcome : Turn → Decoded D → Decoder D → Decoder D × Verdict × List Sound
  unfolding play_frame
  frame_outcome t f d = if f.samples == 0 then (d, continues, []) else play_frame t f d

  -- The loop of zh_music_decoder_feed. `rest` are the bytes from `offset` on.
  unfoldable pub feed_loop : ℕ → (ℕ → Turn) → List ℕ → Decoder D → Fed D
  unfolding frame_outcome resume
  feed_loop fuel turns [] d = record { decoder = d; rest = []; verdict = continues; sounds = [] }
  feed_loop zero turns (b ∷ bs) d = record {
    decoder = d;
    rest = b ∷ bs;
    verdict = starves;
    sounds = [];
  }
  feed_loop (suc fuel) turns (b ∷ bs) d =
      let f = decode d.state (b ∷ bs) in
      let d' = record d { state = f.next } in
      let p = frame_outcome (turns 0) f d' in
      let more = feed_loop fuel (λ n. turns (suc n)) (drop f.frame_bytes (b ∷ bs)) p.0 in
      if (turns 0).abort
      then record { decoder = d; rest = b ∷ bs; verdict = fails; sounds = [] }
      else if f.frame_bytes == 0
      then record { decoder = d'; rest = b ∷ bs; verdict = continues; sounds = [] }
      else resume p.1 p.0 (b ∷ bs) p.2 more

  -- zh_music_decoder_feed. `alloc` is the answer of realloc for the buffer. On an early return the
  -- whole buffer stays.
  unfoldable pub decoder_feed :
      Bool → (ℕ → Turn) → List ℕ → Decoder D → Decoder D × Verdict × List Sound
  unfolding wanted_cap feed_loop settle
  decoder_feed alloc turns [] d = (d, continues, [])
  decoder_feed alloc turns (x ∷ xs) d =
      let need = length d.bytes + length (x ∷ xs) in
      let grows = ltb d.cap need in
      let all = d.bytes ++ (x ∷ xs) in
      let held = record d { bytes = all; cap = if grows then wanted_cap d.cap need else d.cap } in
      let fed = feed_loop (length all) turns all held in
      if grows && not alloc then (d, fails, []) else settle fed.verdict fed

-- zh_music_decoder_finish with zh_music_decoder_reset
unfoldable pub decoder_finish : {D : Type 0} → Bool → Decoder D → Decoder D × List Sound
decoder_finish interrupted d = (
  record d {
    bytes = [];
    cap = 0;
    resample_cap_frames = 0;
    play = none;
    opened = false;
    play_rate = 0;
    channels = 0;
  },
  elim d.play [
    | none ↦ []
    | some h ↦ (if interrupted then flushes h else drains h) ∷ closes h ∷ []
  ],
)
