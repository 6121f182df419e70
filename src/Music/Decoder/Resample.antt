-- ===== src/Music/Decoder/Resample.antt =====
-- zh_music_resample_linear of src/music_player.c, over the few operations on double that it uses.
use rockchip_1106_voice_agen.Prelude.Int.{ℤ, pos, negsuc}
use native.Mathlib.Nat.{mul-le-mul_right}
use rockchip_1106_voice_agen.Music.Decoder.{clamp_sample}
use rockchip_1106_voice_agen.Prelude.{
  ℕ, zero, suc, ◌+◌, ◌*◌, ◌≤◌, ◌<◌, min, ◌≡◌, refl, inl, inr, Bool, true, false, ◌||◌, List, [],
  ◌∷◌, ◌++◌, arith, ltb, leb, ◌==◌, if◌then◌else◌, length, get_or, take, length-append, length-take,
  Bool-cases,
}

-- The positions. `mix p a b` is the truncated `(1.0 - frac) * a + frac * b` for the fraction of `p`.
pub record Double (F : Type 0) : Type 0 where
  pub origin : F
  pub ratio : ℕ → ℕ → F
  pub add : F → F → F
  pub floor : F → ℕ
  pub mix : F → ℤ → ℤ → ℤ

module _ {F : Type 0} (double : Double F) where
  -- The loop over the channels from `ch` on, `n` of them.
  unfoldable pub mix_channels : List ℤ → ℕ → ℕ → F → ℕ → ℕ → List ℤ
  unfolding clamp_sample
  mix_channels in_pcm in_frames channels p ch zero = []
  mix_channels in_pcm in_frames channels p ch (suc n) =
      let i0 = double.floor p in
      let i1 = if ltb (i0 + 1) in_frames then i0 + 1 else i0 in
      let s0 = get_or in_pcm (i0 * channels + ch) (pos 0) in
      let s1 = get_or in_pcm (i1 * channels + ch) (pos 0) in
      clamp_sample (double.mix p s0 s1) ∷ mix_channels in_pcm in_frames channels p (ch + 1) n

  -- The loop over the output frames, `room` of which still fit.
  unfoldable pub resample_loop : ℕ → List ℤ → ℕ → ℕ → F → F → ℕ × List ℤ
  unfolding mix_channels
  resample_loop zero in_pcm in_frames channels step p = (0, [])
  resample_loop (suc room) in_pcm in_frames channels step p =
      let rest = resample_loop room in_pcm in_frames channels step (double.add p step) in
      if leb in_frames (double.floor p)
      then (0, [])
      else (suc rest.0, mix_channels in_pcm in_frames channels p 0 channels ++ rest.1)

  -- zh_music_resample_linear: the number of frames and the samples of all channels in turn.
  unfoldable pub resample_linear : List ℤ → ℕ → ℕ → ℕ → ℕ → ℕ → ℕ × List ℤ
  unfolding resample_loop
  resample_linear in_pcm in_frames in_rate channels out_cap out_rate =
      if in_frames == 0 || out_cap == 0 || channels == 0 || in_rate == 0 || out_rate == 0
      then (0, [])
      else if in_rate == out_rate
      then (min in_frames out_cap, take (min in_frames out_cap * channels) in_pcm)
      else resample_loop out_cap in_pcm in_frames channels (double.ratio in_rate out_rate)
          double.origin

-- All samples are of 16 bits.
abbrev pub AreInt16 : List ℤ → Type 0
AreInt16 [] = Unit
AreInt16 (pos n ∷ ss) = (n < 32768) × AreInt16 ss
AreInt16 (negsuc n ∷ ss) = (n < 32768) × AreInt16 ss

AreInt16-append : (xs ys : List ℤ) → AreInt16 xs → AreInt16 ys → AreInt16 (xs ++ ys)
AreInt16-append [] ys a b = b
AreInt16-append (pos n ∷ xs) ys a b = (a.0, AreInt16-append xs ys a.1 b)
AreInt16-append (negsuc n ∷ xs) ys a b = (a.0, AreInt16-append xs ys a.1 b)

AreInt16-take : (n : ℕ) (xs : List ℤ) → AreInt16 xs → AreInt16 (take n xs)
AreInt16-take zero xs a = tt
AreInt16-take (suc n) [] a = tt
AreInt16-take (suc n) (pos k ∷ xs) a = (a.0, AreInt16-take n xs a.1)
AreInt16-take (suc n) (negsuc k ∷ xs) a = (a.0, AreInt16-take n xs a.1)

clamp_sample-cons : (z : ℤ) (ss : List ℤ) → AreInt16 ss → AreInt16 (clamp_sample z ∷ ss)
unfolding clamp_sample
clamp_sample-cons (pos n) ss h = ground arith
clamp_sample-cons (negsuc n) ss h = ground arith

-- The frames fit the buffer, each has a sample for every channel, and each sample has 16 bits.
abbrev pub Fits : ℕ → ℕ → ℕ × List ℤ → Type 0
Fits out_cap channels r = (r.0 ≤ out_cap) × (length (r.1) ≡ r.0 * channels) × AreInt16 (r.1)

module _ {F : Type 0} (double : Double F) where
  mix_channels-fit :
      (in_pcm : List ℤ) (in_frames channels : ℕ) (p : F) (ch n : ℕ)
      → let out = mix_channels double in_pcm in_frames channels p ch n in
        (length out ≡ n) × AreInt16 out
  unfolding mix_channels
  mix_channels-fit in_pcm in_frames channels p ch zero = (refl, tt)
  mix_channels-fit in_pcm in_frames channels p ch (suc n) =
      let rest = mix_channels-fit in_pcm in_frames channels p (ch + 1) n in
      let i0 = double.floor p in
      let i1 = if ltb (i0 + 1) in_frames then i0 + 1 else i0 in
      let s0 = get_or in_pcm (i0 * channels + ch) (pos 0) in
      let s1 = get_or in_pcm (i1 * channels + ch) (pos 0) in
      (omega (arith, rest.0), clamp_sample-cons (double.mix p s0 s1) _ rest.1)

  resample_loop-Fits :
      (room : ℕ) (in_pcm : List ℤ) (in_frames channels : ℕ) (step p : F)
      → Fits room channels (resample_loop double room in_pcm in_frames channels step p)
  unfolding resample_loop
  resample_loop-Fits zero in_pcm in_frames channels step p = (omega arith, omega arith, tt)
  resample_loop-Fits (suc room) in_pcm in_frames channels step p =
      let one = mix_channels double in_pcm in_frames channels p 0 channels in
      let rest = resample_loop double room in_pcm in_frames channels step (double.add p step) in
      let fit = mix_channels-fit in_pcm in_frames channels p 0 channels in
      let fits = resample_loop-Fits room in_pcm in_frames channels step (double.add p step) in
      elim (Bool-cases (leb in_frames (double.floor p))) [
        | inl e ↦ rw e (omega arith, omega arith, tt)
        | inr e ↦ rw e (
          omega (arith, fits.0),
          omega (arith, length-append one rest.1, fit.0, fits.1),
          AreInt16-append one rest.1 fit.1 fits.2,
        )
      ]

  copy-Fits :
      (in_pcm : List ℤ) (in_frames channels out_cap : ℕ)
      → length in_pcm ≡ in_frames * channels
      → AreInt16 in_pcm
      → Fits out_cap channels
          (min in_frames out_cap, take (min in_frames out_cap * channels) in_pcm)
  copy-Fits in_pcm in_frames channels out_cap whole sixteen = (
    omega arith,
    omega (
      arith,
      length-take (min in_frames out_cap * channels) in_pcm,
      whole,
      mul-le-mul_right {m = min in_frames out_cap} {n = in_frames} channels (omega arith),
    ),
    AreInt16-take (min in_frames out_cap * channels) in_pcm sixteen,
  )

  branch-Fits :
      (a b : Bool) (out_cap channels : ℕ) (x y : ℕ × List ℤ)
      → Fits out_cap channels x
      → Fits out_cap channels y
      → Fits out_cap channels (if a then (0, []) else if b then x else y)
  branch-Fits true b out_cap channels x y hx hy = (omega arith, omega arith, tt)
  branch-Fits false true out_cap channels x y hx hy = hx
  branch-Fits false false out_cap channels x y hx hy = hy

  -- Whatever the rounding of the positions, resampling 16-bit samples ends within the frames that
  -- the output has room for, gives a sample for every channel of each frame, and each has 16 bits.
  pub resample_linear-Fits :
      (in_pcm : List ℤ) (in_frames in_rate channels out_cap out_rate : ℕ)
      → length in_pcm ≡ in_frames * channels
      → AreInt16 in_pcm
      → Fits out_cap channels
          (resample_linear double in_pcm in_frames in_rate channels out_cap out_rate)
  unfolding resample_linear
  resample_linear-Fits in_pcm in_frames in_rate channels out_cap out_rate whole sixteen =
      let step = double.ratio in_rate out_rate in
      branch-Fits (in_frames == 0 || out_cap == 0 || channels == 0 || in_rate == 0 || out_rate == 0)
        (in_rate == out_rate) out_cap channels
        (min in_frames out_cap, take (min in_frames out_cap * channels) in_pcm)
        (resample_loop double out_cap in_pcm in_frames channels step double.origin)
        (copy-Fits in_pcm in_frames channels out_cap whole sixteen)
        (resample_loop-Fits out_cap in_pcm in_frames channels step double.origin)
