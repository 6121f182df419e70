-- ===== src/Audio/Gate.antt =====
-- The peak gate in front of the voice detector, zh_audio_vad_gate_filter of src/audio_uplink.c
-- (with ZH_VAD_GATE_ENABLE). A sample is an integer of sixteen bits.
pub mod Laws
use rockchip_1106_voice_agen.Prelude.Int.{ℤ, pos, negsuc}
use rockchip_1106_voice_agen.Prelude.{
  ℕ, zero, suc, ◌+◌, ◌-◌, ◌*◌, ◌/◌, ◌%◌, ◌^◌, ◌≤◌, ◌<◌, min, ◌≡◌, refl, sym, ap, ◌∙◌, ◌≢◌, ◌↔◌, ◌⊎◌,
  inl, inr, Bool, true, false, not, ◌&&◌, ◌||◌, Option, none, some, List, [], ◌∷◌, ◌++◌, map, arith,
  ltb, leb, ◌==◌, if◌then◌else◌, ltb→lt, lt→ltb, leb→le, ==_iff, Bool-cases, Option-cases, length,
  get_elem?, set, get_or, take, drop, replicate, length-append, length-set, length-take,
  length-drop, length-replicate, take-append-drop, take-length_append, drop-length_append,
  get_or-append_left, get_or-append_right, take-all, get_elem?-set_self, get_elem?-set_ne,
}

-- zh_abs_i16: the absolute value, but 32767 for -32768.
unfoldable pub abs_i16 : ℤ → ℕ
abs_i16 (pos n) = n
abs_i16 (negsuc n) = if n == 32767 then 32767 else n + 1

-- The loop over the samples, from the peak so far.
unfoldable pub peak_from : ℕ → List ℤ → ℕ
unfolding abs_i16
peak_from peak [] = peak
peak_from peak (s ∷ ss) =
    let here = if ltb peak (abs_i16 s) then abs_i16 s else peak in peak_from here ss

-- ZH_VAD_GATE_OPEN_PEAK, ZH_VAD_GATE_CLOSE_PEAK and ZH_VAD_GATE_HOLD_FRAMES
pub record Thresholds : Type 0 where
  pub open_peak : ℕ
  pub close_peak : ℕ
  pub hold_frames : ℕ

abbrev pub config_thresholds : Thresholds
config_thresholds = record { open_peak = 8000; close_peak = 800; hold_frames = 8 }

-- What the thread keeps between two frames.
pub record Gate : Type 0 where
  pub gate_open : Bool
  pub below_close_frames : ℕ

abbrev pub closing : Thresholds → ℕ
closing c = if ltb c.open_peak c.close_peak then c.open_peak else c.close_peak

abbrev pub holding : Thresholds → ℕ
holding c = if ltb c.hold_frames 1 then 1 else c.hold_frames

-- The state of the gate after a frame of this peak.
unfoldable pub gate_after : Thresholds → ℕ → Gate → Gate
gate_after c peak g =
    if g.gate_open
    then if ltb peak (closing c)
      then record {
        gate_open = not (leb (holding c) (g.below_close_frames + 1));
        below_close_frames = g.below_close_frames + 1;
      }
      else record { gate_open = true; below_close_frames = 0 }
    else if leb c.open_peak peak
    then record { gate_open = true; below_close_frames = 0 }
    else g

-- zh_audio_vad_gate_filter: the gate and the frame that the detector gets.
unfoldable pub gate_filter : Thresholds → List ℤ → Gate → Gate × List ℤ
unfolding gate_after peak_from
gate_filter c [] g = (g, [])
gate_filter c (s ∷ ss) g =
    let h = gate_after c (peak_from 0 (s ∷ ss)) g in
    (h, if h.gate_open then s ∷ ss else replicate (length (s ∷ ss)) (pos 0))
