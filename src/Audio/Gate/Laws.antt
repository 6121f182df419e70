-- ===== src/Audio/Gate/Laws.antt =====
-- The gate of src/audio_uplink.c: when it opens, how long it holds and what it lets through.
use rockchip_1106_voice_agen.Prelude.Int.{ℤ, pos}
use rockchip_1106_voice_agen.Audio.Gate.{
  peak_from, Thresholds, Gate, closing, holding, gate_after, gate_filter,
}
use rockchip_1106_voice_agen.Prelude.{
  ℕ, suc, ◌+◌, ◌≤◌, ◌<◌, ◌≡◌, refl, sym, ap, ◌∙◌, inl, inr, true, false, not, List, [], ◌∷◌, arith,
  ltb, leb, if◌then◌else◌, ltb→lt, lt→ltb, Bool-cases, length, replicate, length-replicate,
}

-- The frames through the gate, one after the other.
abbrev pub gate_frames : Thresholds → List (List ℤ) → Gate → Gate
gate_frames c [] g = g
gate_frames c (f ∷ fs) g = gate_frames c fs ((gate_filter c f g).0)

-- Every frame has samples and stays under the closing threshold.
abbrev pub AreQuiet : Thresholds → List (List ℤ) → Type 0
AreQuiet c [] = Unit
AreQuiet c (f ∷ fs) = (0 < length f) × (peak_from 0 f < closing c) × AreQuiet c fs

-- A filtered frame has its length, the gate is the one of its peak, and what comes out is the
-- frame or silence.
gate_filter-open :
    (c : Thresholds) (f : List ℤ) (g : Gate)
    → 0 < length f
    → (gate_filter c f g).0 ≡ gate_after c (peak_from 0 f) g
unfolding gate_filter
gate_filter-open c [] g h = absurd (omega arith)
gate_filter-open c (s ∷ ss) g h = refl

not-leb : (a b : ℕ) → not (leb a b) ≡ ltb b a
not-leb a b = ground arith

gate_after-counts :
    (c : Thresholds) (peak : ℕ) (g : Gate)
    → peak < closing c
    → g.gate_open ≡ true
    → ((gate_after c peak g).gate_open ≡ ltb (g.below_close_frames + 1) (holding c))
      × ((gate_after c peak g).below_close_frames ≡ g.below_close_frames + 1)
unfolding gate_after
gate_after-counts c peak g h o =
    rw (o, lt→ltb peak (closing c) h) ((not-leb (holding c) (g.below_close_frames + 1), refl))

gate_after-closed :
    (c : Thresholds) (peak : ℕ) (g : Gate)
    → peak < closing c
    → g.gate_open ≡ false
    → gate_after c peak g ≡ g
unfolding gate_after
gate_after-closed c peak g h o = ground arith

frames-closed :
    (c : Thresholds) (fs : List (List ℤ)) (g : Gate)
    → AreQuiet c fs
    → g.gate_open ≡ false
    → (gate_frames c fs g).gate_open ≡ false
frames-closed c [] g q o = o
frames-closed c (f ∷ fs) g (some_f, quiet, q) o =
    let e = gate_filter-open c f g some_f ∙ gate_after-closed c (peak_from 0 f) g quiet o in
    frames-closed c fs ((gate_filter c f g).0) q (ap (λ h. h.gate_open) e ∙ o)

ltb-over : (a n b : ℕ) → ltb (a + 1) b ≡ false → ltb (a + suc n) b ≡ false
ltb-over a n b h = ground arith

shift : (a b n : ℕ) → a ≡ b + 1 → a + n ≡ b + suc n
shift a b n e = omega arith

ltb-from : (k n b : ℕ) → k ≡ 0 → ltb (k + n) b ≡ ltb n b
ltb-from k n b z = ap (λ m. ltb m b) (omega arith)

holding-pos : (c : Thresholds) → 0 < holding c
holding-pos c = ground arith

frames-open :
    (c : Thresholds) (fs : List (List ℤ)) (g : Gate)
    → AreQuiet c fs
    → g.gate_open ≡ true
    → g.below_close_frames < holding c
    → (gate_frames c fs g).gate_open ≡ ltb (g.below_close_frames + length fs) (holding c)
frames-open c [] g q o h = ground arith
frames-open c (f ∷ fs) g (some_f, quiet, q) o h =
    let g2 = (gate_filter c f g).0 in
    let (a, b) = gate_after-counts c (peak_from 0 f) g quiet o in
    let e = gate_filter-open c f g some_f in
    let open2 : g2.gate_open ≡ ltb (g.below_close_frames + 1) (holding c) =
      ap (λ h. h.gate_open) e ∙ a in
    let below2 : g2.below_close_frames ≡ g.below_close_frames + 1 =
      ap (λ h. h.below_close_frames) e ∙ b in
    elim (Bool-cases (ltb (g.below_close_frames + 1) (holding c))) [
      | inl t ↦
          frames-open c fs g2 q (open2 ∙ t) (omega (arith, ltb→lt, below2, t))
          ∙ ap (λ n. ltb n (holding c))
              (shift g2.below_close_frames g.below_close_frames (length fs) below2)
      | inr n ↦
          frames-closed c fs g2 q (open2 ∙ n)
          ∙ sym (ltb-over g.below_close_frames (length fs) (holding c) n)
    ]

-- A gate that has just opened, or has just heard a sound above the closing threshold, holds:
-- through any number of quiet frames it is open until as many of them have come as it is to hold,
-- and from then on it is shut.
pub gate_frames-holds :
    (c : Thresholds) (fs : List (List ℤ)) (g : Gate)
    → AreQuiet c fs
    → g.gate_open ≡ true
    → g.below_close_frames ≡ 0
    → (gate_frames c fs g).gate_open ≡ ltb (length fs) (holding c)
gate_frames-holds c fs g q o z =
    frames-open c fs g q o (omega (arith, holding-pos c, z))
    ∙ ltb-from g.below_close_frames (length fs) (holding c) z

opens :
    (c : Thresholds) (peak : ℕ) (g : Gate)
    → c.open_peak ≤ peak
    → (gate_after c peak g).gate_open ≡ true
unfolding gate_after
opens c peak g h = ground arith

gate_after-below :
    (c : Thresholds) (peak : ℕ) (g : Gate)
    → peak < c.open_peak
    → g.gate_open ≡ false
    → gate_after c peak g ≡ g
unfolding gate_after
gate_after-below c peak g h o = ground arith

-- The same of a frame whose peak is known.
passes :
    (c : Thresholds) (peak : ℕ) (f : List ℤ) (g : Gate)
    → let h = gate_after c peak g in
      let out = if h.gate_open then f else replicate (length f) (pos 0) in
      (length out ≡ length f)
      × (c.open_peak ≤ peak → (out ≡ f) × (h.gate_open ≡ true))
      × (peak < c.open_peak → g.gate_open ≡ false → (out ≡ replicate (length f) (pos 0)) × (h ≡ g))
passes c peak f g = (
  elim (Bool-cases ((gate_after c peak g).gate_open)) [
    | inl t ↦ rw t
    | inr n ↦ rw (n, length-replicate (length f) (pos 0))
  ],
  λ loud. let o = opens c peak g loud in (rw o, o),
  λ soft shut. let e = gate_after-below c peak g soft shut in (rw (e, shut), e),
)

-- The gate lets a frame that has samples through whole or gives silence of the same length. A
-- frame that reaches the opening threshold passes, whatever the gate was; one that does not is
-- silenced by a shut gate, which stays as it was.
gate_filter-passes :
    (c : Thresholds) (f : List ℤ) (g : Gate)
    → 0 < length f
    → (length ((gate_filter c f g).1) ≡ length f)
      × (c.open_peak ≤ peak_from 0 f
          → ((gate_filter c f g).1 ≡ f) × ((gate_filter c f g).0.gate_open ≡ true))
      × (peak_from 0 f < c.open_peak
          → g.gate_open ≡ false
          → ((gate_filter c f g).1 ≡ replicate (length f) (pos 0)) × ((gate_filter c f g).0 ≡ g))
unfolding gate_filter
gate_filter-passes c [] g h = absurd (omega arith)
gate_filter-passes c (s ∷ ss) g h = passes c (peak_from 0 (s ∷ ss)) (s ∷ ss) g
