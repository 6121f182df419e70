-- ===== src/Audio/Capture/Laws.antt =====
-- The reads of src/audio_capture_rockit.c hand the driver's samples on, and fit their memory.
use rockchip_1106_voice_agen.Prelude.Int.{ℤ}
use mathlib.Core.List.{append_assoc}
use rockchip_1106_voice_agen.Audio.Capture.{
  Capture, Fetch, not_ready, failed, unaddressed, frame, Read, got, size_t, grow, stash_reserve,
  upmix, fill_stash, hand_out, capture_read,
}
use rockchip_1106_voice_agen.Prelude.{
  ℕ, zero, suc, ◌+◌, ◌*◌, ◌^◌, ◌≤◌, ◌<◌, min, ◌≡◌, refl, sym, ap, ◌∙◌, ◌⊎◌, inl, inr, Bool, true,
  false, Option, none, some, List, [], ◌∷◌, ◌++◌, arith, ltb, leb, ◌==◌, if◌then◌else◌, ltb→lt,
  Bool-cases, length, take, drop, length-take, take-append-drop,
}

-- The doubling reaches the size that is needed, within a factor of two, and does not wrap around.
pub grow-reaches :
    (fuel need cap : ℕ)
    → need ≤ 2 ^ 30
    → 0 < cap
    → need ≤ fuel + cap
    → (need ≤ grow fuel need cap) × (grow fuel need cap ≤ 2 * need ⊎ grow fuel need cap ≡ cap)
unfolding grow
grow-reaches zero need cap small some_cap enough = (omega arith, inr refl)
grow-reaches (suc fuel) need cap small some_cap enough = elim (Bool-cases (ltb cap need)) [
  | inl t ↦
      let below = ltb→lt cap need t in
      let twice : size_t (cap * 2) ≡ cap * 2 = omega arith in
      let (a, b) = grow-reaches fuel need (size_t (cap * 2)) small (omega arith) (omega arith) in
      rw t ((a, inl (elim b [ inl l ↦ l | inr e ↦ omega arith ])))
  | inr n ↦ rw n ((ground arith, inr refl))
]

-- Stereo samples: those of the left channel and of the right one in turn.
abbrev pub interleave : List ℤ → List ℤ → List ℤ
interleave (l ∷ ls) (r ∷ rs) = l ∷ r ∷ interleave ls rs
interleave _ _ = []

-- The stereo samples of the driver's frames, the one channel on both sides. A frame that has no
-- address is given back to the driver unread and brings none.
abbrev pub brought : List Fetch → List ℤ
brought [] = []
brought (frame src ∷ fs) = interleave src src ++ brought fs
brought (_ ∷ fs) = brought fs

upmix-interleave : (src : List ℤ) → upmix src ≡ interleave src src
unfolding upmix
upmix-interleave [] = refl
upmix-interleave (v ∷ src) = ap (λ l. v ∷ v ∷ l) (upmix-interleave src)

stash_reserve-keeps :
    (first_cap : ℕ) (alloc : ℕ → Bool) (more : ℕ) (c : Capture)
    → ((n : ℕ) → alloc n ≡ true)
    → (stash_reserve first_cap alloc more c).1 ≡ true
unfolding stash_reserve
stash_reserve-keeps first_cap alloc more c ok =
    let need = size_t (length c.stash + more) in
    let cap = grow need need (if c.stash_cap == 0 then first_cap else c.stash_cap) in
    elim (Bool-cases (leb need c.stash_cap)) [ inl t ↦ rw t | inr n ↦ rw (n, ok cap) ]

-- What a read hands out.
abbrev pub output : Read → List ℤ
output (got samples) = samples
output _ = []

abbrev Keeps : List ℤ → Capture × Option Bool × List Fetch → Type 0
Keeps all (c, went_on, left) = c.stash ++ brought left ≡ all

ite-Keeps :
    (all : List ℤ) (b : Bool) (r t : Capture × Option Bool × List Fetch)
    → Keeps all r
    → Keeps all t
    → Keeps all (if b then r else t)
ite-Keeps all true r t h k = h
ite-Keeps all false r t h k = k

fill_stash-Keeps :
    (first_cap : ℕ) (alloc : ℕ → Bool) (need loops : ℕ) (fs : List Fetch) (c : Capture)
    → ((n : ℕ) → alloc n ≡ true)
    → Keeps (c.stash ++ brought fs) (fill_stash first_cap alloc need loops fs c)
unfolding fill_stash
fill_stash-Keeps first_cap alloc need loops [] c ok =
    ite-Keeps (c.stash ++ []) (ltb (length c.stash) need) (c, none, []) (c, some true, []) refl refl
fill_stash-Keeps first_cap alloc need loops (not_ready ∷ fs) c ok =
    ite-Keeps (c.stash ++ brought fs) (ltb (length c.stash) need)
      (fill_stash first_cap alloc need loops fs c) (c, some true, not_ready ∷ fs)
      (fill_stash-Keeps first_cap alloc need loops fs c ok) refl
fill_stash-Keeps first_cap alloc need loops (failed ∷ fs) c ok =
    ite-Keeps (c.stash ++ brought fs) (ltb (length c.stash) need) (c, some false, fs)
      (c, some true, failed ∷ fs) refl refl
fill_stash-Keeps first_cap alloc need loops (unaddressed src ∷ fs) c ok =
    ite-Keeps (c.stash ++ brought fs) (ltb (length c.stash) need) (c, some false, fs)
      (c, some true, unaddressed src ∷ fs) refl refl
fill_stash-Keeps first_cap alloc need loops (frame [] ∷ fs) c ok =
    unfold upmix in
    ite-Keeps (c.stash ++ brought fs) (ltb (length c.stash) need) (c, some false, fs)
      (c, some true, frame [] ∷ fs) refl refl
fill_stash-Keeps first_cap alloc need loops (frame (v ∷ src) ∷ fs) c ok =
    let room = stash_reserve first_cap alloc (length (v ∷ src) * 2) c in
    let more : Capture = record (room.0) { stash = c.stash ++ upmix (v ∷ src) } in
    let rest = fill_stash first_cap alloc need (loops + 1) fs more in
    let both = interleave (v ∷ src) (v ∷ src) in
    let all = c.stash ++ (both ++ brought fs) in
    let there : (c.stash ++ upmix (v ∷ src)) ++ brought fs ≡ all =
      append_assoc c.stash (upmix (v ∷ src)) (brought fs)
      ∙ ap (λ l. c.stash ++ (l ++ brought fs)) (upmix-interleave (v ∷ src)) in
    let next =
      ite-Keeps all (ltb 8 (loops + 1)) (more, some true, fs) rest there
        (fill_stash-Keeps first_cap alloc need (loops + 1) fs more ok ∙ there) in
    rw (stash_reserve-keeps first_cap alloc (length (v ∷ src) * 2) c ok) (
      ite-Keeps all (ltb (length c.stash) need)
        (if ltb 8 (loops + 1) then (more, some true, fs) else rest)
        (c, some true, frame (v ∷ src) ∷ fs) next refl)

min-stays : (a b : ℕ) → ltb b a ≡ false → min a b ≡ a
min-stays a b h = ground arith

-- A read of a wanted size, after the loop.
Conserves : ℕ → List ℤ → Capture × Read × List Fetch → Type 0
Conserves samples all (c, read, left) =
    (output read ++ (c.stash ++ brought left) ≡ all)
    × (length (output read) ≡ 0 ⊎ length (output read) ≡ samples)

hand_out-Conserves :
    (samples : ℕ) (all : List ℤ) (r : Capture × Option Bool × List Fetch)
    → Keeps all r
    → Conserves samples all (hand_out samples r)
unfolding hand_out Conserves
hand_out-Conserves samples all (c, none, left) h = (h, inl refl)
hand_out-Conserves samples all (c, some false, left) h = (h, inl refl)
hand_out-Conserves samples all (c, some true, left) h =
    elim (Bool-cases (ltb (length c.stash) samples)) [
      | inl t ↦ rw t ((h, inl refl))
      | inr n ↦
          let whole = take-append-drop samples c.stash in
          let there =
            sym (append_assoc (take samples c.stash) (drop samples c.stash) (brought left))
            ∙ ap (λ l. l ++ brought left) whole
            ∙ h in
          let full : length (take samples c.stash) ≡ samples =
            length-take samples c.stash ∙ min-stays samples (length c.stash) n in
          rw n ((there, inr full))
    ]

-- While memory can be had, what a read hands out, what it leaves in the stash and the stereo samples
-- of the frames that are left are, in this order, the stash before and the stereo samples of all
-- frames, each sample of the driver on both channels, whether the read succeeds, waits or fails. A
-- frame that has no address counts for no samples. The read hands out nothing or the wanted number.
pub capture_read-conserves :
    (first_cap : ℕ) (alloc : ℕ → Bool) (samples : ℕ) (fs : List Fetch) (c : Capture)
    → ((n : ℕ) → alloc n ≡ true)
    → let r = capture_read first_cap alloc samples fs c in
      (output (r.1) ++ (r.0.stash ++ brought (r.2)) ≡ c.stash ++ brought fs)
      × (length (output (r.1)) ≡ 0 ⊎ length (output (r.1)) ≡ samples)
unfolding capture_read Conserves
capture_read-conserves first_cap alloc samples fs c ok = elim (Bool-cases (samples == 0)) [
  | inl t ↦ rw t ((refl, inl refl))
  | inr n ↦ rw n (
      hand_out-Conserves samples (c.stash ++ brought fs) (fill_stash first_cap alloc samples 0 fs c)
        (fill_stash-Keeps first_cap alloc samples 0 fs c ok))
]
