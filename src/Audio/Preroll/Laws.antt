-- ===== src/Audio/Preroll/Laws.antt =====
-- The ring of src/audio_uplink.c keeps the last frames in their order.
use rockchip_1106_voice_agen.Audio.Preroll.{
  Preroll, and_then, remember, submit_slots, flush_preroll,
}
use native.Mathlib.Nat.{mod-eq_of_lt, mod_self}
use mathlib.Core.List.{append-nil, append_assoc}
use rockchip_1106_voice_agen.Prelude.{
  ℕ, zero, suc, ◌+◌, ◌-◌, ◌%◌, ◌≤◌, ◌<◌, ◌≡◌, refl, sym, ap, ◌∙◌, ◌⊎◌, inl, inr, Bool, true, false,
  some, List, [], ◌∷◌, ◌++◌, arith, ltb, ◌==◌, if◌then◌else◌, ltb→lt, Bool-cases, length, get_elem?,
  set, take, drop, length-append, length-set, length-take, length-drop, take-all,
}

module _ {S : Type 0} where
  and_then-cong :
      (r : S × Bool) (k l : S → S × Bool) → ((s : S) → k s ≡ l s) → and_then r k ≡ and_then r l
  and_then-cong (s, true) k l e = e s
  and_then-cong (s, false) k l e = refl

  and_then_assoc :
      (r : S × Bool) (k l : S → S × Bool)
      → and_then (and_then r k) l ≡ and_then r (λ s. and_then (k s) l)
  and_then_assoc (s, true) k l = refl
  and_then_assoc (s, false) k l = refl

next-inside : (n frames : ℕ) → suc n < frames → (n + 1) % frames ≡ suc n
next-inside n frames h =
    let e : n + 1 ≡ suc n = omega arith in
    let small : n + 1 < frames = omega arith in mod-eq_of_lt {n = n + 1} {m = frames} small ∙ e

next-last : (n frames : ℕ) → suc n ≡ frames → (n + 1) % frames ≡ 0
next-last n frames h = let e : n + 1 ≡ frames = omega arith in rw (e, mod_self frames)

suc-not_zero : (n : ℕ) → (suc n == 0) ≡ false
suc-not_zero n = ground arith

no_excess : (a b : ℕ) → a ≤ b → a - b ≡ 0
no_excess a b h = omega arith

one_over : (a b : ℕ) → a ≡ b → suc a - b ≡ 1
one_over a b h = omega arith

next-cases :
    (n frames : ℕ)
    → n < frames
    → ((suc n < frames) × ((n + 1) % frames ≡ suc n)) ⊎ ((suc n ≡ frames) × ((n + 1) % frames ≡ 0))
next-cases n frames h = elim (Bool-cases (ltb (suc n) frames)) [
  | inl t ↦ inl (ltb→lt (suc n) frames t, next-inside n frames (ltb→lt (suc n) frames t))
  | inr e ↦ let last : suc n ≡ frames = ground arith in inr (last, next-last n frames last)
]

module _ {F : Type 0} where
  -- The last `n` of a list.
  abbrev pub last_of : ℕ → List F → List F
  last_of n xs = drop (length xs - n) xs

  -- What the ring holds, oldest first.
  abbrev pub contents : Preroll F → List F
  contents p =
      if p.preroll_full
      then drop p.preroll_pos p.preroll ++ take p.preroll_pos p.preroll
      else take p.preroll_pos p.preroll

  abbrev pub IsRing : ℕ → Preroll F → Type 0
  IsRing frames p = (length p.preroll ≡ frames) × (p.preroll_pos < frames)

  -- The frames remembered one after the other.
  abbrev pub remember_all : ℕ → List F → Preroll F → Preroll F
  remember_all frames [] p = p
  remember_all frames (f ∷ fs) p = remember_all frames fs (remember frames f p)

  -- Frames submitted in turn until one fails.
  abbrev pub submit_all : {S : Type 0} → (F → S → S × Bool) → List F → S → S × Bool
  submit_all submit [] s = (s, true)
  submit_all submit (f ∷ fs) s = and_then (submit f s) (submit_all submit fs)

  -- A ring stays one.
  pub remember-IsRing :
      (frames : ℕ) (f : F) (p : Preroll F) → IsRing frames p → IsRing frames (remember frames f p)
  unfolding remember
  remember-IsRing frames f p (len, inside) =
      (length-set p.preroll p.preroll_pos f ∙ len, omega arith)

  drop-set-lem :
      (xs : List F) (i : ℕ) (f : F) → i < length xs → drop (suc i) (set xs i f) ≡ drop (suc i) xs
  drop-set-lem [] i f h = absurd (omega arith)
  drop-set-lem (x ∷ xs) zero f h = refl
  drop-set-lem (x ∷ xs) (suc i) f h = drop-set-lem xs i f (omega arith)

  take-set-lem :
      (xs : List F) (i : ℕ) (f : F)
      → i < length xs
      → take (suc i) (set xs i f) ≡ take i xs ++ (f ∷ [])
  take-set-lem [] i f h = absurd (omega arith)
  take-set-lem (x ∷ xs) zero f h = refl
  take-set-lem (x ∷ xs) (suc i) f h = ap (λ t. x ∷ t) (take-set-lem xs i f (omega arith))

  -- A slot inside the ring.
  slot :
      (xs : List F) (i : ℕ)
      → i < length xs
      → (x : F) × (get_elem? xs i ≡ some x) × (drop i xs ≡ x ∷ drop (suc i) xs)
  slot [] i h = absurd (omega arith)
  slot (x ∷ xs) zero h = (x, refl, refl)
  slot (x ∷ xs) (suc i) h = slot xs i (omega arith)

  drop-cons : (xs : List F) (i : ℕ) → i < length xs → (x : F) × (drop i xs ≡ x ∷ drop (suc i) xs)
  drop-cons [] i h = absurd (omega arith)
  drop-cons (x ∷ xs) zero h = (x, refl)
  drop-cons (x ∷ xs) (suc i) h = drop-cons xs i (omega arith)

  last_of-short : (n : ℕ) (xs : List F) → length xs ≤ n → last_of n xs ≡ xs
  last_of-short n xs h = ap (λ k. drop k xs) (no_excess (length xs) n h)

  last_of-cons : (n : ℕ) (x : F) (xs : List F) → length xs ≡ n → last_of n (x ∷ xs) ≡ xs
  last_of-cons n x xs h = ap (λ k. drop k (x ∷ xs)) (one_over (length xs) n h)

  drop-past : (n : ℕ) (xs : List F) → length xs ≤ n → drop n xs ≡ []
  drop-past zero [] h = refl
  drop-past zero (x ∷ xs) h = absurd (omega arith)
  drop-past (suc n) [] h = refl
  drop-past (suc n) (x ∷ xs) h = drop-past n xs (omega arith)

  length-turned :
      (xs : List F) (n : ℕ) (f : F)
      → n < length xs
      → length (drop (suc n) xs ++ (take n xs ++ (f ∷ []))) ≡ length xs
  length-turned xs n f h =
      rw
        (
          length-append (drop (suc n) xs) (take n xs ++ (f ∷ [])),
          length-append (take n xs) (f ∷ []),
          length-drop (suc n) xs,
          length-take n xs,
        )
        (omega arith)

  -- The ring after a write, seen from the slot behind it, once it is full.
  written-full :
      (frames : ℕ) (xs : List F) (n : ℕ) (f : F)
      → length xs ≡ frames
      → n < frames
      → drop (suc n) (set xs n f) ++ take (suc n) (set xs n f)
        ≡ last_of frames ((drop n xs ++ take n xs) ++ (f ∷ []))
  written-full frames xs n f len inside =
      let h : n < length xs = omega arith in
      let (x, e) = drop-cons xs n h in
      let turned = drop (suc n) xs ++ (take n xs ++ (f ∷ [])) in
      rw
        (
          drop-set-lem xs n f h,
          take-set-lem xs n f h,
          e,
          append_assoc (drop (suc n) xs) (take n xs) (f ∷ []),
        )
        (sym (last_of-cons frames x turned (length-turned xs n f h ∙ len)))

  -- The same of a ring that is not full.
  written-part :
      (frames : ℕ) (xs : List F) (n : ℕ) (f : F)
      → length xs ≡ frames
      → n < frames
      → take (suc n) (set xs n f) ≡ last_of frames (take n xs ++ (f ∷ []))
  written-part frames xs n f len inside =
      let short : length (take n xs ++ (f ∷ [])) ≤ frames =
        omega (arith, length-append (take n xs) (f ∷ []), length-take n xs) in
      take-set-lem xs n f (omega arith) ∙ sym (last_of-short frames (take n xs ++ (f ∷ [])) short)

  -- At the last slot the two views are the whole ring.
  written-last :
      (xs : List F) (n : ℕ) (f : F)
      → suc n ≡ length xs
      → (drop (suc n) (set xs n f) ≡ []) × (take (suc n) (set xs n f) ≡ set xs n f)
  written-last xs n f h = (
    drop-past (suc n) (set xs n f) (omega (arith, length-set xs n f)),
    take-all (suc n) (set xs n f) (omega (arith, length-set xs n f)),
  )

  turn :
      (xs : List F) (n : ℕ) (f : F)
      → drop (suc n) (set xs n f) ≡ []
      → take (suc n) (set xs n f) ≡ set xs n f
      → set xs n f ≡ drop (suc n) (set xs n f) ++ take (suc n) (set xs n f)
  turn xs n f a b = rw (a, b)

  -- The ring remembers the last frames: when a frame comes into a ring whose slots are `frames` in
  -- number, with the position inside, it holds, oldest first, the last `frames` of what it held
  -- followed by that frame.
  pub contents-remember :
      (frames : ℕ) (f : F) (p : Preroll F)
      → IsRing frames p
      → contents (remember frames f p) ≡ last_of frames (contents p ++ (f ∷ []))
  unfolding remember
  contents-remember frames f p (len, inside) =
      let full = written-full frames p.preroll p.preroll_pos f len inside in
      let part = written-part frames p.preroll p.preroll_pos f len inside in
      elim (next-cases p.preroll_pos frames inside) [
        | inl (more, e) ↦ elim (Bool-cases p.preroll_full) [
          | inl t ↦ rw (e, t, suc-not_zero p.preroll_pos) full
          | inr n ↦ rw (e, n, suc-not_zero p.preroll_pos) part
        ]
        | inr (last, e) ↦
            let (none_left, whole) = written-last p.preroll p.preroll_pos f (last ∙ sym len) in
            elim (Bool-cases p.preroll_full) [
              | inl t ↦
                  rw (e, t)
                    (append-nil (set p.preroll p.preroll_pos f)
                      ∙ turn p.preroll p.preroll_pos f none_left whole
                      ∙ full)
              | inr n ↦ rw (e, n) (append-nil (set p.preroll p.preroll_pos f) ∙ sym whole ∙ part)
            ]
      ]

  module _ {S : Type 0} (submit : F → S → S × Bool) where
    submit_slots-lem :
        (ring : List F) (i count : ℕ) (s : S)
        → i + count ≤ length ring
        → submit_slots submit ring i count s ≡ submit_all submit (take count (drop i ring)) s
    unfolding submit_slots
    submit_slots-lem ring i zero s h = refl
    submit_slots-lem ring i (suc count) s h =
        let (f, here, e) = slot ring i (omega arith) in
        let next : i + 1 ≡ suc i = omega arith in
        rw (submit_slots, here, e)
          (and_then-cong (submit f s) (submit_slots submit ring (i + 1) count)
            (submit_all submit (take count (drop (suc i) ring)))
            (λ t.
              submit_slots-lem ring (i + 1) count t (omega arith)
              ∙ ap (λ k. submit_all submit (take count (drop k ring)) t) next))

    submit_all-append :
        (xs ys : List F) (s : S)
        → submit_all submit (xs ++ ys) s ≡ and_then (submit_all submit xs s) (submit_all submit ys)
    submit_all-append [] ys s = refl
    submit_all-append (x ∷ xs) ys s =
        and_then-cong (submit x s) (submit_all submit (xs ++ ys))
          (λ t. and_then (submit_all submit xs t) (submit_all submit ys)) (submit_all-append xs ys)
        ∙ sym (and_then_assoc (submit x s) (submit_all submit xs) (submit_all submit ys))

    -- The flush of a ring whose slots are `frames` in number, with the position inside, submits
    -- the frames that it holds, oldest first, each once, until one fails.
    pub flush_preroll-submits :
        (frames : ℕ) (p : Preroll F) (s : S)
        → IsRing frames p
        → flush_preroll submit frames p s ≡ submit_all submit (contents p) s
    unfolding flush_preroll
    flush_preroll-submits frames p s (len, inside) =
        let n = p.preroll_pos in
        let front = submit_slots-lem p.preroll 0 n in
        let back = submit_slots-lem p.preroll n (frames - n) s (omega arith) in
        let rest =
          take-all (frames - n) (drop n p.preroll) (omega (arith, length-drop n p.preroll)) in
        elim (Bool-cases p.preroll_full) [
          | inl t ↦
              rw (t, submit_all-append (drop n p.preroll) (take n p.preroll) s)
                (and_then-cong (submit_slots submit p.preroll n (frames - n) s)
                    (submit_slots submit p.preroll 0 n) (submit_all submit (take n p.preroll))
                    (λ t. front t (omega arith))
                  ∙ ap (λ r. and_then r (submit_all submit (take n p.preroll)))
                      (back ∙ ap (λ l. submit_all submit l s) rest))
          | inr f ↦ rw f (front s (omega arith))
        ]
