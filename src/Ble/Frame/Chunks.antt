-- ===== src/Ble/Frame/Chunks.antt =====
-- A frame may arrive in several writes of the characteristic: how the bytes are cut does not matter.
use rockchip_1106_voice_agen.Prelude.{
  ℕ, zero, suc, ◌+◌, ◌-◌, ◌≤◌, ◌<◌, ◌≡◌, refl, sym, ap, ◌∙◌, ◌≢◌, inl, inr, true, Option, some,
  List, [], ◌∷◌, ◌++◌, arith, leb, length, get_or, take, drop, length-append, length-drop,
  get_or-append_left,
}
use mathlib.Core.List.{append_assoc}
use rockchip_1106_voice_agen.Ble.Frame.{
  be16, wait, reset, skip, deliver, check_frame, rx_step, process_frames, write_cb, rx_buf_max,
}
use rockchip_1106_voice_agen.Ble.Frame.Bounds.{
  process-skip, process-deliver, process-wait, process-reset, Ends, process_frames-Ends,
  RxStep-cases, rx_step-Progresses,
}

take-drop_append :
    (k n : ℕ) (xs ys : List ℕ) → k + n ≤ length xs → take n (drop k (xs ++ ys)) ≡ take n (drop k xs)
take-drop_append zero zero xs ys h = refl
take-drop_append zero (suc n) [] ys h = absurd (omega arith)
take-drop_append zero (suc n) (x ∷ xs) ys h =
    ap (λ t. x ∷ t) (take-drop_append zero n xs ys (omega arith))
take-drop_append (suc k) n [] ys h = absurd (omega arith)
take-drop_append (suc k) n (x ∷ xs) ys h = take-drop_append k n xs ys (omega arith)

drop-append : (n : ℕ) (xs ys : List ℕ) → n ≤ length xs → drop n (xs ++ ys) ≡ drop n xs ++ ys
drop-append zero xs ys h = refl
drop-append (suc n) [] ys h = absurd (omega arith)
drop-append (suc n) (x ∷ xs) ys h = drop-append n xs ys (omega arith)

module _ (a b : List ℕ) where
  check_frame-append : (p : ℕ) → p + 7 ≤ length a → check_frame (a ++ b) p ≡ check_frame a p
  unfolding check_frame
  check_frame-append p h = ground (
    arith,
    get_or-append_left a b (p + 7 - 1) 0,
    get_or-append_left a b (p + 7 - 2) 0,
    get_or-append_left a b (p + 7 - 3) 0,
    get_or-append_left a b 4 0,
    get_or-append_left a b 5 0,
    take-drop_append 2 (p + 2) a b,
    take-drop_append 6 (p - 2) a b,
  )

  -- A decision that is not to wait does not change when more bytes arrive.
  rx_step-append : rx_step a ≢ wait → rx_step (a ++ b) ≡ rx_step a
  unfolding rx_step
  rx_step-append h = ground (
    arith,
    length-append a b,
    get_or-append_left a b 0 0,
    get_or-append_left a b 1 0,
    get_or-append_left a b 2 0,
    get_or-append_left a b 3 0,
    check_frame-append (be16 (get_or a 2 0) (get_or a 3 0)),
  )

-- The loop on these bytes never finds a length over the buffer's size. (Such a length empties the
-- buffer, with whatever has arrived by then.)
unfoldable pub NeverResets : ℕ → List ℕ → Type 0
NeverResets zero buf = ⊥
NeverResets (suc fuel) buf = elim (rx_step buf) [
  | wait ↦ Unit
  | reset ↦ ⊥
  | skip n ↦ NeverResets fuel (drop n buf)
  | deliver cmd payload n ↦ NeverResets fuel (drop n buf)
]

module _ {S : Type 0} (handle : S → ℕ → List ℕ → S) where
  -- More fuel than is used changes nothing.
  process_frames-fuel :
      (f g : ℕ) (buf : List ℕ) (s : S)
      → length buf < f
      → length buf < g
      → process_frames handle f buf s ≡ process_frames handle g buf s
  process_frames-fuel zero g buf s p q = absurd (omega arith)
  process_frames-fuel (suc f) zero buf s p q = absurd (omega arith)
  process_frames-fuel (suc f) (suc g) buf s p q = elim (RxStep-cases (rx_step buf)) [
    | inl e ↦ rw (process-wait handle f buf s e, process-wait handle g buf s e)
    | inr (inl e) ↦ rw (process-reset handle f buf s e, process-reset handle g buf s e)
    | inr (inr (inl (n, e))) ↦
        let t : (0 < n) × (n ≤ length buf) = rw e at (rx_step-Progresses buf) in
        rw (process-skip handle f buf s e, process-skip handle g buf s e)
          (process_frames-fuel f g (drop n buf) s (omega (arith, length-drop n buf))
            (omega (arith, length-drop n buf)))
    | inr (inr (inr (cmd, payload, n, e))) ↦
        let t : (0 < n) × (n ≤ length buf) = rw e at (rx_step-Progresses buf) in
        rw (process-deliver handle f buf s e, process-deliver handle g buf s e)
          (process_frames-fuel f g (drop n buf) (handle s cmd payload)
            (omega (arith, length-drop n buf)) (omega (arith, length-drop n buf)))
  ]

  -- Going on with what the loop left, once more bytes have arrived, is what it would have done had
  -- they been there from the start.
  process_frames-append :
      (f g h : ℕ) (a b : List ℕ) (s s' : S) (rest : List ℕ)
      → NeverResets f a
      → length a + length b < g
      → length rest + length b < h
      → process_frames handle f a s ≡ some (rest, s')
      → process_frames handle g (a ++ b) s ≡ process_frames handle h (rest ++ b) s'
  unfolding NeverResets
  process_frames-append zero g h a b s s' rest never big enough e = absurd never
  process_frames-append (suc f) zero h a b s s' rest never big enough e = absurd (omega arith)
  process_frames-append (suc f) (suc g) h a b s s' rest never big enough e =
      elim (RxStep-cases (rx_step a)) [
        | inl w ↦ stays (sym (process-wait handle f a s w) ∙ e)
        | inr (inl r) ↦ absurd (rw (r, NeverResets) at never)
        | inr (inr (inl (n, k))) ↦
            let t : (0 < n) × (n ≤ length a) = rw k at (rx_step-Progresses a) in
            let ok : NeverResets f (drop n a) = rw (k, NeverResets) at never in
            rw
              (
                process-skip handle g (a ++ b) s (rx_step-append a b (λ w. cc) ∙ k),
                drop-append n a b t.1,
              )
              (process_frames-append f g h (drop n a) b s s' rest ok
                (omega (arith, length-drop n a)) enough (sym (process-skip handle f a s k) ∙ e))
        | inr (inr (inr (cmd, payload, n, k))) ↦
            let t : (0 < n) × (n ≤ length a) = rw k at (rx_step-Progresses a) in
            let ok : NeverResets f (drop n a) = rw (k, NeverResets) at never in
            rw
              (
                process-deliver handle g (a ++ b) s (rx_step-append a b (λ w. cc) ∙ k),
                drop-append n a b t.1,
              )
              (process_frames-append f g h (drop n a) b (handle s cmd payload) s' rest ok
                (omega (arith, length-drop n a)) enough (sym (process-deliver handle f a s k) ∙ e))
      ]
    where
      stays :
          ◌≡◌ {A = Option (List ℕ × S)} (some (a, s)) (some (rest, s'))
          → process_frames handle (suc g) (a ++ b) s ≡ process_frames handle h (rest ++ b) s'
      stays same =
          let ea : a ≡ rest = cc in
          let es : s ≡ s' = cc in
          rw (ea, es)
            (process_frames-fuel (suc g) h (rest ++ b) s'
              (omega (arith, ap length ea, length-append rest b))
              (omega (arith, length-append rest b)))

  -- Two writes of the characteristic do what one write of both values does: the messages that are
  -- handled, their order and the bytes that are left do not depend on where the bytes are cut, as
  -- long as both values fit the buffer together and no length beyond the buffer's size is met in the
  -- first part.
  pub write_cb-append :
      (buf : List ℕ) (s s' : S) (x : ℕ) (xs : List ℕ) (y : ℕ) (ys : List ℕ) (rest : List ℕ)
      → length buf + length (x ∷ xs) + length (y ∷ ys) ≤ rx_buf_max
      → NeverResets (suc (length buf + length (x ∷ xs))) (buf ++ (x ∷ xs))
      → write_cb handle (buf, s) 0 (x ∷ xs) ≡ some (rest, s')
      → write_cb handle (buf, s) 0 (x ∷ (xs ++ (y ∷ ys))) ≡ write_cb handle (rest, s') 0 (y ∷ ys)
  unfolding write_cb
  write_cb-append buf s s' x xs y ys rest fits never e =
      let one : leb (length buf + length (x ∷ xs)) rx_buf_max ≡ true = ground arith in
      let both : leb (length buf + length (x ∷ (xs ++ (y ∷ ys)))) rx_buf_max ≡ true =
        ground (arith, length-append xs (y ∷ ys)) in
      let first : process_frames handle (suc (length buf + length (x ∷ xs))) (buf ++ (x ∷ xs)) s
          ≡ some (rest, s') =
        rw one at e in
      let ended : Ends (length (buf ++ (x ∷ xs)))
          (process_frames handle (suc (length buf + length (x ∷ xs))) (buf ++ (x ∷ xs)) s) =
        process_frames-Ends handle (suc (length buf + length (x ∷ xs))) (buf ++ (x ∷ xs)) s
          (omega (arith, length-append buf (x ∷ xs))) in
      let left : length rest ≤ length (buf ++ (x ∷ xs)) = rw first at ended in
      let two : leb (length rest + length (y ∷ ys)) rx_buf_max ≡ true =
        ground (arith, length-append buf (x ∷ xs)) in
      rw (both, two, ← append_assoc buf (x ∷ xs) (y ∷ ys))
        (process_frames-append (suc (length buf + length (x ∷ xs)))
          (suc (length buf + length (x ∷ (xs ++ (y ∷ ys))))) (suc (length rest + length (y ∷ ys)))
          (buf ++ (x ∷ xs)) (y ∷ ys) s s' rest never
          (omega (arith, length-append xs (y ∷ ys), length-append buf (x ∷ xs))) (omega arith)
          first)
