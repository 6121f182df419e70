-- ===== src/Ble/Frame/Bounds.antt =====
-- The receive loop ends, and the buffer never holds more than WIFI_RX_BUF_MAX bytes.
use rockchip_1106_voice_agen.Prelude.{
  ℕ, zero, suc, ◌+◌, ◌≤◌, ◌<◌, ◌≡◌, refl, ◌⊎◌, inl, inr, ◌&&◌, Option, none, some, List, [], ◌∷◌,
  ◌++◌, arith, leb, ◌==◌, Bool-cases, length, drop, length-append, length-drop,
}
use rockchip_1106_voice_agen.Ble.Frame.{
  RxStep, wait, reset, skip, deliver, rx_step, process_frames, write_cb, rx_buf_max,
}

-- A round that goes on drops at least one byte and at most what is there.
abbrev Progresses : ℕ → RxStep → Type 0
Progresses len wait = Unit
Progresses len reset = Unit
Progresses len (skip n) = (0 < n) × (n ≤ len)
Progresses len (deliver cmd payload n) = (0 < n) × (n ≤ len)

pub rx_step-Progresses : (buf : List ℕ) → Progresses (length buf) (rx_step buf)
unfolding rx_step
rx_step-Progresses buf = ground arith

pub RxStep-cases :
    (st : RxStep)
    → (st ≡ wait)
      ⊎ (st ≡ reset)
      ⊎ ((n : ℕ) × (st ≡ skip n))
      ⊎ ((cmd : ℕ) × (payload : List ℕ) × (n : ℕ) × (st ≡ deliver cmd payload n))
RxStep-cases wait = inl refl
RxStep-cases reset = inr (inl refl)
RxStep-cases (skip n) = inr (inr (inl (n, refl)))
RxStep-cases (deliver cmd payload n) = inr (inr (inr (cmd, payload, n, refl)))

-- One round of the loop, by what the round decides.
module _ {S : Type 0} (handle : S → ℕ → List ℕ → S) (fuel : ℕ) (buf : List ℕ) (s : S) where
  pub process-wait : rx_step buf ≡ wait → process_frames handle (suc fuel) buf s ≡ some (buf, s)
  unfolding process_frames
  process-wait e = rw (e, process_frames)

  pub process-reset : rx_step buf ≡ reset → process_frames handle (suc fuel) buf s ≡ some ([], s)
  unfolding process_frames
  process-reset e = rw (e, process_frames)

  pub process-skip :
      {n : ℕ}
      → rx_step buf ≡ skip n
      → process_frames handle (suc fuel) buf s ≡ process_frames handle fuel (drop n buf) s
  unfolding process_frames
  process-skip e = rw (e, process_frames)

  pub process-deliver :
      {cmd : ℕ} {payload : List ℕ} {n : ℕ}
      → rx_step buf ≡ deliver cmd payload n
      → process_frames handle (suc fuel) buf s
        ≡ process_frames handle fuel (drop n buf) (handle s cmd payload)
  unfolding process_frames
  process-deliver e = rw (e, process_frames)

-- The loop has ended, with at most `bound` bytes left.
abbrev pub Ends : {S : Type 0} → ℕ → Option (List ℕ × S) → Type 0
Ends bound none = ⊥
Ends bound (some (rest, s)) = length rest ≤ bound

Ends-mono : {S : Type 0} (a b : ℕ) (r : Option (List ℕ × S)) → a ≤ b → Ends a r → Ends b r
Ends-mono a b none h e = e
Ends-mono a b (some (rest, s)) h e = omega arith

module _ {S : Type 0} (handle : S → ℕ → List ℕ → S) where
  -- wifi_process_frames ends, in fewer rounds than the buffer has bytes and one more, and leaves
  -- no more bytes than it was given.
  pub process_frames-Ends :
      (fuel : ℕ) (buf : List ℕ) (s : S)
      → length buf < fuel
      → Ends (length buf) (process_frames handle fuel buf s)
  process_frames-Ends zero buf s h = absurd (omega arith)
  process_frames-Ends (suc fuel) buf s h = elim (RxStep-cases (rx_step buf)) [
    | inl e ↦ rw (process-wait handle fuel buf s e) (omega arith)
    | inr (inl e) ↦ rw (process-reset handle fuel buf s e) (omega arith)
    | inr (inr (inl (n, e))) ↦
        let p : (0 < n) × (n ≤ length buf) = rw e at (rx_step-Progresses buf) in
        rw (process-skip handle fuel buf s e) (
          Ends-mono (length (drop n buf)) (length buf) _ (omega (arith, length-drop n buf))
            (process_frames-Ends fuel (drop n buf) s (omega (arith, length-drop n buf))))
    | inr (inr (inr (cmd, payload, n, e))) ↦
        let p : (0 < n) × (n ≤ length buf) = rw e at (rx_step-Progresses buf) in
        rw (process-deliver handle fuel buf s e) (
          Ends-mono (length (drop n buf)) (length buf) _ (omega (arith, length-drop n buf)) (
            process_frames-Ends fuel (drop n buf) (handle s cmd payload)
              (omega (arith, length-drop n buf))))
  ]

  -- wifi_write_cb returns for every offset and value, and keeps `wifi_rx_len` within the buffer.
  pub write_cb-bounded :
      (buf : List ℕ) (s : S) (offset : ℕ) (value : List ℕ)
      → length buf ≤ rx_buf_max
      → Ends rx_buf_max (write_cb handle (buf, s) offset value)
  unfolding write_cb
  write_cb-bounded buf s offset [] h = h
  write_cb-bounded buf s offset (x ∷ xs) h =
      let all = buf ++ (x ∷ xs) in
      let done : Ends (length all)
          (process_frames handle (suc (length buf + length (x ∷ xs))) all s) =
        process_frames-Ends (suc (length buf + length (x ∷ xs))) all s
          (omega (arith, length-append buf (x ∷ xs))) in
      elim (Bool-cases (offset == 0 && leb (length buf + length (x ∷ xs)) rx_buf_max)) [
        | inl e ↦
            let fits : length buf + length (x ∷ xs) ≤ rx_buf_max = ground arith in
            rw e
              (Ends-mono (length all) rx_buf_max _ (omega (arith, length-append buf (x ∷ xs))) done)
        | inr e ↦ rw e (omega arith)
      ]
