-- ===== src/Ble/Frame/Stream.antt =====
-- Several frames, and frames that arrive in pieces.
use rockchip_1106_voice_agen.Prelude.{
  ℕ, zero, suc, ◌+◌, ◌≤◌, ◌<◌, ◌≡◌, refl, sym, ap, ◌∙◌, ◌≢◌, true, some, List, [], ◌∷◌, ◌++◌, arith,
  leb, length, length-append,
}
use mathlib.Core.List.{append_assoc, append-nil}
use rockchip_1106_voice_agen.Ble.Frame.{packet, skip, rx_step, process_frames, write_cb, rx_buf_max}
use rockchip_1106_voice_agen.Ble.Frame.Bounds.{process-skip}
use rockchip_1106_voice_agen.Ble.Frame.RoundTrip.{length-packet, process_frames-packet}

-- A command and its payload.
abbrev pub Message : Type 0
Message = ℕ × List ℕ

-- A message that fits the receive buffer.
abbrev pub Fits : Message → Type 0
Fits (cmd, bytes) = (cmd < 65536) × (length bytes + 9 ≤ rx_buf_max)

abbrev pub AllFit : List Message → Type 0
AllFit [] = Unit
AllFit (m ∷ ms) = Fits m × AllFit ms

-- The bytes of the messages' packets, one behind the other.
abbrev pub stream : List Message → List ℕ
stream [] = []
stream ((cmd, bytes) ∷ ms) = packet cmd bytes ++ stream ms

module _ {S : Type 0} (handle : S → ℕ → List ℕ → S) where
  -- The handler on each message in turn.
  abbrev pub handle_all : S → List Message → S
  handle_all s [] = s
  handle_all s ((cmd, bytes) ∷ ms) = handle_all (handle s cmd bytes) ms

  -- wifi_process_frames hands the messages of back-to-back packets to the handler, each once and in
  -- their order, and goes on with the bytes behind them.
  pub process_frames-stream :
      (fuel : ℕ) (ms : List Message) (rest : List ℕ) (s : S)
      → AllFit ms
      → process_frames handle (length ms + fuel) (stream ms ++ rest) s
        ≡ process_frames handle fuel rest (handle_all s ms)
  process_frames-stream fuel [] rest s fit = let e : 0 + fuel ≡ fuel = omega arith in rw e
  process_frames-stream fuel ((cmd, bytes) ∷ ms) rest s fit =
      let e : suc (length ms) + fuel ≡ suc (length ms + fuel) = omega arith in
      rw
        (
          e,
          append_assoc (packet cmd bytes) (stream ms) rest,
          process_frames-packet cmd bytes (stream ms ++ rest) fit.0.0 fit.0.1 handle
              (length ms + fuel) s,
        )
        (process_frames-stream fuel ms rest (handle s cmd bytes) fit.1)

-- Bytes none of which can open a frame.
abbrev pub IsNoise : List ℕ → Type 0
IsNoise [] = Unit
IsNoise (x ∷ xs) = (x ≢ 0x4A) × IsNoise xs

rx_step-noise : (x : ℕ) (buf : List ℕ) → x ≢ 0x4A → 1 ≤ length buf → rx_step (x ∷ buf) ≡ skip 1
unfolding rx_step
rx_step-noise x buf h l = ground arith

module _ {S : Type 0} (handle : S → ℕ → List ℕ → S) where
  -- After noise the loop finds the next frame: with no byte 0x4A in front, the bytes from the
  -- first 0x4A on are treated as if they stood alone.
  pub process_frames-noise :
      (fuel : ℕ) (noise buf : List ℕ) (s : S)
      → IsNoise noise
      → 1 ≤ length buf
      → process_frames handle (length noise + fuel) (noise ++ buf) s
        ≡ process_frames handle fuel buf s
  process_frames-noise fuel [] buf s h l = let e : 0 + fuel ≡ fuel = omega arith in rw e
  process_frames-noise fuel (x ∷ xs) buf s h l =
      let e : suc (length xs) + fuel ≡ suc (length xs + fuel) = omega arith in
      rw
        (
          e,
          process-skip handle (length xs + fuel) (x ∷ (xs ++ buf)) s
              (rx_step-noise x (xs ++ buf) h.0 (omega (arith, length-append xs buf))),
        )
        (process_frames-noise fuel xs buf s h.1 l)

-- The bytes that one write hands on, whatever their shape.
write_cb-all :
    {S : Type 0} (handle : S → ℕ → List ℕ → S) (s : S) (value : List ℕ)
    → 0 < length value
    → length value ≤ rx_buf_max
    → write_cb handle ([], s) 0 value ≡ process_frames handle (suc (length value)) value s
unfolding write_cb
write_cb-all handle s [] some_byte fits = absurd (omega arith)
write_cb-all handle s (x ∷ xs) some_byte fits =
    let e : 0 + length (x ∷ xs) ≡ length (x ∷ xs) = omega arith in
    let t : leb (length (x ∷ xs)) rx_buf_max ≡ true = ground arith in rw (e, t)

process_frames-nil :
    {S : Type 0} (handle : S → ℕ → List ℕ → S) (fuel : ℕ) (s : S)
    → 0 < fuel
    → process_frames handle fuel [] s ≡ some ([], s)
unfolding process_frames rx_step
process_frames-nil handle zero s h = absurd (omega arith)
process_frames-nil handle (suc fuel) s h = refl

-- A packet that arrives in one write at an empty buffer is handled, and leaves the buffer empty.
pub write_cb-packet :
    {S : Type 0} (handle : S → ℕ → List ℕ → S) (s : S) (cmd : ℕ) (bytes : List ℕ)
    → cmd < 65536
    → length bytes + 9 ≤ rx_buf_max
    → write_cb handle ([], s) 0 (packet cmd bytes) ≡ some ([], handle s cmd bytes)
write_cb-packet handle s cmd bytes cmd16 fits =
    let n = length-packet cmd bytes fits in
    write_cb-all handle s (packet cmd bytes) (omega (arith, n)) (omega (arith, n))
    ∙ ap (λ t. process_frames handle (suc (length (packet cmd bytes))) t s)
        (sym (append-nil (packet cmd bytes)))
    ∙ process_frames-packet cmd bytes [] cmd16 fits handle (length (packet cmd bytes)) s
    ∙ process_frames-nil handle (length (packet cmd bytes)) (handle s cmd bytes) (omega (arith, n))
