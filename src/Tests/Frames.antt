-- ===== src/Tests/Frames.antt =====
-- Runs of the provisioning frames (ble_sdk/btgatt-server.c).
use rockchip_1106_voice_agen.Ble.Frame.{packet, process_frames, write_cb, rx_step}
use rockchip_1106_voice_agen.Ble.Frame.Bounds.{Ends, process_frames-Ends}
use rockchip_1106_voice_agen.Ble.Frame.RoundTrip.{process_frames-corrupted}
use rockchip_1106_voice_agen.Ble.Frame.Stream.{stream, process_frames-stream}
use rockchip_1106_voice_agen.Ble.Frame.Chunks.{NeverResets, write_cb-append}
use rockchip_1106_voice_agen.Prelude.{ℕ, ◌≡◌, refl, some, List, [], ◌∷◌, ◌++◌, arith, set}

abbrev Seen : Type 0
Seen = List (ℕ × List ℕ)

-- A handler that notes what it is given.
abbrev note : Seen → ℕ → List ℕ → Seen
note seen cmd payload = seen ++ ((cmd, payload) ∷ [])

process_frames-corrupted_example :
    process_frames note 2 (set (packet 0x1001 (1 ∷ 2 ∷ 3 ∷ [])) 7 9 ++ (0 ∷ [])) []
    ≡ process_frames note 1 (0 ∷ []) []
process_frames-corrupted_example =
    process_frames-corrupted 0x1001 2 9 (1 ∷ []) (3 ∷ []) (0 ∷ []) (omega arith) (omega arith)
      (omega arith) ((omega arith, tt)) (λ e. omega arith) note 1 []

process_frames-stream_example :
    process_frames note 3 (stream ((0x1001, []) ∷ (0x1002, 5 ∷ []) ∷ []) ++ (0x4A ∷ [])) []
    ≡ process_frames note 1 (0x4A ∷ []) ((0x1001, []) ∷ (0x1002, 5 ∷ []) ∷ [])
process_frames-stream_example =
    process_frames-stream note 1 ((0x1001, []) ∷ (0x1002, 5 ∷ []) ∷ []) (0x4A ∷ []) []
      ((omega arith, omega arith), ((omega arith, omega arith), tt))

process_frames-Ends_example : Ends 3 (process_frames note 4 (0x4A ∷ 0x4C ∷ 0 ∷ []) [])
process_frames-Ends_example = process_frames-Ends note 4 (0x4A ∷ 0x4C ∷ 0 ∷ []) [] (omega arith)

first_write : write_cb note (0x4A ∷ [], []) 0 (0x4C ∷ 0 ∷ []) ≡ some (0x4A ∷ 0x4C ∷ 0 ∷ [], [])
unfolding write_cb process_frames rx_step
first_write = refl

not_reset : NeverResets 4 (0x4A ∷ 0x4C ∷ 0 ∷ [])
unfolding NeverResets rx_step
not_reset = tt

write_cb-append_example :
    write_cb note (0x4A ∷ [], []) 0 (0x4C ∷ 0 ∷ 6 ∷ [])
    ≡ write_cb note (0x4A ∷ 0x4C ∷ 0 ∷ [], []) 0 (6 ∷ [])
write_cb-append_example =
    write_cb-append note (0x4A ∷ []) [] [] 0x4C (0 ∷ []) 6 [] (0x4A ∷ 0x4C ∷ 0 ∷ []) (omega arith)
      not_reset first_write
