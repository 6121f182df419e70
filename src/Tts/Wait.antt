-- ===== src/Tts/Wait.antt =====
-- zh_udp_tts_wait of src/udp_tts.c comes back in time.
use rockchip_1106_voice_agen.Prelude.Int.{pos}
use rockchip_1106_voice_agen.Tts.{timed_out, wait_transport, wait_playing, tts_wait}
use rockchip_1106_voice_agen.Prelude.{
  ℕ, zero, suc, ◌+◌, ◌-◌, ◌*◌, ◌≤◌, ◌<◌, ◌≡◌, Bool, true, false, List, ◌∷◌, ◌++◌, arith, replicate,
}

wait_playing-out :
    (n waited k : ℕ) (later : List Bool)
    → waited < n
    → n ≤ waited + 50 * k
    → wait_playing (pos n) waited (replicate k true ++ later) ≡ timed_out
unfolding wait_playing
wait_playing-out n waited zero later low up = absurd (omega arith)
wait_playing-out n waited (suc k) later low up =
    ground (arith, wait_playing-out n (waited + 50) k later)

wait_playing-left :
    (n waited k : ℕ) (later : List Bool)
    → waited + 50 * k < n
    → wait_playing (pos n) waited (replicate k true ++ (false ∷ later))
      ≡ wait_transport (pos (n - (waited + 50 * k)))
unfolding wait_playing
wait_playing-left n waited zero later low = ground arith
wait_playing-left n waited (suc k) later low =
    let rest = wait_playing-left n (waited + 50) k later (omega arith) in
    let e : waited + 50 + 50 * k ≡ waited + 50 * suc k = omega arith in ground (arith, rest, e)

-- With a time-out of `n` ms the wait is over after the first look that makes 50 ms times the looks
-- reach `n`, if the thread has played until then. If the thread is found to have left earlier, after
-- `k` looks, what is left of the time goes to the wait for the transport.
pub tts_wait-in_time :
    (n k j : ℕ) (later : List Bool)
    → 50 * k < n
    → n ≤ 50 * j
    → (tts_wait (pos n) (replicate j true ++ later) ≡ timed_out)
      × (tts_wait (pos n) (replicate k true ++ (false ∷ later)) ≡ wait_transport (pos (n - 50 * k)))
unfolding tts_wait
tts_wait-in_time n k j later low up = (
  wait_playing-out n 0 j later (omega arith) (omega arith),
  let e : 0 + 50 * k ≡ 50 * k = omega arith in
      rw e at (wait_playing-left n 0 k later (omega arith)),
)
