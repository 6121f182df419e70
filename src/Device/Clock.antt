-- ===== src/Device/Clock.antt =====
-- Times in src/utils.c: zh_realtime_clock_needs_bootstrap, zh_ensure_realtime_clock_valid and
-- zh_cond_time_after_ms. A time_t is a signed number of seconds.
use rockchip_1106_voice_agen.Prelude.Int.{ℤ, pos, negsuc, ◌≤ℤ◌}
use rockchip_1106_voice_agen.Prelude.{
  ℕ, ◌+◌, ◌-◌, ◌*◌, ◌/◌, ◌%◌, ◌<◌, ◌≡◌, Bool, true, false, not, ◌&&◌, Option, none, some, arith,
  leb, ltb, ◌==◌, ◌^◌, ◌⊎◌, if◌then◌else◌,
}

abbrev pub slack : ℕ
slack = 24 * 60 * 60

-- zh_realtime_clock_needs_bootstrap
unfoldable pub needs_bootstrap : ℤ → ℤ → Bool
needs_bootstrap now (negsuc n) = false
needs_bootstrap (negsuc m) (pos b) = not (b == 0)
needs_bootstrap (pos m) (pos b) =
    if b == 0 then false else if leb b slack then ltb m b else ltb m (b - slack)

-- The return value of zh_ensure_realtime_clock_valid.
pub data Clocked : Type 0 where
  clock_error : Clocked  -- -1
  clock_valid : Clocked  -- 0
  clock_set : Clocked  -- 1

-- zh_ensure_realtime_clock_valid: its return value and the seconds of the clock after it. `reads`
-- says that clock_gettime works, `build` is what zh_get_build_time makes of the build date,
-- `settable` the answer of clock_settime.
unfoldable pub ensure_clock : Bool → ℤ → Option ℤ → Bool → Clocked × ℤ
unfolding needs_bootstrap
ensure_clock false now build settable = (clock_error, now)
ensure_clock true now none settable = (clock_error, now)
ensure_clock true now (some build) settable =
    if not (needs_bootstrap now build)
    then (clock_valid, now)
    else if settable
    then (clock_set, build)
    else (clock_error, now)

-- A struct timespec.
pub record TimeSpec : Type 0 where
  pub tv_sec : ℕ
  pub tv_nsec : ℕ

-- zh_cond_time_after_ms of the time `now`, for a number of milliseconds that is not negative
unfoldable pub cond_time_after_ms : TimeSpec → ℕ → TimeSpec
cond_time_after_ms now ms =
    let sec = now.tv_sec + ms / 1000 in
    let nsec = now.tv_nsec + ms % 1000 * 1000000 in
    if leb 1000000000 nsec
    then record { tv_sec = sec + 1; tv_nsec = nsec - 1000000000 }
    else record { tv_sec = sec; tv_nsec = nsec }

-- zh_now_ms
unfoldable pub now_ms : TimeSpec → ℕ
now_ms t = (t.tv_sec * 1000 + t.tv_nsec / 1000000) % 2 ^ 64

-- The time-out is exact: the time after it is the nanoseconds of the time before and of the
-- milliseconds together, and it is a proper time if the one before was.
pub cond_time_after_ms-exact :
    (now : TimeSpec) (ms : ℕ)
    → now.tv_nsec < 1000000000
    → let t = cond_time_after_ms now ms in
      (t.tv_sec * 1000000000 + t.tv_nsec ≡ now.tv_sec * 1000000000 + now.tv_nsec + ms * 1000000)
      × (t.tv_nsec < 1000000000)
unfolding cond_time_after_ms
cond_time_after_ms-exact now ms h = ground arith

-- Where the clock can be read and set and the build date is known, the clock is good for TLS after
-- zh_ensure_realtime_clock_valid, that is, it needs no further start; it is never turned back, and
-- where it does not need to be set it stays as it was. If it cannot be set, it stays as it was too.
pub ensure_clock-valid :
    (now build : ℤ) (settable : Bool)
    → let r = ensure_clock true now (some build) settable in
      (now ≤ℤ r.1)
      × (needs_bootstrap r.1 build ≡ needs_bootstrap now build && not settable)
      × ((r.0 ≡ clock_error) ⊎ (needs_bootstrap r.1 build ≡ false))
unfolding ensure_clock needs_bootstrap
ensure_clock-valid now build settable = ground arith
