-- ===== src/Audio/Playback/Driver.antt =====
-- What src/audio_playback_rockit.c holds of the driver.
use rockchip_1106_voice_agen.Prelude.Int.{ℤ}
use rockchip_1106_voice_agen.Audio.Playback.{
  Playback, AoCall, ao_calloc, ao_free, ao_enable, ao_disable, ao_enable_chn, ao_disable_chn,
  ao_set_mute, ao_enable_resample, ao_disable_resample, ao_create_block, ao_send_frame,
  ao_release_block, AoAnswers, sys_init_once, open_channel, open_device, playback_open,
  playback_write, playback_drain, playback_flush, playback_close,
}
use rockchip_1106_voice_agen.Prelude.{
  ℕ, ◌≡◌, refl, ◌∙◌, inl, inr, Bool, true, false, not, ◌&&◌, Option, none, some, List, [], ◌∷◌,
  ◌++◌, arith, if◌then◌else◌, Option-cases,
}

-- What is held of the driver, and whether it is muted.
pub record AoHeld : Type 0 where
  pub ao_memory : Bool
  pub ao_device : Bool
  pub ao_channel : Bool
  pub ao_resample : Bool
  pub ao_block_held : Bool
  pub ao_silent : Bool

-- One call, `none` where it may not be made. Muting takes effect if the driver says so.
abbrev pub ao_one : AoCall → AoHeld → Option AoHeld
ao_one (ao_calloc ok) h = if h.ao_memory then none else some (record h { ao_memory = ok })
ao_one ao_free h = if h.ao_memory then some (record h { ao_memory = false }) else none
ao_one (ao_enable ok) h = if h.ao_device then none else some (record h { ao_device = ok })
ao_one ao_disable h = if h.ao_device then some (record h { ao_device = false }) else none
ao_one (ao_enable_chn ok) h =
    if h.ao_device && not h.ao_channel then some (record h { ao_channel = ok }) else none
ao_one ao_disable_chn h = if h.ao_channel then some (record h { ao_channel = false }) else none
ao_one (ao_enable_resample rate ok) h =
    if h.ao_channel && not h.ao_resample then some (record h { ao_resample = ok }) else none
ao_one ao_disable_resample h =
    if h.ao_resample then some (record h { ao_resample = false }) else none
ao_one (ao_create_block len pcm ok) h =
    if h.ao_block_held then none else some (record h { ao_block_held = ok })
ao_one (ao_send_frame ok) h = if h.ao_channel && h.ao_block_held then some h else none
ao_one ao_release_block h =
    if h.ao_block_held then some (record h { ao_block_held = false }) else none
ao_one (ao_set_mute on fade ok) h = some (record h { ao_silent = if ok then on else h.ao_silent })
ao_one _ h = some h

pub ao_all : List AoCall → AoHeld → Option AoHeld
ao_all [] h = some h
ao_all (c ∷ cs) h = elim (ao_one c h) [ none ↦ none | some k ↦ ao_all cs k ]

-- Nothing is held; an open playback is held.
abbrev pub ao_nothing : AoHeld
ao_nothing = record {
  ao_memory = false;
  ao_device = false;
  ao_channel = false;
  ao_resample = false;
  ao_block_held = false;
  ao_silent = false;
}

abbrev pub ao_open : Playback → AoHeld
ao_open p = record ao_nothing {
  ao_memory = true;
  ao_device = true;
  ao_channel = true;
  ao_resample = p.resample_enabled;
}

abbrev pub ao_after : Option Playback → AoHeld
ao_after none = ao_nothing
ao_after (some p) = ao_open p

-- What is done with an open playback.
pub data Use : Type 0 where
  write : List ℤ → ℕ → Use
  drain : Use
  flush : Use

abbrev pub use_one : AoAnswers → Use → Playback → Playback × List AoCall
use_one a (write pcm frames) p = let r = playback_write a pcm frames p in (r.0, r.2)
use_one a drain p = (p, playback_drain p)
use_one a flush p = playback_flush a p

-- Any uses, each with the answers of the driver, and the close.
pub use_all : List (AoAnswers × Use) → AoAnswers → Playback → List AoCall
use_all [] last p = playback_close last p
use_all ((a, u) ∷ us) last p = let r = use_one a u p in r.1 ++ use_all us last r.0

-- The driver unmutes when it is told to.
abbrev pub all_unmute : List (AoAnswers × Use) → Bool
all_unmute [] = true
all_unmute ((a, u) ∷ us) = a.ao_unmuted && all_unmute us

ao_all-append :
    (cs ds : List AoCall) (h k : AoHeld) → ao_all cs h ≡ some k → ao_all (cs ++ ds) h ≡ ao_all ds k
unfolding ao_all
ao_all-append [] ds h k e = ground arith
ao_all-append (c ∷ cs) ds h k e = elim (Option-cases (ao_one c h)) [
  | inl n ↦ cc (rw (n, ao_all) at e)
  | inr (m, n) ↦ rw (n, ao_all) (ao_all-append cs ds m k (rw (ao_all, n) at e))
]

use_one-open :
    (a : AoAnswers) (u : Use) (p : Playback)
    → a.ao_unmuted ≡ true
    → let r = use_one a u p in ao_all r.1 (ao_open p) ≡ some (ao_open r.0)
unfolding ao_all playback_write playback_drain playback_flush
use_one-open a (write pcm frames) p m = ground arith
use_one-open a drain p m = refl
use_one-open a flush p m = ground arith

use_all-closes :
    (us : List (AoAnswers × Use)) (last : AoAnswers) (p : Playback)
    → all_unmute us ≡ true
    → ao_all (use_all us last p) (ao_open p) ≡ some ao_nothing
unfolding use_all
use_all-closes [] last p m = unfold ao_all playback_close in ground arith
use_all-closes ((a, u) ∷ us) last p m =
    let r = use_one a u p in
    ao_all-append r.1 (use_all us last r.0) (ao_open p) (ao_open r.0)
      (use_one-open a u p (ground arith))
    ∙ use_all-closes us last r.0 (ground arith)

-- An open that fails holds nothing of the driver; one that succeeds holds the device, the channel and,
-- if it has been enabled, the resampler, and whatever is written, drained and flushed then, each block
-- that is made is given back, the driver is not left muted, and after the close nothing is held, while
-- the driver unmutes when it is told to.
pub playback-closes :
    (a last : AoAnswers) (in_rate in_channels : ℕ) (inited : Bool) (us : List (AoAnswers × Use))
    (p : Playback)
    → all_unmute us ≡ true
    → let o = playback_open a in_rate in_channels inited in
      (ao_all o.2 ao_nothing ≡ some (ao_after o.1))
      × (ao_all (use_all us last p) (ao_open p) ≡ some ao_nothing)
unfolding playback_open sys_init_once open_device open_channel ao_all
playback-closes a last in_rate in_channels inited us p m =
    (ground arith, use_all-closes us last p m)
