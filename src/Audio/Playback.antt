-- ===== src/Audio/Playback.antt =====
-- The playback of src/audio_playback_rockit.c: what its operations call of the Rockchip library. What
-- the library answers is given; a size_t is a number.
pub mod Driver
use rockchip_1106_voice_agen.Prelude.Int.{ℤ}
use rockchip_1106_voice_agen.Prelude.{
  ℕ, ◌*◌, ◌%◌, ◌^◌, Bool, true, false, not, ◌&&◌, ◌||◌, Option, none, some, List, [], ◌∷◌, ◌++◌,
  ◌==◌, if◌then◌else◌,
}

-- struct zh_ao_playback, but for the device and the channel, which are constants.
pub record Playback : Type 0 where
  pub in_rate : ℕ
  pub in_channels : ℕ
  pub resample_enabled : Bool
  pub soft_flushed : Bool

-- A call, with its answer where the code looks at it.
pub data AoCall : Type 0 where
  ao_sys_init : Bool → AoCall
  ao_calloc : Bool → AoCall
  ao_free : AoCall
  ao_set_pub_attr : Bool → Bool → AoCall  -- mono or not
  ao_enable : Bool → AoCall
  ao_disable : AoCall
  ao_set_track_mode : AoCall
  ao_enable_chn : Bool → AoCall
  ao_disable_chn : AoCall
  ao_set_mute : Bool → Bool → Bool → AoCall  -- whether to mute, whether to fade, and the answer
  ao_enable_resample : ℕ → Bool → AoCall
  ao_disable_resample : AoCall
  ao_create_block : ℕ → List ℤ → Bool → AoCall
  ao_send_frame : Bool → AoCall
  ao_release_block : AoCall
  ao_wait_eos : AoCall
  ao_clear_buffer : AoCall
  ao_sleep : AoCall

pub record AoAnswers : Type 0 where
  pub ao_inited : Bool
  pub ao_allocated : Bool
  pub ao_attr_set : Bool
  pub ao_enabled : Bool
  pub ao_chn_enabled : Bool
  pub ao_unmuted : Bool
  pub ao_muted : Bool
  pub ao_resampled : Bool
  pub ao_block : Bool
  pub ao_sent : Bool

-- ZH_TTS_SAMPLE_RATE
abbrev pub device_rate : ℕ
device_rate = 16000

-- zh_rk_map_rate, with the rates for the constants
unfoldable pub map_rate : ℕ → ℕ
map_rate rate =
    if rate == 8000 || rate == 24000 || rate == 32000 || rate == 44100 || rate == 48000
    then rate
    else device_rate

-- zh_rk_sys_init_once: g_sys_inited after it, whether it returns 0, and the calls.
unfoldable pub sys_init_once : AoAnswers → Bool → Bool × Bool × List AoCall
sys_init_once a inited =
    if inited then (true, true, []) else (a.ao_inited, a.ao_inited, ao_sys_init a.ao_inited ∷ [])

-- The end of zh_ao_playback_open, once the channel is enabled.
unfoldable pub open_channel : AoAnswers → ℕ → ℕ → Playback × List AoCall
unfolding map_rate
open_channel a in_rate in_channels =
    let resampled = not (in_rate == device_rate) in
    (
      record {
        in_rate = in_rate;
        in_channels = in_channels;
        resample_enabled = resampled && a.ao_resampled;
        soft_flushed = false;
      },
      ao_set_mute false false a.ao_unmuted
          ∷ (if resampled then ao_enable_resample (map_rate in_rate) a.ao_resampled ∷ [] else []),
    )

-- The part of zh_ao_playback_open on the device, with the memory for the playback.
unfoldable pub open_device : AoAnswers → ℕ → ℕ → Option Playback × List AoCall
unfolding open_channel
open_device a in_rate in_channels =
    let mono = in_channels == 1 in
    let track = if mono then ao_set_track_mode ∷ [] else [] in
    let o = open_channel a in_rate in_channels in
    if not a.ao_attr_set
    then (none, ao_set_pub_attr mono false ∷ ao_free ∷ [])
    else if not a.ao_enabled
    then (none, ao_set_pub_attr mono true ∷ ao_enable false ∷ ao_free ∷ [])
    else if not a.ao_chn_enabled
    then (
      none,
      ao_set_pub_attr mono true
          ∷ ao_enable true
          ∷ (track ++ (ao_enable_chn false ∷ ao_disable ∷ ao_free ∷ [])),
    )
    else (
      some o.0,
      ao_set_pub_attr mono true ∷ ao_enable true ∷ (track ++ (ao_enable_chn true ∷ o.1)),
    )

-- zh_ao_playback_open: g_sys_inited after it, the playback, and the calls.
unfoldable pub playback_open : AoAnswers → ℕ → ℕ → Bool → Bool × Option Playback × List AoCall
unfolding sys_init_once open_device
playback_open a in_rate in_channels inited =
    let s = sys_init_once a inited in
    let o = open_device a in_rate in_channels in
    if in_rate == 0 || in_channels == 0
    then (inited, none, [])
    else if not s.1
    then (s.0, none, s.2)
    else if not a.ao_allocated
    then (s.0, none, s.2 ++ (ao_calloc false ∷ []))
    else (s.0, o.0, s.2 ++ (ao_calloc true ∷ o.1))

-- zh_ao_playback_write: the playback, whether it returns 0, and the calls.
unfoldable pub playback_write : AoAnswers → List ℤ → ℕ → Playback → Playback × Bool × List AoCall
playback_write a pcm frames p =
    let len = frames * p.in_channels * 2 % 2 ^ 32 in
    if frames == 0
    then (p, false, [])
    else if not a.ao_block
    then (p, false, ao_create_block len pcm false ∷ [])
    else (
      if a.ao_sent then record p { soft_flushed = false } else p,
      a.ao_sent,
      ao_create_block len pcm true ∷ ao_send_frame a.ao_sent ∷ ao_release_block ∷ [],
    )

-- zh_ao_playback_drain
unfoldable pub playback_drain : Playback → List AoCall
playback_drain p = ao_wait_eos ∷ ao_clear_buffer ∷ []

-- zh_ao_playback_flush
unfoldable pub playback_flush : AoAnswers → Playback → Playback × List AoCall
playback_flush a p =
    let fade =
      if p.soft_flushed
      then []
      else ao_set_mute true true a.ao_muted ∷ (if a.ao_muted then ao_sleep ∷ [] else []) in
    (
      record p { soft_flushed = true },
      fade ++ (ao_clear_buffer ∷ ao_set_mute false false a.ao_unmuted ∷ []),
    )

-- zh_ao_playback_close
unfoldable pub playback_close : AoAnswers → Playback → List AoCall
playback_close a p =
    ao_set_mute false false a.ao_unmuted
    ∷ ((if p.resample_enabled then ao_disable_resample ∷ [] else [])
        ++ (ao_disable_chn ∷ ao_disable ∷ ao_free ∷ []))
