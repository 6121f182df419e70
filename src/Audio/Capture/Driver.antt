-- ===== src/Audio/Capture/Driver.antt =====
-- The set-up of the microphone in src/audio_capture_rockit.c: the calls of the Rockchip library that
-- zh_audio_capture_init makes and takes back. What the library answers is given.
use rockchip_1106_voice_agen.Prelude.{
  ◌≡◌, ◌⊎◌, Bool, true, false, not, ◌&&◌, List, [], ◌∷◌, arith, if◌then◌else◌,
}

-- A call, with its answer where the code looks at it.
pub data RkCall : Type 0 where
  rk_calloc : Bool → RkCall
  rk_free : RkCall
  sys_init : Bool → RkCall
  sys_exit : RkCall
  set_pub_attr : Bool → RkCall
  ai_enable : Bool → RkCall
  ai_disable : RkCall
  set_vqe_attr : Bool → RkCall
  enable_vqe : Bool → RkCall
  disable_vqe : RkCall
  set_chn_param : RkCall
  enable_chn : Bool → RkCall
  disable_chn : RkCall
  disable_data_read : RkCall
  set_chn_attr : RkCall
  set_track_mode : RkCall

pub record RkAnswers : Type 0 where
  pub allocated : Bool
  pub inited : Bool
  pub attr_set : Bool
  pub enabled : Bool
  pub vqe_set : Bool
  pub vqe_enabled : Bool
  pub chn_enabled : Bool

-- The part of zh_audio_capture_init behind RK_MPI_AI_EnableVqe: whether it returns 0, and the calls.
unfoldable pub init_channel : RkAnswers → Bool × List RkCall
init_channel a =
    if not a.chn_enabled
    then (false, set_chn_param ∷ enable_chn false ∷ ai_disable ∷ sys_exit ∷ rk_free ∷ [])
    else (true, set_chn_param ∷ enable_chn true ∷ set_chn_attr ∷ set_track_mode ∷ [])

-- The part behind RK_MPI_AI_Enable, with the voice quality engine.
unfoldable pub init_vqe : RkAnswers → Bool × List RkCall
unfolding init_channel
init_vqe a =
    let rest = init_channel a in
    let undo = disable_chn ∷ ai_disable ∷ sys_exit ∷ rk_free ∷ [] in
    if not a.vqe_set
    then (false, set_vqe_attr false ∷ undo)
    else if not a.vqe_enabled
    then (false, set_vqe_attr true ∷ enable_vqe false ∷ undo)
    else (rest.0, set_vqe_attr true ∷ enable_vqe true ∷ rest.1)

-- zh_audio_capture_init
unfoldable pub capture_init : RkAnswers → Bool × List RkCall
unfolding init_vqe
capture_init a =
    let rest = init_vqe a in
    if not a.allocated
    then (false, rk_calloc false ∷ [])
    else if not a.inited
    then (false, rk_calloc true ∷ sys_init false ∷ rk_free ∷ [])
    else if not a.attr_set
    then (false, rk_calloc true ∷ sys_init true ∷ set_pub_attr false ∷ sys_exit ∷ rk_free ∷ [])
    else if not a.enabled
    then (
      false,
      rk_calloc true
          ∷ sys_init true
          ∷ set_pub_attr true
          ∷ ai_enable false
          ∷ sys_exit
          ∷ rk_free
          ∷ [],
    )
    else (rest.0, rk_calloc true ∷ sys_init true ∷ set_pub_attr true ∷ ai_enable true ∷ rest.1)

-- zh_audio_capture_deinit of a capture that zh_audio_capture_init has made, or of NULL. Its `vqe_enabled`
-- is 1. Freeing the stash is left out.
unfoldable pub capture_deinit : Bool → List RkCall
capture_deinit there =
    if there
    then disable_vqe ∷ disable_data_read ∷ disable_chn ∷ ai_disable ∷ sys_exit ∷ rk_free ∷ []
    else []

-- What is held of the library.
pub record Held : Type 0 where
  pub has_memory : Bool
  pub has_sys : Bool
  pub has_ai : Bool
  pub has_vqe : Bool
  pub has_chn : Bool

abbrev pub rk_effect : RkCall → Held → Held
rk_effect (rk_calloc ok) h = record h { has_memory = ok }
rk_effect rk_free h = record h { has_memory = false }
rk_effect (sys_init ok) h = record h { has_sys = ok }
rk_effect sys_exit h = record h { has_sys = false }
rk_effect (ai_enable ok) h = record h { has_ai = ok }
rk_effect ai_disable h = record h { has_ai = false }
rk_effect (enable_vqe ok) h = record h { has_vqe = ok }
rk_effect disable_vqe h = record h { has_vqe = false }
rk_effect (enable_chn ok) h = record h { has_chn = ok }
rk_effect disable_chn h = record h { has_chn = false }
rk_effect _ h = h

pub rk_effects : List RkCall → Held → Held
rk_effects [] h = h
rk_effects (c ∷ cs) h = rk_effects cs (rk_effect c h)

abbrev pub holds : Bool → Bool → Held
holds all vqe = record {
  has_memory = all;
  has_sys = all;
  has_ai = all;
  has_vqe = vqe;
  has_chn = all;
}

-- The set-up of the microphone either succeeds and holds all that it has asked for, which the
-- tear-down gives back, or it fails and gives back all that it had got by then, but for one thing: if
-- the channel cannot be enabled, the voice quality engine stays enabled.
pub capture_init-releases :
    (a : RkAnswers)
    → let o = capture_init a in
      let h = rk_effects o.1 (holds false false) in
      let before_channel =
        a.allocated && a.inited && a.attr_set && a.enabled && a.vqe_set && a.vqe_enabled in
      ((o.0 ≡ true)
        × (h ≡ holds true true)
        × (rk_effects (capture_deinit true) h ≡ holds false false))
      ⊎ ((o.0 ≡ false) × (h ≡ holds false before_channel))
unfolding capture_init init_vqe init_channel capture_deinit rk_effects
capture_init-releases a = ground arith
