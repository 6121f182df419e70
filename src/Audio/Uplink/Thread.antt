-- ===== src/Audio/Uplink/Thread.antt =====
-- The life of the uplink thread, src/audio_uplink.c: its start and stop, what it sets up before its
-- loop and takes down behind it.
use rockchip_1106_voice_agen.Prelude.{
  ◌≡◌, refl, Bool, true, false, not, ◌&&◌, Option, none, some, List, [], ◌∷◌, ◌++◌, arith,
  if◌then◌else◌,
}

-- What the thread and its entry points ask for, with the answer where they look at it.
pub data UplinkCall : Type 0 where
  core_start : Bool → UplinkCall
  core_stop : UplinkCall
  create_thread : Bool → UplinkCall
  join_thread : UplinkCall
  init_capture : Bool → UplinkCall
  start_capture : Bool → UplinkCall
  stop_capture : UplinkCall
  deinit_capture : UplinkCall
  create_vad : Bool → UplinkCall
  destroy_vad : UplinkCall
  create_encoder : Bool → UplinkCall
  destroy_encoder : UplinkCall
  alloc_frame : Bool → UplinkCall
  free_frame : UplinkCall
  alloc_vad_frame : Bool → UplinkCall
  free_vad_frame : UplinkCall
  run_turns : UplinkCall

-- zh_audio_uplink_start: g_uplink_running after it, whether it returns 0, and the calls.
unfoldable pub uplink_start : Bool → Bool → Bool → Bool × Bool × List UplinkCall
uplink_start started created running =
    if running
    then (true, true, [])
    else if not started
    then (false, false, core_start false ∷ [])
    else if created
    then (true, true, core_start true ∷ create_thread true ∷ [])
    else (false, false, core_start true ∷ create_thread false ∷ core_stop ∷ [])

-- zh_audio_uplink_stop: g_uplink_running after it, and the calls.
unfoldable pub uplink_stop : Bool → Bool × List UplinkCall
uplink_stop running =
    if running then (false, join_thread ∷ core_stop ∷ []) else (false, core_stop ∷ [])

-- The answers while zh_audio_uplink_thread_main sets up. `encoder` is whether there is an encoder, and
-- whether it is good.
pub record SetUp : Type 0 where
  pub capture : Bool
  pub capture_started : Bool
  pub vad : Bool
  pub encoder : Option Bool
  pub frame : Bool
  pub vad_frame : Bool

-- What the thread holds.
pub record Holding : Type 0 where
  pub has_capture : Bool
  pub has_vad : Bool
  pub has_encoder : Bool
  pub has_frame : Bool
  pub has_vad_frame : Bool

-- From `cleanup` on: what is there is given back. Neither stopping and tearing down a capture that is
-- NULL nor destroying a detector that is NULL does anything.
unfoldable pub clean_up : Holding → List UplinkCall
clean_up h =
    (if h.has_vad_frame then free_vad_frame ∷ [] else [])
    ++ (if h.has_frame then free_frame ∷ [] else [])
    ++ (if h.has_encoder then destroy_encoder ∷ [] else [])
    ++ (if h.has_vad then destroy_vad ∷ [] else [])
    ++ (if h.has_capture then stop_capture ∷ deinit_capture ∷ [] else [])

-- The two buffers, and the loop.
unfoldable pub set_up_frames : SetUp → Holding → Holding × List UplinkCall
set_up_frames s h =
    if not s.frame
    then (h, alloc_frame false ∷ [])
    else if not s.vad_frame
    then (record h { has_frame = true }, alloc_frame true ∷ alloc_vad_frame false ∷ [])
    else (
      record h { has_frame = true; has_vad_frame = true },
      alloc_frame true ∷ alloc_vad_frame true ∷ run_turns ∷ [],
    )

-- The encoder, and what follows. One that is there but not good is kept for the cleanup.
unfoldable pub set_up_encoder : SetUp → Holding → Holding × List UplinkCall
unfolding set_up_frames
set_up_encoder s h = elim s.encoder [
  | none ↦ (h, create_encoder false ∷ [])
  | some good ↦
      let held = record h { has_encoder = true } in
      let rest = set_up_frames s held in
      if good then (rest.0, create_encoder true ∷ rest.1) else (held, create_encoder true ∷ [])
]

-- What zh_audio_uplink_thread_main does up to `cleanup`.
unfoldable pub set_up : SetUp → Holding × List UplinkCall
unfolding set_up_encoder
set_up s =
    let empty : Holding = record {
      has_capture = false;
      has_vad = false;
      has_encoder = false;
      has_frame = false;
      has_vad_frame = false;
    } in
    let captured = record empty { has_capture = true } in
    let listening = record captured { has_vad = true } in
    let rest = set_up_encoder s listening in
    if not s.capture
    then (empty, init_capture false ∷ [])
    else if not s.capture_started
    then (captured, init_capture true ∷ start_capture false ∷ [])
    else if not s.vad
    then (captured, init_capture true ∷ start_capture true ∷ create_vad false ∷ [])
    else (rest.0, init_capture true ∷ start_capture true ∷ create_vad true ∷ rest.1)

-- zh_audio_uplink_thread_main: g_uplink_running after it, and the calls.
unfoldable pub uplink_thread : SetUp → Bool × List UplinkCall
unfolding set_up clean_up
uplink_thread s = let r = set_up s in (false, r.1 ++ clean_up r.0)

-- One call, `none` where it may not be made: nothing is got that is held, nothing is given back or
-- used that is not.
abbrev pub hold_one : UplinkCall → Holding → Option Holding
hold_one (init_capture ok) h = if h.has_capture then none else some (record h { has_capture = ok })
hold_one (start_capture ok) h = if h.has_capture then some h else none
hold_one stop_capture h = if h.has_capture then some h else none
hold_one deinit_capture h = if h.has_capture then some (record h { has_capture = false }) else none
hold_one (create_vad ok) h = if h.has_vad then none else some (record h { has_vad = ok })
hold_one destroy_vad h = if h.has_vad then some (record h { has_vad = false }) else none
hold_one (create_encoder ok) h =
    if h.has_encoder then none else some (record h { has_encoder = ok })
hold_one destroy_encoder h = if h.has_encoder then some (record h { has_encoder = false }) else none
hold_one (alloc_frame ok) h = if h.has_frame then none else some (record h { has_frame = ok })
hold_one free_frame h = if h.has_frame then some (record h { has_frame = false }) else none
hold_one (alloc_vad_frame ok) h =
    if h.has_vad_frame then none else some (record h { has_vad_frame = ok })
hold_one free_vad_frame h =
    if h.has_vad_frame then some (record h { has_vad_frame = false }) else none
hold_one run_turns h =
    if h.has_capture && h.has_vad && h.has_encoder && h.has_frame && h.has_vad_frame
    then some h
    else none
hold_one _ h = some h

pub hold_all : List UplinkCall → Holding → Option Holding
hold_all [] h = some h
hold_all (c ∷ cs) h = elim (hold_one c h) [ none ↦ none | some k ↦ hold_all cs k ]

abbrev pub no_holding : Holding
no_holding = record {
  has_capture = false;
  has_vad = false;
  has_encoder = false;
  has_frame = false;
  has_vad_frame = false;
}

-- Wherever the set-up of the thread breaks off, all that it has got is given back once, its loop runs
-- only if all is there, and it leaves with its running flag cleared, so that a later start makes a
-- new thread.
pub uplink_thread-releases :
    (s : SetUp) (started created : Bool)
    → let o = uplink_thread s in
      (hold_all o.1 no_holding ≡ some no_holding)
      × (uplink_start started created o.0 ≡ uplink_start started created false)
unfolding uplink_thread set_up set_up_encoder set_up_frames clean_up hold_all
uplink_thread-releases s started created = (ground arith, refl)
