-- ===== src/Tts.antt =====
-- The playback of the server's voice, src/udp_tts.c: its globals and the entry points that other
-- threads call. The closed core is reached through answers that the model is given.
pub mod Thread
pub mod Wait
use rockchip_1106_voice_agen.Prelude.Int.{ℤ, pos, negsuc}
use rockchip_1106_voice_agen.Prelude.{
  ℕ, suc, ◌+◌, ◌-◌, ◌%◌, ◌^◌, Bool, true, false, not, ◌&&◌, ◌||◌, Option, none, some, List, [], ◌∷◌,
  ◌++◌, leb, ◌==◌, if◌then◌else◌,
}

-- The g_tts_* globals, and `playback`, the local of zh_udp_tts_play_thread_main, of which no other
-- function knows. A playback is a number. `has_ws` says that g_tts_ws is not NULL.
pub record Tts : Type 0 where
  pub play_running : Bool
  pub flush_pending : Bool
  pub playing : Bool
  pub drop_stale_pending : Bool
  pub interrupt_generation : ℕ  -- uint32_t
  pub packet_count : ℕ  -- uint64_t
  pub packet_chat_count : ℤ  -- int32_t
  pub last_audio_ms : ℕ  -- uint64_t
  pub open_fail_log_ms : ℕ  -- uint64_t
  pub active_playback : Option ℕ
  pub playback : Option ℕ
  pub has_ws : Bool

-- What the voice asks of the rest of the program.
pub data Act : Type 0 where
  open_playback : ℕ → Act
  write_playback : ℕ → List ℤ → Act
  flush_playback : ℕ → Act
  drain_playback : ℕ → Act
  close_playback : ℕ → Act
  reset_decoder : Act
  destroy_decoder : Act
  interrupt_music : Act
  play_pending_music : Act  -- zh_core_ws_on_tts_round_done
  transport_stop : Act
  transport_interrupt : Act

-- `a - b` of two uint64_t
abbrev pub sub_u64 : ℕ → ℕ → ℕ
sub_u64 a b = (a + 2 ^ 64 - b % 2 ^ 64) % 2 ^ 64

abbrev pub is_same : Option ℕ → ℕ → Bool
is_same none h = false
is_same (some g) h = g == h

-- zh_tts_release_playback
unfoldable pub release_playback : Bool → Tts → Tts × List Act
release_playback drain t = elim t.playback [
  | none ↦ (record t { last_audio_ms = 0; playing = false }, [])
  | some h ↦ (
    record t {
      active_playback = if is_same t.active_playback h then none else t.active_playback;
      playback = none;
      last_audio_ms = 0;
      playing = false;
    },
    (if drain then drain_playback h else flush_playback h) ∷ close_playback h ∷ [],
  )
]

-- zh_udp_tts_start. `transport` is the answer of zh_core_tts_transport_start, `created` that of
-- pthread_create, `ws` says that a session is given. A thread that is made begins with no playback
-- of its own.
unfoldable pub tts_start : Bool → Bool → Bool → Tts → Tts × Bool × List Act
tts_start ws transport created t =
    if not transport
    then (record t { has_ws = ws }, false, [])
    else if t.play_running
    then (record t { has_ws = ws }, true, [])
    else (
      record t {
        has_ws = ws;
        flush_pending = false;
        playing = false;
        drop_stale_pending = false;
        interrupt_generation = 0;
        packet_count = 0;
        packet_chat_count = negsuc 0;
        last_audio_ms = 0;
        open_fail_log_ms = 0;
        play_running = created;
      },
      created,
      if created then [] else transport_stop ∷ [],
    )

-- What zh_udp_tts_stop and zh_udp_tts_interrupt do, one after the other: single stores without a lock,
-- the part under g_tts_playback_mutex, and the calls of the core.
pub data Store : Type 0 where
  clear_running : Store
  raise_flush : Store
  clear_playing : Store
  clear_stale : Store
  mark_stale : Store
  next_generation : Store
  clear_last_audio : Store
  clear_count : Store
  clear_chat : Store
  flush_active : Store
  stop_transport : Store
  interrupt_transport : Store

unfoldable pub perform : Store → Tts → Tts × List Act
perform clear_running t = (record t { play_running = false }, [])
perform raise_flush t = (record t { flush_pending = true }, [])
perform clear_playing t = (record t { playing = false }, [])
perform clear_stale t = (record t { drop_stale_pending = false }, [])
perform mark_stale t = (record t { drop_stale_pending = true }, [])
perform next_generation t =
    (record t { interrupt_generation = (t.interrupt_generation + 1) % 2 ^ 32 }, [])
perform clear_last_audio t = (record t { last_audio_ms = 0 }, [])
perform clear_count t = (record t { packet_count = 0 }, [])
perform clear_chat t = (record t { packet_chat_count = negsuc 0 }, [])
perform flush_active t = (t, elim t.active_playback [ none ↦ [] | some h ↦ flush_playback h ∷ [] ])
perform stop_transport t = (t, transport_stop ∷ [])
perform interrupt_transport t = (t, transport_interrupt ∷ [])

-- zh_udp_tts_stop
unfoldable pub tts_stop : List Store
tts_stop = clear_running ∷ raise_flush ∷ clear_playing ∷ clear_stale ∷ stop_transport ∷ []

-- zh_udp_tts_interrupt
unfoldable pub tts_interrupt : List Store
tts_interrupt =
    raise_flush ∷ clear_playing ∷ mark_stale ∷ next_generation ∷ clear_last_audio ∷ clear_count
    ∷ clear_chat ∷ flush_active ∷ interrupt_transport ∷ []

-- zh_udp_tts_set_playing
unfoldable pub tts_set_playing : Bool → Tts → Tts
tts_set_playing playing t = record t { playing = playing }

-- zh_udp_tts_is_busy, with the core's answer to zh_core_tts_transport_has_pending_data
unfoldable pub tts_is_busy : Bool → Tts → Bool
tts_is_busy pending t = t.playing || pending

-- zh_udp_tts_is_round_done. `completed` is the answer of zh_ws_is_tts_completed.
unfoldable pub tts_is_round_done : Bool → Bool → Tts → Bool
tts_is_round_done completed pending t = t.has_ws && completed && not t.playing && not pending

-- What zh_udp_tts_wait comes to.
pub data Waiting : Type 0 where
  still_waiting : Waiting
  timed_out : Waiting
  wait_transport : ℤ → Waiting  -- it returns what zh_core_tts_transport_wait answers to this

-- The loop of zh_udp_tts_wait after `waited` ms. `looks` are the values of g_tts_play_running that
-- it finds.
unfoldable pub wait_playing : ℤ → ℕ → List Bool → Waiting
wait_playing timeout waited [] = still_waiting
wait_playing (negsuc n) waited (running ∷ looks) =
    let rest = wait_playing (negsuc n) (waited + 50) looks in
    if running then rest else wait_transport (negsuc n)
wait_playing (pos n) waited (running ∷ looks) =
    let rest = wait_playing (pos n) (waited + 50) looks in
    if not running
    then wait_transport (if n == 0 then pos 0 else if leb n waited then pos 1 else pos (n - waited))
    else if not (n == 0) && leb n (waited + 50)
    then timed_out
    else rest

-- zh_udp_tts_wait
unfoldable pub tts_wait : ℤ → List Bool → Waiting
unfolding wait_playing
tts_wait timeout looks = wait_playing timeout 0 looks
