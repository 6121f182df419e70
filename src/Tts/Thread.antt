-- ===== src/Tts/Thread.antt =====
-- zh_udp_tts_play_thread_main of src/udp_tts.c, in small steps, so that
-- the other threads can come in between.
pub mod Events
pub mod Silence
pub mod Handles
pub mod Plays
use rockchip_1106_voice_agen.Prelude.Int.{ℤ, pos, negsuc}
use rockchip_1106_voice_agen.Tts.{
  Tts, Act, open_playback, write_playback, reset_decoder, destroy_decoder, interrupt_music,
  play_pending_music, sub_u64, is_same, release_playback, tts_is_round_done,
}
use rockchip_1106_voice_agen.Prelude.{
  ℕ, suc, ◌+◌, ◌-◌, ◌%◌, ◌^◌, ◌≡◌, refl, Bool, true, false, not, ◌&&◌, ◌||◌, Option, none, some,
  List, [], ◌∷◌, ◌++◌, map, ltb, leb, ◌==◌, if◌then◌else◌,
}

-- zh_core_tts_read_opus: below 0, 0, or above 0 with the frame, which may be empty.
pub data Read : Type 0 where
  failed : Read
  nothing : Read
  opus : List ℕ → Read

-- Where the thread is, with the locals that live there.
pub data Pc : Type 0 where
  top : Pc  -- the head of the loop
  reading : ℕ → Pc  -- in the read that waits, under this generation
  emptied : Bool → Pc  -- after a read of nothing: whether there was pending data
  got : List ℕ → Pc  -- a frame, before the test for a flush
  current : List ℕ → Pc  -- then before the test for stale data
  opening : List ℕ → Pc  -- then before the music and the playback
  decoding : List ℕ → Pc  -- at the head of zh_tts_process_opus
  decoded : List ℤ → Pc  -- in it, before the lock
  writing : List ℤ → Pc  -- in its locked part, behind the tests
  draining : Pc  -- the head of the inner loop
  draining_read : ℕ → Pc  -- in its read
  draining_got : List ℕ → Pc  -- after it
  round_end : Pc  -- after the inner loop
  exited : Pc

-- What the rest of the program answers in one step, as far as the step asks.
pub record Look : Type 0 where
  pub read : Read
  pub pending : Bool  -- zh_core_tts_transport_has_pending_data
  pub now : ℕ  -- zh_now_ms
  pub music_active : Bool
  pub opened : Option ℕ  -- zh_ao_playback_open
  pub transport_running : Bool
  pub completed : Bool  -- zh_ws_is_tts_completed
  pub chat_count : Option ℕ  -- zh_ws_get_stt_completed_chat_count
  pub pcm : Option (List ℤ)  -- opus_decode

pub record Out : Type 0 where
  pub pc : Pc
  pub tts : Tts
  pub acts : List Act

-- `(int)n` of a uint32_t
abbrev pub as_int : ℕ → ℤ
as_int n = if ltb n (2 ^ 31) then pos n else negsuc (2 ^ 32 - 1 - n)

abbrev pub same_ℤ : ℤ → ℤ → Bool
same_ℤ (pos a) (pos b) = a == b
same_ℤ (negsuc a) (negsuc b) = a == b
same_ℤ (pos a) (negsuc b) = false
same_ℤ (negsuc a) (pos b) = false

abbrev pub is_nonneg : ℤ → Bool
is_nonneg (pos n) = true
is_nonneg (negsuc n) = false

-- The playback is released without draining and the decoder reset: the answer to a flush.
unfoldable pub answer_flush : Pc → Tts → Out
unfolding release_playback
answer_flush pc t =
    let r = release_playback false t in
    record {
      pc = pc;
      tts = record r.0 { flush_pending = false };
      acts = r.1 ++ (reset_decoder ∷ []);
    }

-- Behind the loop.
unfoldable pub leave : Tts → Out
unfolding release_playback
leave t =
    let r = release_playback false t in
    record {
      pc = exited;
      tts = record r.0 { play_running = false; playing = false };
      acts = r.1 ++ (destroy_decoder ∷ []);
    }

-- The head of the thread, by whether the decoder was made.
unfoldable pub thread_begin : Bool → Tts → Out
thread_begin made t =
    if made
    then record { pc = top; tts = t; acts = [] }
    else record { pc = exited; tts = record t { play_running = false; playing = false }; acts = [] }

-- What follows the read of the outer loop.
unfoldable pub after_read : ℕ → Look → Tts → Out
unfolding leave
after_read g l t =
    if not t.play_running
    then leave t
    else if not (g == t.interrupt_generation)
    then record { pc = top; tts = t; acts = [] }
    else elim l.read [
      | failed ↦ record { pc = top; tts = t; acts = [] }
      | nothing ↦ record { pc = emptied l.pending; tts = t; acts = [] }
      | opus f ↦ elim f [
        | [] ↦ record { pc = top; tts = t; acts = [] }
        | c ∷ cs ↦ record { pc = got (c ∷ cs); tts = t; acts = [] }
      ]
    ]

-- The end of the drain of an interrupted round.
unfoldable pub end_drop : Bool → Tts → Tts × List Act
end_drop pending t =
    if t.drop_stale_pending && not pending
    then (record t { drop_stale_pending = false }, reset_decoder ∷ [])
    else (t, [])

-- The time-out of a silent playback.
unfoldable pub end_idle : ℕ → Bool → Tts → Tts × List Act
unfolding release_playback
end_idle now pending t = elim t.playback [
  | none ↦ (t, [])
  | some h ↦
      if not pending && (not (t.last_audio_ms == 0) && leb 2000 (sub_u64 now t.last_audio_ms))
      then (let r = release_playback true t in (r.0, r.1 ++ (reset_decoder ∷ [])))
      else (t, [])
]

-- The branch of a read of nothing, once it has asked for pending data.
unfoldable pub after_empty : Bool → Look → Tts → Out
unfolding end_drop end_idle leave
after_empty pending l t =
    let d = end_drop pending t in
    let i = end_idle l.now pending d.0 in
    let music =
      if tts_is_round_done l.completed l.pending i.0 then play_pending_music ∷ [] else [] in
    let acts = d.1 ++ (i.1 ++ music) in
    if not l.transport_running && not pending
    then (let o = leave i.0 in record o { acts = acts ++ o.acts })
    else record { pc = top; tts = i.0; acts = acts }

-- From the test of the music to the call of zh_tts_process_opus.
unfoldable pub open_for : List ℕ → Look → Tts → Out
open_for f l t =
    let music = if l.music_active then interrupt_music ∷ [] else [] in
    elim t.playback [
      | some h ↦ record { pc = decoding f; tts = t; acts = music }
      | none ↦ elim l.opened [
        | none ↦ record {
          pc = top;
          tts =
              if t.open_fail_log_ms == 0 || leb 1000 (sub_u64 l.now t.open_fail_log_ms)
              then record t { open_fail_log_ms = l.now }
              else t;
          acts = music;
        }
        | some h ↦ record {
          pc = decoding f;
          tts = record t { playback = some h; active_playback = some h };
          acts = music ++ (open_playback h ∷ []);
        }
      ]
    ]

-- The count of the packets of a conversation.
unfoldable pub count_packet : ℕ → Option ℕ → Tts → Tts
count_packet now chat t =
    let stt : ℤ = elim chat [
      | none ↦ negsuc 0
      | some n ↦ if t.has_ws then as_int n else negsuc 0
    ] in
    let fresh = is_nonneg stt && not (same_ℤ t.packet_chat_count stt) in
    record t {
      packet_chat_count = if fresh then stt else t.packet_chat_count;
      packet_count = ((if fresh then 0 else t.packet_count) + 1) % 2 ^ 64;
      playing = true;
      last_audio_ms = now;
    }

-- In zh_tts_process_opus, with the sound decoded: the tests before the lock and in it.
unfoldable pub play_pcm : List ℤ → Tts → Out
play_pcm pcm t = elim t.playback [
  | none ↦ record { pc = draining; tts = t; acts = [] }
  | some h ↦ record {
    pc =
        if is_same t.active_playback h && (not t.flush_pending && t.play_running)
        then writing pcm
        else draining;
    tts = t;
    acts = [];
  }
]

-- The rest of its locked part.
unfoldable pub write_pcm : List ℤ → Look → Tts → Out
unfolding count_packet
write_pcm pcm l t = elim t.playback [
  | none ↦ record { pc = draining; tts = t; acts = [] }
  | some h ↦ record {
    pc = draining;
    tts = count_packet l.now l.chat_count t;
    acts = write_playback h pcm ∷ [];
  }
]

-- The end of the round, after the inner loop.
unfoldable pub end_round : Look → Tts → Out
unfolding release_playback
end_round l t = elim t.playback [
  | none ↦ record { pc = top; tts = t; acts = [] }
  | some h ↦
      if t.has_ws && l.completed && not l.pending
      then (let r = release_playback true t in
          let music =
            if tts_is_round_done l.completed l.pending r.0 then play_pending_music ∷ [] else [] in
          record { pc = top; tts = r.0; acts = r.1 ++ (reset_decoder ∷ music) })
      else record { pc = top; tts = t; acts = [] }
]

-- One step. `gain` is zh_apply_gain with ZH_TTS_GAIN, in floating point.
module _ (gain : ℤ → ℤ) where
  unfoldable pub step : Look → Pc → Tts → Out
  unfolding answer_flush leave after_read after_empty open_for play_pcm write_pcm end_round
  step l top t =
      if not t.play_running
      then leave t
      else if t.flush_pending
      then answer_flush (reading t.interrupt_generation) t
      else record { pc = reading t.interrupt_generation; tts = t; acts = [] }
  step l (reading g) t = after_read g l t
  step l (emptied pending) t = after_empty pending l t
  step l (got f) t =
      if t.flush_pending then answer_flush top t else record { pc = current f; tts = t; acts = [] }
  step l (current f) t = record {
    pc = if t.drop_stale_pending then top else opening f;
    tts = t;
    acts = [];
  }
  step l (opening f) t = open_for f l t
  step l (decoding f) t =
      if t.flush_pending || not t.play_running
      then record { pc = draining; tts = t; acts = [] }
      else elim l.pcm [
        | none ↦ record { pc = draining; tts = t; acts = [] }
        | some pcm ↦ record { pc = decoded (map gain pcm); tts = t; acts = [] }
      ]
  step l (decoded pcm) t = play_pcm pcm t
  step l (writing pcm) t = write_pcm pcm l t
  step l draining t =
      if not t.play_running
      then record { pc = round_end; tts = t; acts = [] }
      else if t.flush_pending
      then answer_flush round_end t
      else record { pc = draining_read t.interrupt_generation; tts = t; acts = [] }
  step l (draining_read g) t =
      if not (g == t.interrupt_generation)
      then record { pc = draining; tts = t; acts = [] }
      else elim l.read [
        | failed ↦ record { pc = round_end; tts = t; acts = [] }
        | nothing ↦ record { pc = round_end; tts = t; acts = [] }
        | opus f ↦ record { pc = draining_got f; tts = t; acts = [] }
      ]
  step l (draining_got f) t = record {
    pc = elim f [
      | [] ↦ draining
      | c ∷ cs ↦ if t.drop_stale_pending then draining else decoding (c ∷ cs)
    ];
    tts = t;
    acts = [];
  }
  step l round_end t = end_round l t
  step l exited t = record { pc = exited; tts = t; acts = [] }
