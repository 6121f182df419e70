-- ===== src/Tests/Sound.antt =====
-- Runs of the sound path (src/audio_uplink.c, src/audio_capture_rockit.c) and of the music queue
-- (src/music_player.c).
use rockchip_1106_voice_agen.Prelude.Int.{ℤ, pos}
use rockchip_1106_voice_agen.Text.{codes}
use rockchip_1106_voice_agen.Audio.Gate.{Gate, config_thresholds}
use rockchip_1106_voice_agen.Audio.Preroll.{Preroll, remember, flush_preroll}
use rockchip_1106_voice_agen.Audio.Preroll.Laws.{
  contents, last_of, submit_all, contents-remember, flush_preroll-submits,
}
use rockchip_1106_voice_agen.Audio.Uplink.{
  Vad, Core, Sees, Uplink, submit_frame, left_channel, speak, turn,
}
use rockchip_1106_voice_agen.Audio.Uplink.Laws.{opening, begun, speak-starts, turn-keeps_ring}
use rockchip_1106_voice_agen.Audio.Capture.{Capture, Fetch, frame, not_ready, capture_read}
use rockchip_1106_voice_agen.Audio.Capture.Laws.{brought, output, capture_read-conserves}
use rockchip_1106_voice_agen.Music.Queue.{
  Player, quit, wake, play_urls, is_empty, should_abort, start, stop_player,
}
use rockchip_1106_voice_agen.Music.Queue.Laws.{
  playlist, items, Wakes, play_urls-playlist, wake-playlist, stop_player-final,
}
use rockchip_1106_voice_agen.Prelude.{
  ℕ, ◌≡◌, refl, ◌⊎◌, Bool, true, false, Option, none, some, List, [], ◌∷◌, ◌++◌, arith,
  if◌then◌else◌, length,
}

abbrev open_gate : Gate
open_gate = record { gate_open = true; below_close_frames = 0 }

-- Three slots, of which the first two were written last.
abbrev ring : Preroll (List ℤ)
ring = record {
  preroll = (pos 4 ∷ pos 0 ∷ []) ∷ (pos 5 ∷ pos 0 ∷ []) ∷ (pos 3 ∷ pos 0 ∷ []) ∷ [];
  preroll_pos = 2;
  preroll_full = true;
}

contents-remember_example :
    contents (remember 3 (pos 6 ∷ pos 0 ∷ []) ring)
    ≡ last_of 3 (contents ring ++ ((pos 6 ∷ pos 0 ∷ []) ∷ []))
contents-remember_example = contents-remember 3 (pos 6 ∷ pos 0 ∷ []) ring (refl, omega arith)

abbrev collect_frames : List ℤ → List (List ℤ) → List (List ℤ) × Bool
collect_frames f done = (done ++ (f ∷ []), true)

flush_preroll-submits_example :
    flush_preroll collect_frames 3 ring [] ≡ submit_all collect_frames (contents ring) []
flush_preroll-submits_example = flush_preroll-submits collect_frames 3 ring [] (refl, omega arith)

abbrev core : Core
core = record {
  frame_samples = 1;
  opus_samples = 1;
  preroll_frames = 3;
  thresholds = config_thresholds;
  apply_gain = λ s. s;
  vad = λ f. some (record { speech_active = true; speech_started = false; speech_ended = false });
  encode = λ pcm. some (1 ∷ []);
  send_ok = λ opus. true;
  begin_ok = true;
}

abbrev sees : Sees
sees = record {
  has_ws = true;
  music_active = false;
  stt_completed = false;
  stt_completed_later = false;
  tts_playing = false;
}

abbrev listening : Uplink
listening = record {
  ring = ring;
  speech_active = false;
  gate = open_gate;
  stt_completed_seen = false;
  music_reported = some false;
}

abbrev speaking : Uplink
speaking = record listening { speech_active = true }

abbrev onset : Vad
onset = record { speech_active = true; speech_started = true; speech_ended = false }

all_sent :
    (submit_all (submit_frame core) (opening core (pos 6 ∷ pos 0 ∷ []) listening) (begun [])).1
    ≡ true
unfolding submit_frame left_channel
all_sent = refl

speak-starts_example :
    (speak core sees (pos 6 ∷ pos 0 ∷ []) onset listening []).1
    ≡ (submit_all (submit_frame core) (opening core (pos 6 ∷ pos 0 ∷ []) listening) (begun [])).0
speak-starts_example =
    speak-starts core sees (pos 6 ∷ pos 0 ∷ []) onset listening [] (refl, omega arith) refl refl
      refl refl refl all_sent

turn-keeps_ring_example : (turn core sees (pos 6 ∷ pos 0 ∷ []) speaking).0.ring ≡ ring
turn-keeps_ring_example = turn-keeps_ring core sees (pos 6 ∷ pos 0 ∷ []) speaking refl refl

abbrev empty_capture : Capture
empty_capture = record { stash = []; stash_cap = 0 }

abbrev fetches : List Fetch
fetches = not_ready ∷ frame (pos 1 ∷ pos 2 ∷ []) ∷ []

capture_read-conserves_example :
    let r = capture_read 8 (λ n. true) 3 fetches empty_capture in
    (output (r.1) ++ (r.0.stash ++ brought (r.2)) ≡ [] ++ brought fetches)
    × (length (output (r.1)) ≡ 0 ⊎ length (output (r.1)) ≡ 3)
capture_read-conserves_example =
    capture_read-conserves 8 (λ n. true) 3 fetches empty_capture (λ n. refl)

-- A player whose gains are numbers.
abbrev player : Player ℕ
player = record {
  queue = [];
  pending = record { url = codes "a"; gain = 1 } ∷ [];
  running = true;
  stop = false;
  playing = true;
  token = 5;
  stream_running = false;
}

abbrev urls : List (Option (List ℕ))
urls = some (codes "b") ∷ none ∷ some [] ∷ some (codes "c") ∷ []

play_urls-playlist_example :
    (playlist (play_urls (λ g. g) 2 urls player)
      ≡ (if is_empty urls then playlist player else items 2 urls))
    × (play_urls (λ g. g) 2 [] player ≡ player)
play_urls-playlist_example = play_urls-playlist (λ g. g) 2 urls player

wake-playlist_example : Wakes player (wake player) (playlist player)
wake-playlist_example = wake-playlist player

stop_player-final_example :
    (start (stop_player player) ≡ (stop_player player, false))
    × ((wake (play_urls (λ g. g) 2 urls ((start (stop_player player)).0))).1 ≡ quit)
    × (should_abort (stop_player player) 5 ≡ true)
stop_player-final_example = stop_player-final (λ g. g) 2 urls player 5 refl
