-- ===== src/Music/Decoder/Sources.antt =====
-- The two sources of music in src/music_player.c: a file and an HTTP stream.
pub mod Closing
pub mod Interrupted
use rockchip_1106_voice_agen.Prelude.Int.{ℤ}
use rockchip_1106_voice_agen.Music.Decoder.{
  Decoder, Decoded, Sound, Turn, Verdict, fails, continues, starves, decoder_feed, decoder_finish,
}
use rockchip_1106_voice_agen.Prelude.{
  ℕ, Bool, true, false, not, ◌&&◌, ◌||◌, Option, none, some, List, [], ◌∷◌, ◌++◌, ◌==◌,
  if◌then◌else◌, length,
}

-- Bytes that fread or the network delivers, with the answers while they are fed: whether
-- zh_music_should_abort says so before, and those of the feed.
pub record Chunk : Type 0 where
  pub chunk : List ℕ
  pub abort_before : Bool
  pub buffer_alloc : Bool
  pub turns : ℕ → Turn

-- How a source ends.
pub data Ending : Type 0 where
  exhausted : Ending
  aborted : Ending  -- zh_music_should_abort was seen between two chunks
  refused : Ending  -- zh_music_decoder_feed returned -1

-- memset of the decoder and mp3dec_init
abbrev pub new_decoder : {D : Type 0} → D → Decoder D
new_decoder init = record {
  state = init;
  bytes = [];
  cap = 0;
  resample_cap_frames = 0;
  play = none;
  opened = false;
  play_rate = 0;
  channels = 0;
}

-- After a feed of a chunk: on, or out.
unfoldable pub after_feed :
    {D : Type 0}
    → Verdict
    → Decoder D
    → List Sound
    → Decoder D × Ending × List Sound
    → Decoder D × Ending × List Sound
after_feed continues d sounds rest = (rest.0, rest.1, sounds ++ rest.2)
after_feed fails d sounds rest = (d, refused, sounds)
after_feed starves d sounds rest = (d, refused, sounds)

module _ {D : Type 0} (decode : D → List ℕ → Decoded D)
    (resample : List ℤ → ℕ → ℕ → ℕ → ℕ → ℕ → ℕ × List ℤ) (scale : Option (ℤ → ℤ)) where
  -- The loop of zh_music_play_local_file. A chunk of no bytes is the end.
  unfoldable pub file_loop : List Chunk → Decoder D → Decoder D × Ending × List Sound
  unfolding after_feed
  file_loop [] d = (d, exhausted, [])
  file_loop (c ∷ cs) d =
      let fed = decoder_feed decode resample scale c.buffer_alloc c.turns c.chunk d in
      let rest = file_loop cs fed.0 in
      if length c.chunk == 0
      then (d, exhausted, [])
      else if c.abort_before
      then (d, aborted, [])
      else after_feed fed.1 fed.0 fed.2 rest

  -- zh_music_play_local_file. `aborts` is the first zh_music_should_abort, `opens` says that the
  -- file is readable and opened, `broken` is ferror.
  unfoldable pub play_local_file : D → List ℕ → Bool → Bool → List Chunk → Bool → Bool × List Sound
  unfolding file_loop decoder_finish
  play_local_file init path aborts opens chunks broken =
      if length path == 0 || aborts || not opens
      then (false, [])
      else (let played = file_loop chunks (new_decoder init) in
          let interrupted : Bool = elim played.1 [ aborted ↦ true | _ ↦ false ] in
          let whole : Bool = elim played.1 [ exhausted ↦ not broken | _ ↦ false ] in
          (whole, played.2 ++ (decoder_finish interrupted played.0).1))

  -- The chunks that bithion_core_http_get_stream hands to zh_music_http_stream_on_data, which
  -- answers -1 where the feed fails; the core then stops.
  unfoldable pub stream_loop : List Chunk → Decoder D → Decoder D × Ending × List Sound
  unfolding after_feed
  stream_loop [] d = (d, exhausted, [])
  stream_loop (c ∷ cs) d =
      let fed = decoder_feed decode resample scale c.buffer_alloc c.turns c.chunk d in
      let rest = stream_loop cs fed.0 in after_feed fed.1 fed.0 fed.2 rest

  -- zh_music_http_stream_play. `aborts` and `aborts_after` are zh_music_should_abort before and
  -- after, `streams` is g_music_stream_running after, `answered` the answer of the core and
  -- `status` that of the server.
  unfoldable pub http_stream_play :
      D → Bool → List Chunk → Bool → Bool → Bool → ℕ → Bool × List Sound
  unfolding stream_loop decoder_finish
  http_stream_play init aborts chunks aborts_after streams answered status =
      if aborts
      then (false, [])
      else (let played = stream_loop chunks (new_decoder init) in
          (
            answered && status == 200,
            played.2 ++ (decoder_finish (aborts_after || not streams) played.0).1,
          ))
