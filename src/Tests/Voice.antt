-- ===== src/Tests/Voice.antt =====
-- Runs of the decoder of the music player (src/music_player.c).
use rockchip_1106_voice_agen.Tests.Speech.{half}
use rockchip_1106_voice_agen.Prelude.Int.{pos}
use rockchip_1106_voice_agen.Music.Decoder.{
  Decoder, Decoded, Turn, fails, continues, starves, decoder_feed,
}
use rockchip_1106_voice_agen.Music.Decoder.Resample.{Double, resample_linear}
use rockchip_1106_voice_agen.Music.Decoder.Taken.{Frames}
use rockchip_1106_voice_agen.Music.Decoder.Buffer.{
  IsSized, decoder_feed-keeps, decoder_feed-bounded,
}
use rockchip_1106_voice_agen.Music.Decoder.Sources.{
  Chunk, new_decoder, play_local_file, http_stream_play,
}
use rockchip_1106_voice_agen.Music.Decoder.Sources.Closing.{Proper, sources-close}
use rockchip_1106_voice_agen.Prelude.{
  ℕ, ◌+◌, ◌*◌, ◌/◌, ◌≤◌, ◌≡◌, ◌≢◌, ◌⊎◌, Bool, true, false, none, some, List, [], ◌∷◌, ◌++◌, arith,
  length,
}

-- A codec whose frames are of 4 bytes with two samples at 8000 Hz, and positions in thousandths.
abbrev codec : ℕ → List ℕ → Decoded ℕ
codec n (a ∷ b ∷ c ∷ d ∷ bs) = record {
  next = n + 1;
  frame_bytes = 4;
  samples = 2;
  frame_channels = 1;
  hz = 8000;
  pcm = pos a ∷ pos b ∷ [];
}
codec n _ = record { next = n; frame_bytes = 0; samples = 0; frame_channels = 0; hz = 0; pcm = [] }

abbrev thousandths : Double ℕ
thousandths = record {
  origin = 0;
  ratio = λ a b. a * 1000 / b;
  add = λ p q. p + q;
  floor = λ p. p / 1000;
  mix = λ p a b. a;
}

abbrev turn_at : ℕ → Turn
turn_at n = record {
  abort = false;
  tries = (false, none) ∷ (false, some 9) ∷ [];
  alloc = true;
  play_abort = false;
  wrote = true;
}

abbrev fresh : Decoder ℕ
fresh = new_decoder 0

abbrev six : List ℕ
six = 1 ∷ 2 ∷ 3 ∷ 4 ∷ 5 ∷ 6 ∷ []

decoder_feed-keeps_example :
    let r = decoder_feed codec (resample_linear thousandths) (some half) true turn_at six fresh in
    (r.1 ≡ fails → r.0.bytes ≡ fresh.bytes ++ six)
    × (r.1 ≡ continues → Frames codec 0 (fresh.bytes ++ six) r.0.bytes)
decoder_feed-keeps_example =
    decoder_feed-keeps codec (resample_linear thousandths) (some half) turn_at 1
      (2 ∷ 3 ∷ 4 ∷ 5 ∷ 6 ∷ []) fresh

decoder_feed-bounded_example :
    let r = decoder_feed codec (resample_linear thousandths) (some half) true turn_at six fresh in
    let need = length fresh.bytes + length six in
    IsSized r.0 × (r.1 ≢ starves) × ((r.0.cap ≤ fresh.cap) ⊎ (r.0.cap ≤ 8192 + 2 * need))
decoder_feed-bounded_example =
    decoder_feed-bounded codec (resample_linear thousandths) (some half) true turn_at six fresh
      (omega arith)

abbrev chunk_of : Bool → Bool → Chunk
chunk_of before at_frame = record {
  chunk = six;
  abort_before = before;
  buffer_alloc = true;
  turns = λ n. record (turn_at n) { abort = at_frame };
}

abbrev song : List Chunk
song = chunk_of false false ∷ chunk_of false false ∷ []

sources-close_example :
    let file =
      play_local_file codec
        (resample_linear thousandths)
        (some half)
        0
        (b'/' ∷ b'a' ∷ [])
        false
        true
        song
        false in
    let stream =
      http_stream_play codec
        (resample_linear thousandths)
        (some half)
        0
        false
        song
        true
        true
        true
        200 in
    Proper file.1 × Proper stream.1
sources-close_example =
    sources-close codec (resample_linear thousandths) (some half) 0 (b'/' ∷ b'a' ∷ []) false true
      false song true true true 200
