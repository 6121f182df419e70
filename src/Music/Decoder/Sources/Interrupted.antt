-- ===== src/Music/Decoder/Sources/Interrupted.antt =====
-- What an interrupt does to a file that src/music_player.c plays.
use rockchip_1106_voice_agen.Prelude.Int.{ℤ}
use rockchip_1106_voice_agen.Music.Decoder.{Decoder, Decoded, Sound}
use rockchip_1106_voice_agen.Music.Decoder.Sources.{Chunk, Ending}
use rockchip_1106_voice_agen.Prelude.{◌≢◌, ℕ, Option, List, [], ◌∷◌, ◌++◌, length}

module _ {D : Type 0} (decode : D → List ℕ → Decoded D)
    (resample : List ℤ → ℕ → ℕ → ℕ → ℕ → ℕ → ℕ × List ℤ) (scale : Option (ℤ → ℤ)) where
  -- The chunks have bytes.
  abbrev pub AllBytes : List Chunk → Type 0
  AllBytes [] = Unit
  AllBytes (c ∷ cs) = (length c.chunk ≢ 0) × AllBytes cs

  -- What comes after a part of the chunks.
  abbrev glue :
      (Decoder D → Decoder D × Ending × List Sound)
      → Decoder D × Ending × List Sound
      → Decoder D × Ending × List Sound
  glue go x = let r = go x.0 in (r.0, r.1, x.2 ++ r.2)
