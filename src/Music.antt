-- ===== src/Music.antt =====
-- The music player, src/music_player.c.
pub mod Queue
pub mod Decoder
