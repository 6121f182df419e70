-- ===== src/Audio.antt =====
-- The sound path of the client: the uplink thread (src/audio_uplink.c) and the capture that feeds
-- it (src/audio_capture_rockit.c).
pub mod Gate
pub mod Preroll
pub mod Uplink
pub mod Playback
pub mod Capture
