-- ===== src/Face.antt =====
-- The face recognition of the client, src/face_recognition.c: its cache of names, its index file,
-- the choice of the best match and the upload of a frame.
pub mod Cache
pub mod Escape
pub mod Engine
pub mod Enroll
pub mod Match
pub mod Upload
pub mod Workers
