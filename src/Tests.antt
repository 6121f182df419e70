-- ===== src/Tests.antt =====
-- Concrete runs of the models, which also show that the theorems' conditions can hold.
mod Frames
mod Provisioning
mod Sound
mod Talk
mod Faces
mod Speech
mod Voice
mod Device
mod Core
mod Serving
