-- ===== src/Device.antt =====
-- The device around the assistant: clocks, files, identity, prompt tones and the script that
-- starts provisioning (src/utils.c, src/config.c, src/prompt_tone.c, src/ble_provision.c).
pub mod Clock
pub mod Files
pub mod Identity
pub mod Prompt
pub mod Provision
