-- ===== src/Ble.antt =====
-- The provisioning server, ble_sdk/btgatt-server.c.
pub mod Crc
pub mod Frame
pub mod Json
pub mod Wpa
pub mod WifiList
pub mod Server
pub mod Serving
pub mod Gatt
