-- ===== src/Gt06.antt =====
-- internal/gpsv2/device/gt06: the frames, the payloads and the device.
pub mod Message
pub mod Frame
pub mod Parser
pub mod State
pub mod Command
pub mod Device
pub mod Life
