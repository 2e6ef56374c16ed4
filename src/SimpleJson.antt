-- ===== src/SimpleJson.antt =====
-- internal/gpsv2/device/simplejson: the frames of a JSON device, its loop and its connections.
pub mod Frame
pub mod Device
pub mod Life
