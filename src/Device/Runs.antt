-- ===== src/Device/Runs.antt =====
-- Runs of internal/gpsv2/device/device.go, and its theorems at concrete inputs.
use gpstracker_backend.Base.{◌≡◌, refl}
use gpstracker_backend.Device.{combine_sn}

combine_mac : combine_sn 1 0xaabbccddeeff ≡ 0x1000aabbccddeeff
unfolding combine_sn
combine_mac = refl
