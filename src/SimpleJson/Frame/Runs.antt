-- ===== src/SimpleJson/Frame/Runs.antt =====
-- Runs of internal/gpsv2/device/simplejson/frame.go, and its theorem at a concrete input.
use gpstracker_backend.Base.{◌≡◌, refl, [], ◌∷◌, ◌++◌, map, replicate, arith}
use gpstracker_backend.Base.Go.{byte, late}
use gpstracker_backend.SimpleJson.Frame.{blank, read_message}
use gpstracker_backend.SimpleJson.Frame.Arrived.{frame_of, JsonVerdict, read_message-JsonVerdict}

read_message-JsonVerdict_example :
    let out =
      read_message
        (map byte (frame_of 6 2 0 (123 ∷ 125 ∷ []) 0x0a) ++ late ∷ [])
        (blank (replicate 20 7)) in
    (out.0 ≡ late ∷ []) × JsonVerdict out.1 out.2 6 (123 ∷ 125 ∷ []) 0x0a
read_message-JsonVerdict_example =
    read_message-JsonVerdict (blank (replicate 20 7)) 6 2 0 (123 ∷ 125 ∷ []) 0x0a (late ∷ []) refl
      (omega arith)
