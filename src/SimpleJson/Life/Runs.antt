-- ===== src/SimpleJson/Life/Runs.antt =====
-- The theorem on the connections of a JSON device at concrete inputs.
use gpstracker_backend.Base.{◌≡◌, [], ◌∷◌}
use gpstracker_backend.SimpleJson.Life.{replace_json}
use gpstracker_backend.SimpleJson.Life.Spin.{reading_from, keeping, laps, replace_json-laps}

replace_json-laps_example :
    laps 3 (replace_json 2 (reading_from 1 [])) ≡ keeping 2 (2 ∷ 2 ∷ 1 ∷ 1 ∷ [])
replace_json-laps_example = replace_json-laps 2 2 1 []
