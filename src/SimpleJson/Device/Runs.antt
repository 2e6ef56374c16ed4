-- ===== src/SimpleJson/Device/Runs.antt =====
-- The theorems on the loop of a JSON device at concrete inputs.
use gpstracker_backend.Base.Int.{pos}
use gpstracker_backend.Base.{
  ℕ, ◌≡◌, refl, true, false, List, [], ◌∷◌, map, Option, none, some, arith,
}
use gpstracker_backend.Base.Go.{late}
use gpstracker_backend.Base.Values.{plain}
use gpstracker_backend.Gt06.State.{DeviceConfig}
use gpstracker_backend.SimpleJson.Device.{
  read_on, Json, LocationMessage, zero_location, new_simple_json, run, get_location,
}
use gpstracker_backend.SimpleJson.Device.Stops.{IsLeft, run-IsLeft}
use gpstracker_backend.SimpleJson.Device.Stored.{
  Sent, clock, stream, all_calls, last_said, place_of, run-stream,
}

-- A decoder for texts of two bytes: the latitude and the longitude.
abbrev read_two : List ℕ → LocationMessage plain → Option (LocationMessage plain)
read_two (a ∷ b ∷ []) l = some (record l { latitude = a; longitude = b })
read_two _ l = none

abbrev two_bytes : Json plain
two_bytes = record { unmarshal_location = read_two; unmarshal_status = λ text st. none }

abbrev conf : DeviceConfig
conf = record {
  allow_connect = true;
  sublist_send = true;
  store = true;
  broadcast = false;
  read_deadline = pos 60;
}

abbrev one : LocationMessage plain
one = record (zero_location plain) { latitude = 52; longitude = 13 }

abbrev two : LocationMessage plain
two = record (zero_location plain) { latitude = 48; longitude = 2 }

abbrev pair : List (Sent plain)
pair =
    record { buffered = 0; read = 7; text = 52 ∷ 13 ∷ []; says = one }
    ∷ record { buffered = 0; read = 9; text = 48 ∷ 2 ∷ []; says = two }
    ∷ []

run-IsLeft_example :
    IsLeft (run plain two_bytes ((3, 1) ∷ (0, 2) ∷ []) (late ∷ []) (new_simple_json plain conf)).2
run-IsLeft_example =
    run-IsLeft plain two_bytes ((3, 1) ∷ (0, 2) ∷ []) (late ∷ []) (new_simple_json plain conf)
      (omega arith)

run-stream_example :
    let j = new_simple_json plain conf in
    let out = run plain two_bytes (map (clock plain) pair) (stream plain pair []) j in
    (out.0 ≡ [])
    × (out.1.calls ≡ all_calls plain j.conf j.ser pair [])
    × (get_location plain out.1 ≡ place_of plain (last_said plain j.last.loc pair))
    × (out.2 ≡ read_on)
unfolding new_simple_json
run-stream_example =
    run-stream plain two_bytes pair [] (new_simple_json plain conf) refl
      ((omega arith, refl), ((omega arith, refl), tt))
