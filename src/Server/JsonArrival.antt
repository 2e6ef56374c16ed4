-- ===== src/Server/JsonArrival.antt =====
-- The login of a JSON device in internal/gpsv2/server/server.go, from its frame to the list.
use gpstracker_backend.Base.{
  ℕ, ◌+◌, ◌*◌, ◌≤◌, ◌<◌, ◌^◌, ◌≡◌, refl, ◌∙◌, List, ◌++◌, map, length, replicate, arith,
  length-replicate,
}
use gpstracker_backend.Base.Go.{Result, ok, err, panic, Input, byte}
use gpstracker_backend.Base.Strconv.{format_uint, parse_uint-format_uint}
use gpstracker_backend.Device.{new_serial}
use gpstracker_backend.SimpleJson.Frame as Json
use gpstracker_backend.SimpleJson.Frame.Arrived.{frame_of, read_message-JsonVerdict}
use gpstracker_backend.Server.{
  Database, Server, JsonLogin, kind_of, attach, json_number, json_login, json_message,
  handle_as_simple_json,
}

module _ {D : Type 0} (Q : Database D) (unmarshal : List ℕ → Result JsonLogin) where
  json_message-ok :
      (s : Server D) (out : Json.Outcome) (payload : List ℕ)
      → out.2 ≡ ok tt
      → out.1.protocol ≡ 1
      → Json.shown out.1.payload out.1.buffer ≡ payload
      → json_message Q unmarshal s out ≡ json_login Q unmarshal s (unmarshal payload)
  unfolding json_message
  json_message-ok s (rest, m, ok u) payload r p v = rw (p, v) refl
  json_message-ok s (rest, m, err e) payload r p v = cc
  json_message-ok s (rest, m, panic) payload r p v = cc

  json_login-ok :
      (s : Server D) (r : Result JsonLogin) (m : JsonLogin) (sn : ℕ)
      → r ≡ ok m
      → m.serial ≡ format_uint 16 sn
      → sn < 2 ^ 64
      → json_login Q unmarshal s r ≡ attach Q (new_serial (kind_of m.sn_type) sn) s
  unfolding json_login json_number
  json_login-ok s r m sn e t h =
      rw (e, t, parse_uint-format_uint 16 sn (omega arith) (omega arith) h) refl

  -- A JSON login that fits the buffer of a hundred bytes, whose payload is decoded to a login with
  -- a uint64 serial in base 16, attaches the device of that serial and of the kind that the login
  -- names to the connection.
  pub handle_as_simple_json-frame_of :
      (low high : ℕ) (payload : List ℕ) (rest : List Input) (s : Server D) (m : JsonLogin) (sn : ℕ)
      → low + high * 256 ≡ length payload
      → length payload ≤ 95
      → unmarshal payload ≡ ok m
      → m.serial ≡ format_uint 16 sn
      → sn < 2 ^ 64
      → handle_as_simple_json Q unmarshal (map byte (frame_of 1 low high payload 0x0a) ++ rest) s
        ≡ attach Q (new_serial (kind_of m.sn_type) sn) s
  unfolding handle_as_simple_json
  handle_as_simple_json-frame_of low high payload rest s m sn hl hb e t h =
      let (taken, (good, kind, window)) =
        read_message-JsonVerdict (Json.blank (replicate 100 0)) 1 low high payload 0x0a rest hl
          (omega (arith, length-replicate {A = ℕ} 100 0)) in
      let stream = map byte (frame_of 1 low high payload 0x0a) ++ rest in
      json_message-ok s (Json.read_message stream (Json.blank (replicate 100 0))) payload good kind
        window
      ∙ json_login-ok s (unmarshal payload) m sn e t h
