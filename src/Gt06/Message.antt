-- ===== src/Gt06/Message.antt =====
-- The constants and types of internal/gpsv2/device/gt06/parser.go that carry a frame.
use gpstracker_backend.Base.{ℕ, ◌-◌, Bool, false, List, [], Option, none, some, drop, take}
use gpstracker_backend.Base.Go.{Slice, of_list}

abbrev pub login_message : ℕ
login_message = 0x01

abbrev pub gt06_gps : ℕ
gt06_gps = 0x12

abbrev pub status_information : ℕ
status_information = 0x13

abbrev pub string_information : ℕ
string_information = 0x15

abbrev pub gt06_gps_alarm : ℕ
gt06_gps_alarm = 0x16

abbrev pub gk310_gps : ℕ
gk310_gps = 0x22

abbrev pub gk310_gps_alarm : ℕ
gk310_gps_alarm = 0x26

abbrev pub server_command : ℕ
server_command = 0x80

abbrev pub server_command_response : ℕ
server_command_response = 0x21

abbrev pub time_check : ℕ
time_check = 0x8a

abbrev pub information_tx_packet : ℕ
information_tx_packet = 0x94

-- `payload` aliases `buffer`, so it is the pair of its bounds there; `none` is the nil slice.
pub record Message : Type 0 where
  pub extended : Bool
  pub protocol : ℕ
  pub length : ℕ
  pub serial : ℕ
  pub payload : Option (ℕ × ℕ)
  pub buffer : List ℕ

-- A `Message{}` with the given buffer.
abbrev pub blank : List ℕ → Message
blank buf = record {
  extended = false;
  protocol = 0;
  length = 0;
  serial = 0;
  payload = none;
  buffer = buf;
}

-- `make([]byte, 0, bufsize)` has the capacity `bufsize` and the length 0.
unfoldable pub new_message : ℕ → Message
new_message bufsize = blank []

abbrev pub window : List ℕ → Option (ℕ × ℕ) → Slice
window buf none = of_list []
window buf (some (lo, hi)) = record { vis = take (hi - lo) (drop lo buf); spare = drop hi buf }

-- What `msg.Payload` reads as now.
abbrev pub payload_of : Message → Slice
payload_of m = window m.buffer m.payload
