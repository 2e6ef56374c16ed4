-- ===== src/Gt06/Parser/Runs.antt =====
-- Payloads parsed, and the theorems of the parsers at concrete payloads.
use gpstracker_backend.Base.{
  ℕ, ◌+◌, ◌-◌, ◌*◌, ◌<◌, ◌^◌, true, false, List, [], ◌∷◌, ◌++◌, ◌≡◌, refl, arith, length, ◌⊎◌, ◌≤◌,
}
use gpstracker_backend.Base.Go.{ok, panic, Slice, of_list}
use gpstracker_backend.Base.Int.{negsuc, neg}
use gpstracker_backend.Base.Values.{plain}
use gpstracker_backend.Base.Strconv.{hex}
use gpstracker_backend.Gt06.Parser.{
  StatusInfo, time_offset_of, CellInfo, parse_login_message, parse_type_id, parse_offset,
  LoginMessage, parse_gt06_gps_message,
}
use gpstracker_backend.Gt06.Parser.Fields.{RawPosition, position_bytes}
use gpstracker_backend.Gt06.Parser.Totality.{Returns, parse_gt06_gps_message_total}

abbrev charging : StatusInfo
charging = record {
  armed = true;
  acc = false;
  engine_disc = true;
  charging = true;
  alarm_code = 5;
  alt_alarm_code = 1;
  language = 2;
  gps = false;
  voltage = 6;
  gsm_signal = 4;
}

abbrev raw : RawPosition
raw = record {
  year = 23;
  month = 5;
  day = 17;
  hour = 8;
  minute = 30;
  second = 1;
  info = 12;
  sats = 9;
  lat = 0x00aabbcc;
  lon = 0x0b010203;
  kmh = 60;
  differential = false;
  positioned = true;
  west = false;
  north = true;
  course = 300;
}

abbrev tower : CellInfo
tower = record { mcc = 510; mnc = 10; lac = 0x1234; cell_id = 0x0a0b0c }

-- The serial, the checksum and the trailer of the frame are what stands behind a payload.
abbrev cut : Slice
cut = record {
  vis = position_bytes raw (1 ∷ 0xfe ∷ 10 ∷ []);
  spare = 0 ∷ 7 ∷ 0xaa ∷ 0xbb ∷ 0x0d ∷ 0x0a ∷ [];
}

parse_gt06_gps_message_total_example :
    ((length cut.vis < 21) × (parse_gt06_gps_message plain cut ≡ panic))
    ⊎ ((21 ≤ length cut.vis) × Returns (parse_gt06_gps_message plain cut))
parse_gt06_gps_message_total_example = parse_gt06_gps_message_total plain cut (omega arith)

abbrev imei : List ℕ
imei = 0x08 ∷ 0x68 ∷ 0x12 ∷ 0x01 ∷ 0x48 ∷ 0x37 ∷ 0x35 ∷ 0x71 ∷ []

abbrev logged_in : LoginMessage
logged_in = record {
  sn = hex imei;
  time_offset = negsuc (5 * 3600 * 10 ^ 9 + 30 * 60 * 10 ^ 9 - 1);
  has_time_offset = true;
  type_id = 0x36 ∷ 0x08 ∷ [];
}

parse_login_runs :
    parse_login_message (of_list (imei ++ 0x36 ∷ 0x08 ∷ 0x21 ∷ 0x28 ∷ [])) ≡ ok logged_in
unfolding parse_login_message parse_type_id parse_offset time_offset_of hex neg
parse_login_runs = refl
