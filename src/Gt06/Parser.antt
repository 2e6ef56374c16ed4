-- ===== src/Gt06/Parser.antt =====
-- The payload parsers of internal/gpsv2/device/gt06/parser.go. A text is the list of its bytes.
pub mod Fields
pub mod Totality
pub mod Login
pub mod Report
mod Runs
use gpstracker_backend.Base.{
  ℕ, zero, suc, ◌+◌, ◌-◌, ◌*◌, ◌/◌, ◌%◌, ◌^◌, Bool, true, false, not, ◌&&◌, Option, none, some,
  List, [], ◌∷◌, ◌++◌, bit_and, length, get_or, take, ltb, ◌==◌, if◌then◌else◌,
}
use gpstracker_backend.Base.Go.{Result, ok, err, panic, ◌>>=◌, Slice, of_list, index, reslice, from}
use gpstracker_backend.Base.Strconv.{hex}
use gpstracker_backend.Base.Int.{ℤ, pos, neg}
use gpstracker_backend.Base.Values.{Zone, utc, local, Values}

-- `d[i]&mask != 0`
abbrev pub flag : ℕ → ℕ → Bool
flag byte mask = not (bit_and byte mask == 0)

-- `binary.BigEndian.Uint16` and `Uint32` of a slice.
pub be16 : Slice → Result ℕ
be16 s = do b1 ← index s 1; b0 ← index s 0; ok (b0 * 256 + b1)

pub be32 : Slice → Result ℕ
be32 s = do
  b3 ← index s 3
  b0 ← index s 0
  b1 ← index s 1
  b2 ← index s 2
  ok (((b0 * 256 + b1) * 256 + b2) * 256 + b3)

pub record StatusInfo : Type 0 where
  pub armed : Bool
  pub acc : Bool
  pub engine_disc : Bool
  pub charging : Bool
  pub alarm_code : ℕ
  pub alt_alarm_code : ℕ
  pub language : ℕ
  pub gps : Bool
  pub voltage : ℕ
  pub gsm_signal : ℕ

pub parse_status_information : Slice → Result StatusInfo
parse_status_information d = do
  d0 ← index d 0
  d1 ← index d 1
  d2 ← index d 2
  d3 ← index d 3
  d4 ← index d 4
  ok (record {
    armed = flag d0 0b00000001;
    acc = flag d0 0b00000010;
    engine_disc = flag d0 0b10000000;
    charging = flag d0 0b00000100;
    alarm_code = bit_and d0 0b00111000 / 2 ^ 3;
    alt_alarm_code = d3;
    language = d4;
    gps = flag d0 0b01000000;
    voltage = d1;
    gsm_signal = d2;
  })

pub record DeviceSn : Type 0 where
  pub imei : List ℕ
  pub imsi : List ℕ
  pub iccid : List ℕ

pub parse_device_sn : Slice → Result DeviceSn
unfolding hex
parse_device_sn d = do
  a ← reslice d 0 8
  b ← reslice d 8 16
  c ← reslice d 16 26
  let iccid = hex c.vis
  ok (record { imei = hex a.vis; imsi = hex b.vis; iccid = take (length iccid - 1) iccid })

pub record CommandResponse : Type 0 where
  pub server_flag : ℕ
  pub message : List ℕ

pub parse_gk310_command_response : Slice → Result CommandResponse
unfolding be32
parse_gk310_command_response d = do
  a ← reslice d 0 4
  flag_word ← be32 a
  m ← from d 5
  ok (record { server_flag = flag_word; message = m.vis })

-- `len(d)-2` below 0 panics like any upper bound below 5.
pub parse_gt06_command_response : Slice → Result CommandResponse
unfolding be32
parse_gt06_command_response d = do
  a ← reslice d 1 5
  flag_word ← be32 a
  m ← reslice d 5 (length d.vis - 2)
  ok (record { server_flag = flag_word; message = m.vis })

-- A `time.Duration` counts nanoseconds.
pub record LoginMessage : Type 0 where
  pub sn : List ℕ
  pub time_offset : ℤ
  pub has_time_offset : Bool
  pub type_id : List ℕ

abbrev minute : ℕ
minute = 60 * 10 ^ 9

pub time_offset_of : ℕ → ℕ → ℤ
time_offset_of d10 d11 =
    let bcd = (d10 * 2 ^ 4 + d11 / 2 ^ 4) % 2 ^ 16 in
    let size = pos (bcd / 100 * (60 * minute) + bcd % 100 * minute) in
    if flag d11 0b00001000 then neg size else size

parse_type_id : Slice → Result (List ℕ)
parse_type_id d =
    if ltb 8 (length d.vis) then (reslice d 8 10 >>= λ t. ok t.vis) else ok (0 ∷ 0 ∷ [])

parse_offset : Slice → Result (Bool × ℤ)
unfolding time_offset_of
parse_offset d =
    if ltb 10 (length d.vis)
    then (do d10 ← index d 10; d11 ← index d 11; ok (true, time_offset_of d10 d11))
    else ok (false, pos 0)

pub parse_login_message : Slice → Result LoginMessage
parse_login_message d = do
  s ← reslice d 0 8
  t ← parse_type_id d
  o ← parse_offset d
  ok (record { sn = hex s.vis; time_offset = o.1; has_time_offset = o.0; type_id = t })

pub record CellInfo : Type 0 where
  pub mcc : ℕ
  pub mnc : ℕ
  pub lac : ℕ
  pub cell_id : ℕ

pub parse_lbs_part : Slice → Result CellInfo
unfolding be16 be32
parse_lbs_part d = do
  a ← reslice d 0 2
  mcc ← be16 a
  mnc ← index d 2
  b ← reslice d 3 5
  lac ← be16 b
  c ← reslice d 5 8
  cell_id ← be32 (of_list (0 ∷ c.vis))
  ok (record { mcc = mcc; mnc = mnc; lac = lac; cell_id = cell_id })

module _ (V : Values) where
  open V use {F64, F32, Time, of_int64, div64, sub64, zero64, of_int32, mul32, div32, date}

  pub record Position : Type 0 where
    pub timestamp : Time
    pub latitude : F64
    pub longitude : F64
    pub course : ℕ
    pub sat_count : ℕ
    pub speed : F32
    pub gps_differential : Bool
    pub gps_positioned : Bool

  pub degrees : ℕ → F64
  degrees raw = div64 (of_int64 raw) (of_int64 1800000)

  pub parse_gps_part : Slice → Zone → Result Position
  unfolding be32 be16 degrees
  parse_gps_part d zone = do
    d0 ← index d 0
    d1 ← index d 1
    d2 ← index d 2
    d3 ← index d 3
    d4 ← index d 4
    d5 ← index d 5
    d6 ← index d 6
    a ← reslice d 7 11
    raw_lat ← be32 a
    b ← reslice d 11 15
    raw_lon ← be32 b
    d15 ← index d 15
    d16 ← index d 16
    d17 ← index d 17
    course ← be16 (of_list (bit_and d16 0b00000011 ∷ d17 ∷ []))
    let lat = degrees raw_lat
    let lon = degrees raw_lon
    ok (record {
      timestamp = date (d0 + 2000) d1 d2 d3 d4 d5 zone;
      latitude = if flag d16 0b00000100 then lat else sub64 zero64 lat;
      longitude = if flag d16 0b00001000 then sub64 zero64 lon else lon;
      course = course;
      sat_count = bit_and d6 0x0f;
      speed = div32 (mul32 (of_int32 d15) (of_int32 1000)) (of_int32 3600);
      gps_differential = flag d16 0b00100000;
      gps_positioned = flag d16 0b00010000;
    })

  -- `gt06GPSMessage`: a position and the cell that it was sent from.
  pub record GpsMessage : Type 0 where
    pub position : Position
    pub cell : CellInfo

  pub parse_gt06_gps_message : Slice → Result GpsMessage
  parse_gt06_gps_message d = do
    p ← parse_gps_part d local
    rest ← from d 18
    c ← parse_lbs_part rest
    ok (record { position = p; cell = c })

  -- `gk310GPSMisc` and the position: each flag says whether its byte was there.
  pub record Gk310Message : Type 0 where
    pub gps : GpsMessage
    pub has_acc : Bool
    pub acc : Bool
    pub has_data_upload_mode : Bool
    pub data_upload_mode : ℕ
    pub has_gps_reupload : Bool
    pub gps_is_reupload : Bool

  pub parse_gk310_gps_message : Slice → Result Gk310Message
  parse_gk310_gps_message d = do
    p ← parse_gps_part d utc
    rest ← from d 18
    c ← parse_lbs_part rest
    let n = length d.vis
    let at = λ (i : ℕ). get_or d.vis i 0
    ok (record {
      gps = record { position = p; cell = c };
      has_acc = ltb 26 n;
      acc = ltb 26 n && not (at 26 == 0);
      has_data_upload_mode = ltb 27 n;
      data_upload_mode = if ltb 27 n then at 27 else 0;
      has_gps_reupload = ltb 28 n;
      gps_is_reupload = ltb 28 n && not (at 28 == 0);
    })

  pub record AlarmMessage : Type 0 where
    pub gps : GpsMessage
    pub status : StatusInfo
    pub lbs_length : ℕ

  pub parse_gps_alarm : Slice → Zone → Result AlarmMessage
  parse_gps_alarm d zone = do
    p ← parse_gps_part d zone
    rest ← from d 19
    c ← parse_lbs_part rest
    n ← index d 18
    tail ← from d 27
    st ← parse_status_information tail
    ok (record { gps = record { position = p; cell = c }; status = st; lbs_length = n })
