-- ===== src/SimpleJson/Device.antt =====
-- The loop of internal/gpsv2/device/simplejson/simplejson.go, with the messages of format.go.
-- `json.Unmarshal` into the two structs is a parameter. The clock is read once for each message.
pub mod Stops
pub mod Stored
mod Runs
use gpstracker_backend.Base.{
  ℕ, zero, suc, Bool, true, false, List, [], ◌∷◌, Option, none, some, take, length, replicate, ◌==◌,
  if◌then◌else◌,
}
use gpstracker_backend.Base.Go.{Error, bad_json, Result, ok, err, panic, Input, byte, late, broken}
use gpstracker_backend.Base.Values.{Values}
use gpstracker_backend.Device.{Serial, Place}
use gpstracker_backend.PgStore.{Location}
use gpstracker_backend.Gt06.State.{DeviceConfig}
use gpstracker_backend.SimpleJson.Frame.{FrameMessage, blank, shown, read_message}

abbrev pub location_update : ℕ
location_update = 0x02

abbrev pub sat_update : ℕ
sat_update = 0x03

abbrev pub gps_error : ℕ
gps_error = 0x04

abbrev pub gps_init : ℕ
gps_init = 0x05

abbrev pub status_kind : ℕ
status_kind = 0x06

pub record Sat : Type 0 where
  pub sprn : ℕ
  pub snr : ℕ
  pub used_in_fix : Bool

-- What `run` and `GetLocation` return to the caller: the loop reads on, or it has returned. A
-- panic would end the process.
pub data JsonNext : Type 0 where
  read_on left died : JsonNext

module _ (V : Values) where
  open V use {F64, F32, Time, no_time, zero64, zero32}

  -- The fields that JSON fills.
  pub record LocationMessage : Type 0 where
    pub gps_time : Time
    pub machine_time : Time
    pub latitude : F64
    pub longitude : F64
    pub altitude : F32
    pub sat_inview : ℕ
    pub sat_tracked : ℕ
    pub sat_used : ℕ
    pub fix : Bool
    pub fix_mode : List ℕ
    pub speed : F32

  pub record StatusMessage : Type 0 where
    pub gps_status : Bool
    pub last_longitude : F64
    pub last_latitude : F64
    pub last_fix : Time
    pub last_sat_tracked : ℕ
    pub last_sat_inview : ℕ
    pub last_sat_used : ℕ
    pub last_sat_update : Time

  -- `json.Unmarshal` of a text into a struct that has these values before; none is an error.
  pub record Json : Type 0 where
    pub unmarshal_location : List ℕ → LocationMessage → Option LocationMessage
    pub unmarshal_status : List ℕ → StatusMessage → Option StatusMessage

  pub record ParsedMsg : Type 0 where
    pub loc : LocationMessage
    pub status : StatusMessage
    pub sat : List Sat

  pub record LastMsg : Type 0 where
    pub loc : LocationMessage
    pub loc_time : Time
    pub status : StatusMessage
    pub status_time : Time
    pub gps_err_time : Time
    pub gps_init_time : Time
    pub sat : List Sat
    pub sat_time : Time

  -- A call of the sublist, the store or the connection.
  pub data Call : Type 0 where
    send_location : F64 → F64 → F32 → Time → Time → Call
    put : Location F64 F32 Time → Call
    close : Call

  -- `calls` has the newest first.
  pub record SimpleJson : Type 0 where
    pub conf : DeviceConfig
    pub ser : Serial
    pub err : Option Error
    pub msg : FrameMessage
    pub parsed : ParsedMsg
    pub last : LastMsg
    pub calls : List Call

  abbrev pub zero_location : LocationMessage
  zero_location = record {
    gps_time = no_time;
    machine_time = no_time;
    latitude = zero64;
    longitude = zero64;
    altitude = zero32;
    sat_inview = 0;
    sat_tracked = 0;
    sat_used = 0;
    fix = false;
    fix_mode = [];
    speed = zero32;
  }

  abbrev pub zero_status : StatusMessage
  zero_status = record {
    gps_status = false;
    last_longitude = zero64;
    last_latitude = zero64;
    last_fix = no_time;
    last_sat_tracked = 0;
    last_sat_inview = 0;
    last_sat_used = 0;
    last_sat_update = no_time;
  }

  -- The zero value of `device.Serial`.
  abbrev pub zero_serial : Serial
  zero_serial = record { sn_type = 0; nsn = 0; sn = 0; sn_type_string = []; sn_string = [] }

  -- `NewSimpleJSON`: the field `ser` is not set.
  unfoldable pub new_simple_json : DeviceConfig → SimpleJson
  new_simple_json conf = record {
    conf = conf;
    ser = zero_serial;
    err = none;
    msg = blank (replicate 1000 0);
    parsed = record { loc = zero_location; status = zero_status; sat = [] };
    last = record {
      loc = zero_location;
      loc_time = no_time;
      status = zero_status;
      status_time = no_time;
      gps_err_time = no_time;
      gps_init_time = no_time;
      sat = [];
      sat_time = no_time;
    };
    calls = [];
  }

  abbrev pub call : Call → SimpleJson → SimpleJson
  call c j = record j { calls = c ∷ j.calls }

  unfoldable pub close_and_set_err : Error → SimpleJson → SimpleJson
  close_and_set_err e j = call close (record j { err = some e })

  -- A closed connection still gives the bytes that its reader has buffered, of which there are `n`
  -- at most.
  abbrev pub shut : ℕ → List Input → List Input
  shut zero s = broken ∷ []
  shut (suc n) [] = broken ∷ []
  shut (suc n) (late ∷ s) = broken ∷ []
  shut (suc n) (broken ∷ s) = broken ∷ []
  shut (suc n) (byte b ∷ s) = byte b ∷ shut n s

  -- A `break` leaves the `switch` and not the loop.
  abbrev pub refuse : ℕ → List Input → SimpleJson → List Input × SimpleJson
  refuse n s j = (shut n s, close_and_set_err bad_json j)

  abbrev pub sent : Bool → LocationMessage → Time → SimpleJson → SimpleJson
  sent false loc t j = j
  sent true loc t j = call (send_location loc.latitude loc.longitude loc.speed loc.gps_time t) j

  -- The arguments of `Put` stand in the order of the call: the latitude in the place of `lon`.
  abbrev pub stored : Bool → LocationMessage → Time → SimpleJson → SimpleJson
  stored false loc t j = j
  stored true loc t j =
      call
        (put (record {
          nsn = j.ser.nsn;
          lon = loc.latitude;
          lat = loc.longitude;
          alt = loc.altitude;
          speed = loc.speed;
          gpst = loc.gps_time;
          srvt = t;
        }))
        j

  unfoldable pub located :
      ℕ → List Input → Time → Option LocationMessage → SimpleJson → List Input × SimpleJson
  unfolding close_and_set_err
  located n s t none j = refuse n s j
  located n s t (some loc) j =
      let j' = record j { last = record j.last { loc_time = t; loc = loc } } in
      (s, stored j.conf.store loc t (sent j.conf.sublist_send loc t j'))

  unfoldable pub status_arrived :
      ℕ → List Input → Time → Option StatusMessage → SimpleJson → List Input × SimpleJson
  unfolding close_and_set_err
  status_arrived n s t none j = refuse n s j
  status_arrived n s t (some st) j =
      (s, record j { last = record j.last { status_time = t; status = st } })

  -- `json.Unmarshal` into a value that is not a pointer.
  abbrev unmarshal_value : List ℕ → List Sat → Option (List Sat)
  unmarshal_value payload v = none

  unfoldable pub sat_arrived :
      ℕ → List Input → Time → Option (List Sat) → SimpleJson → List Input × SimpleJson
  unfolding close_and_set_err
  sat_arrived n s t none j = refuse n s j
  sat_arrived n s t (some sat) j =
      (s, record j { last = record j.last { sat_time = t; sat = sat } })

  unfoldable pub get_location : SimpleJson → Place V
  get_location j = record {
    latitude = j.last.loc.latitude;
    longitude = j.last.loc.longitude;
    altitude = j.last.loc.altitude;
    speed = j.last.loc.speed;
    timestamp = j.last.loc.gps_time;
  }

module _ (V : Values) (J : Json V) where
  open V use {Time}

  -- The `switch` of `run`; `n` bytes at most are buffered should the connection be closed.
  unfoldable pub handle : ℕ → List Input → Time → SimpleJson V → List Input × SimpleJson V
  unfolding located status_arrived sat_arrived
  handle n s t j =
      let payload = shown j.msg.payload j.msg.buffer in
      let kind = j.msg.protocol in
      if kind == location_update
      then located V n s t (J.unmarshal_location payload j.parsed.loc) j
      else if kind == status_kind
      then status_arrived V n s t (J.unmarshal_status payload j.parsed.status) j
      else if kind == sat_update
      then sat_arrived V n s t (unmarshal_value V payload j.parsed.sat) j
      else if kind == gps_error
      then (s, record j { last = record j.last { gps_err_time = t } })
      else if kind == gps_init
      then (s, record j { last = record j.last { gps_init_time = t } })
      else (s, j)

  -- What `run` does with the result of `readMessage`.
  abbrev pub after_read :
      ℕ
      → Time
      → List Input
      → Result (Unit {0})
      → SimpleJson V
      → List Input × SimpleJson V × JsonNext
  after_read n t s (ok u) j = let (s', j') = handle n s t j in (s', j', read_on)
  after_read n t s (err e) j = (shut V n s, close_and_set_err V e j, left)
  after_read n t s panic j = (s, j, died)

  -- One round of the loop.
  unfoldable pub iterate :
      ℕ → Time → List Input → SimpleJson V → List Input × SimpleJson V × JsonNext
  unfolding handle close_and_set_err
  iterate n t s j =
      let (s', m, r) = read_message s j.msg in after_read n t s' r (record j { msg = m })

  abbrev advance :
      ℕ × Time → List Input × SimpleJson V × JsonNext → List Input × SimpleJson V × JsonNext
  advance (n, t) (s, j, read_on) = iterate n t s j
  advance (n, t) (s, j, left) = (s, j, left)
  advance (n, t) (s, j, died) = (s, j, died)

  -- A round for each reading of the clock.
  unfoldable pub rounds :
      List (ℕ × Time) → List Input × SimpleJson V × JsonNext → List Input × SimpleJson V × JsonNext
  unfolding iterate
  rounds [] x = x
  rounds (t ∷ ts) x = rounds ts (advance t x)

  -- `run`, up to as many messages as there are readings of the clock.
  unfoldable pub run :
      List (ℕ × Time) → List Input → SimpleJson V → List Input × SimpleJson V × JsonNext
  unfolding rounds
  run ts s j = rounds ts (s, j, read_on)
