-- ===== src/Gt06/State.antt =====
-- The state of a device in internal/gpsv2/device/gt06/gt06.go, and what it does to the outside.
use gpstracker_backend.Base.{ℕ, Bool, true, false, List, [], ◌∷◌, Option, none, some, replicate}
use gpstracker_backend.Base.Go.{Error, write_failed}
use gpstracker_backend.Base.Int.{ℤ}
use gpstracker_backend.Base.Values.{Values}
use gpstracker_backend.Device.{Serial}
use gpstracker_backend.PgStore.{Location}
use gpstracker_backend.Gt06.Message.{Message, blank}
use gpstracker_backend.Gt06.Parser.{StatusInfo, CellInfo, GpsMessage}

-- The topics of events, by their texts; `hearbeat_changed` is the code's "hearbeat.changed".
pub data Topic : Type 0 where
  hearbeat_changed heartbeat_changed alarm disconnected started : Topic
  cell_info_changed command_sent_topic command_response : Topic

-- The object of a saved event.
pub data Detail : Type 0 where
  no_detail : Detail
  status_detail : StatusInfo → Detail
  cell_detail : CellInfo → Detail
  flag_detail : ℕ → Detail

-- The keys of `UpdateAttribute`: four fixed ones, or a command's text.
pub data Key : Type 0 where
  terminal_status iccid_key imei_key imsi_key : Key
  command_key : List ℕ → Key

pub data CommandStatus : Type 0 where
  command_submitted command_sent command_empty : CommandStatus

-- `store`, `sublist_send` and `read_deadline` are the fields that this device reads.
pub record DeviceConfig : Type 0 where
  pub allow_connect : Bool
  pub sublist_send : Bool
  pub store : Bool
  pub broadcast : Bool
  pub read_deadline : ℤ

module _ (V : Values) where
  open V use {F64, F32, Time, no_time, zero64, zero32}

  -- A call of the connection, the stores or the sublist. Those of the stores carry the tracker id.
  pub data Effect : Type 0 where
    wrote : List ℕ → Effect
    closed_conn : Effect
    put_location : Location F64 F32 Time → Effect
    sent_location : F64 → F64 → F32 → Time → Time → Effect
    sent_event : Topic → List ℕ → Time → Effect
    saved_event : Topic → List ℕ → Detail → Time → Effect
    saved_response : ℕ → List ℕ → Time → List ℕ → Time → Effect
    set_attribute : Key → List ℕ → Effect

  pub record CommandState : Type 0 where
    pub sent_time : Time
    pub status : CommandStatus
    pub server_flag_counter : ℕ
    pub serial_counter : ℕ
    pub current_msg : List ℕ
    pub current_server_flag : ℕ

  pub record StatusState : Type 0 where
    pub si : StatusInfo
    pub time : Time

  pub record LocationState : Type 0 where
    pub loc : GpsMessage V
    pub time : Time

  -- `faults` tells which of the next writes to the connection fail, and `effects` has the newest
  -- call first.
  pub record Device : Type 0 where
    pub conf : DeviceConfig
    pub ser : Serial
    pub cmd : CommandState
    pub msg : Message
    pub status : StatusState
    pub location : LocationState
    pub err : Option (Error × Time)
    pub faults : List Bool
    pub effects : List Effect

  abbrev no_status : StatusInfo
  no_status = record {
    armed = false;
    acc = false;
    engine_disc = false;
    charging = false;
    alarm_code = 0;
    alt_alarm_code = 0;
    language = 0;
    gps = false;
    voltage = 0;
    gsm_signal = 0;
  }

  abbrev no_location : GpsMessage V
  no_location = record {
    position = record {
      timestamp = no_time;
      latitude = zero64;
      longitude = zero64;
      course = 0;
      sat_count = 0;
      speed = zero32;
      gps_differential = false;
      gps_positioned = false;
    };
    cell = record { mcc = 0; mnc = 0; lac = 0; cell_id = 0 };
  }

  -- `NewGT06`, at a connection whose writes fail as `faults` says.
  unfoldable pub new_gt06 : DeviceConfig → Serial → List Bool → Device
  new_gt06 conf ser faults = record {
    conf = conf;
    ser = ser;
    cmd = record {
      sent_time = no_time;
      status = command_empty;
      server_flag_counter = 0;
      serial_counter = 0;
      current_msg = [];
      current_server_flag = 0;
    };
    msg = blank (replicate 1000 0);
    status = record { si = no_status; time = no_time };
    location = record { loc = no_location; time = no_time };
    err = none;
    faults = faults;
    effects = [];
  }

  abbrev pub note : Effect → Device → Device
  note e dev = record dev { effects = e ∷ dev.effects }

  unfoldable pub written_as : List Bool → List ℕ → Device → Device × Option Error
  written_as [] d dev = (note (wrote d) dev, none)
  written_as (false ∷ fs) d dev = (note (wrote d) (record dev { faults = fs }), none)
  written_as (true ∷ fs) d dev = (record dev { faults = fs }, some write_failed)

  -- `write`, and a `c.Write`.
  unfoldable pub write : List ℕ → Device → Device × Option Error
  unfolding written_as
  write d dev = written_as dev.faults d dev

  unfoldable pub close_and_set_err : Error → Time → Device → Device
  close_and_set_err e t dev = note closed_conn (record dev { err = some (e, t) })
