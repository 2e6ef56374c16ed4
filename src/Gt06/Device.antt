-- ===== src/Gt06/Device.antt =====
-- The loop of internal/gpsv2/device/gt06/gt06.go that reads and handles a device's messages. The
-- clock is read once for each message.
pub mod Stops
pub mod Closes
pub mod Timeout
pub mod Located
pub mod Repeat
mod Runs
use gpstracker_backend.Base.{
  ℕ, ◌%◌, Bool, true, false, not, ◌&&◌, List, [], ◌∷◌, Option, none, some, ◌==◌, if◌then◌else◌,
}
use gpstracker_backend.Base.Go.{
  Error, timeout, Result, ok, err, panic, Slice, Input, index, from, ◌>>=◌,
}
use gpstracker_backend.Base.Values.{Values, utc, local}
use gpstracker_backend.Device.{Place}
use gpstracker_backend.PgStore.{Location}
use gpstracker_backend.Gt06.Message.{
  payload_of, gt06_gps, status_information, string_information, gt06_gps_alarm, gk310_gps,
  gk310_gps_alarm, server_command_response, time_check, information_tx_packet,
}
use gpstracker_backend.Gt06.Parser.{
  StatusInfo, CellInfo, GpsMessage, CommandResponse, DeviceSn, parse_status_information,
  parse_device_sn, parse_gk310_command_response, parse_gt06_command_response,
  parse_gt06_gps_message, parse_gk310_gps_message, parse_gps_alarm,
}
use gpstracker_backend.Gt06.Frame.{new_frame, read_message}
use gpstracker_backend.Gt06.State.{
  hearbeat_changed, heartbeat_changed, alarm, disconnected, started, cell_info_changed, no_detail,
  status_detail, cell_detail, terminal_status, iccid_key, imei_key, imsi_key, put_location,
  sent_location, sent_event, saved_event, set_attribute, Device, note, write, close_and_set_err,
}
use gpstracker_backend.Gt06.Command.{send_command, handle_command_response}

-- What the loop does after a message: it reads on, with the flag `timeout_ping_sent`, it has
-- returned, or the process has crashed.
pub data Next : Type 0 where
  go : Bool → Next
  returned crashed : Next

abbrev same : Bool → Bool → Bool
same true b = b
same false b = not b

-- `!=` on the structs.
abbrev pub status_equal : StatusInfo → StatusInfo → Bool
status_equal a b =
    let flags =
      same a.armed b.armed
      && same a.acc b.acc
      && same a.engine_disc b.engine_disc
      && same a.charging b.charging
      && same a.gps b.gps in
    flags
    && (a.alarm_code == b.alarm_code)
    && (a.alt_alarm_code == b.alt_alarm_code)
    && (a.language == b.language)
    && (a.voltage == b.voltage)
    && (a.gsm_signal == b.gsm_signal)

abbrev pub cell_equal : CellInfo → CellInfo → Bool
cell_equal a b =
    (a.mcc == b.mcc) && (a.mnc == b.mnc) && (a.lac == b.lac) && (a.cell_id == b.cell_id)

-- `STATUS#`
abbrev pub status_command : List ℕ
status_command = b'S' ∷ b'T' ∷ b'A' ∷ b'T' ∷ b'U' ∷ b'S' ∷ b'#' ∷ []

-- What the loop takes from `time.Time` and from `json.Marshal`.
pub record Outside (V : Values) : Type 0 where
  pub year : V.Time → ℕ
  pub month : V.Time → ℕ
  pub day : V.Time → ℕ
  pub hour : V.Time → ℕ
  pub minute : V.Time → ℕ
  pub second : V.Time → ℕ
  pub marshal : StatusInfo → List ℕ

module _ (V : Values) (O : Outside V) where
  open V use {Time}

  abbrev pub time_response : Time → List ℕ
  time_response t = O.year t % 100 ∷ O.month t ∷ O.day t ∷ O.hour t ∷ O.minute t ∷ O.second t ∷ []

  unfoldable pub handle_heartbeat : StatusInfo → Time → Device V → Device V
  handle_heartbeat si t dev =
      let dev' = record dev { status = record { si = si; time = t } } in
      if status_equal dev.status.si si
      then dev'
      else note V (sent_event heartbeat_changed (O.marshal si) t)
          (note V (saved_event hearbeat_changed [] (status_detail si) t) dev')

  unfoldable pub handle_alarm : StatusInfo → Time → Device V → Device V
  handle_alarm si t dev = note V (sent_event alarm (O.marshal si) t) (
      note V (saved_event alarm [] (status_detail si) t)
        (record dev { status = record { si = si; time = t } }))

module _ (V : Values) where
  open V use {Time, minus_one32, zero32}

  unfoldable pub handle_disconnection : Time → Device V → Device V
  handle_disconnection t dev =
      note V (sent_event disconnected [] t) (note V (saved_event disconnected [] no_detail t) dev)

  unfoldable pub event_run : Time → Device V → Device V
  event_run t dev =
      note V (sent_event started [] t) (note V (saved_event started [] no_detail t) dev)

  -- The arguments of `Put` stand in the order of the call: the latitude in the place of `lon`.
  unfoldable pub store_location : GpsMessage V → Time → Device V → Device V
  store_location loc t dev =
      if dev.conf.store
      then note V
          (put_location (record {
            nsn = dev.ser.nsn;
            lon = loc.position.latitude;
            lat = loc.position.longitude;
            alt = minus_one32;
            speed = loc.position.speed;
            gpst = loc.position.timestamp;
            srvt = t;
          }))
          dev
      else dev

  unfoldable pub send_location : GpsMessage V → Time → Device V → Device V
  send_location loc t dev =
      let p = loc.position in
      if dev.conf.sublist_send
      then note V (sent_location p.latitude p.longitude p.speed p.timestamp t) dev
      else dev

  unfoldable pub handle_location : GpsMessage V → Time → Device V → Device V
  unfolding store_location send_location
  handle_location loc t dev =
      let sent = send_location loc t (store_location loc t dev) in
      let dev' = record sent { location = record { loc = loc; time = t } } in
      if cell_equal loc.cell dev.location.loc.cell
      then dev'
      else note V (saved_event cell_info_changed [] (cell_detail loc.cell) t) dev'

  -- `GetLocation`
  unfoldable pub get_location : Device V → Place V
  get_location dev =
      let p = dev.location.loc.position in
      record {
        latitude = p.latitude;
        longitude = p.longitude;
        altitude = zero32;
        speed = p.speed;
        timestamp = p.timestamp;
      }

  -- A payload is parsed and handled; a panic ends the process.
  abbrev parsed {ℓ} : {A : Type ℓ} → Result A → (A → Device V × Next) → Device V → Device V × Next
  parsed (ok a) k dev = k a
  parsed (err e) k dev = (dev, crashed)
  parsed panic k dev = (dev, crashed)

  -- A response is written, and the loop returns when that fails.
  abbrev responded : Time → Device V × Option Error → (Device V → Device V × Next) → Device V × Next
  responded t (dev, none) k = k dev
  responded t (dev, some e) k = (close_and_set_err V e t dev, returned)

  -- The packet of `informationTxPacket`, by its first byte.
  information : Bool → Slice → Device V → Device V × Next
  information sent d dev =
      parsed (index d 0)
        (λ kind.
          if kind == 0x04
          then parsed (from d 1) (λ r. (note V (set_attribute terminal_status r.vis) dev, go sent))
              dev
          else if kind == 0x0a
          then parsed (from d 1 >>= parse_device_sn)
              (λ sn. (
                note V (set_attribute imsi_key sn.imsi) (
                    note V (set_attribute imei_key sn.imei)
                      (note V (set_attribute iccid_key sn.iccid) dev)),
                go sent,
              ))
              dev
          else (dev, go sent))
        dev

module _ (V : Values) (O : Outside V) where
  open V use {Time}

  -- The `switch` of `run` on the message that was read last.
  pub dispatch : Bool → Time → Device V → Device V × Next
  unfolding information
  dispatch sent t dev =
      let d = payload_of dev.msg in
      let kind = dev.msg.protocol in
      let located = λ (l : GpsMessage V). handle_location V l t in
      if kind == time_check
      then responded V t
          (write V (new_frame V.checksum_x25 time_check (time_response V O t) dev.msg.serial) dev)
          (λ dev'. (dev', go sent))
      else if kind == status_information
      then parsed V (parse_status_information d)
          (λ st.
            responded V t
              (write V (new_frame V.checksum_x25 status_information [] dev.msg.serial) dev)
              (λ dev'. (handle_heartbeat V O st t dev', go sent)))
          dev
      else if kind == gk310_gps
      then parsed V (parse_gk310_gps_message V d) (λ m. (located m.gps dev, go sent)) dev
      else if kind == gt06_gps
      then parsed V (parse_gt06_gps_message V d) (λ m. (located m dev, go sent)) dev
      else if kind == gk310_gps_alarm
      then parsed V (parse_gps_alarm V d utc)
          (λ m. (handle_alarm V O m.status t (located m.gps dev), go sent)) dev
      else if kind == gt06_gps_alarm
      then parsed V (parse_gps_alarm V d local)
          (λ m. (handle_alarm V O m.status t (located m.gps dev), go sent)) dev
      else if kind == information_tx_packet
      then information V sent d dev
      else if kind == server_command_response
      then parsed V (parse_gk310_command_response d)
          (λ r. (handle_command_response V r t dev, go sent)) dev
      else if kind == string_information
      then parsed V (parse_gt06_command_response d)
          (λ r. (handle_command_response V r t dev, go sent)) dev
      else (dev, go sent)

  abbrev give_up : Error → Time → Device V → Device V × Next
  give_up e t dev = (close_and_set_err V e t (handle_disconnection V t dev), returned)

  -- After the first timeout: the result of sending the command STATUS#.
  pinged : Time → Device V × Bool × Option Error → Device V × Next
  unfolding dispatch
  pinged t (dev, pending, none) = dispatch true t dev
  pinged t (dev, pending, some e) = give_up e t dev

  -- What `run` does with the result of `readMessage`. After a timeout whose ping was sent, the
  -- message that was read before is handled again.
  after_read : Bool → Time → Result (Unit {0}) → Device V → Device V × Next
  unfolding dispatch pinged
  after_read sent t (ok u) dev = dispatch sent t dev
  after_read sent t panic dev = (dev, crashed)
  after_read true t (err timeout) dev = give_up timeout t dev
  after_read false t (err timeout) dev = pinged t (send_command V status_command true t dev)
  after_read sent t (err e) dev = give_up e t dev

  -- One round of the loop: the stream, the device and what comes next.
  unfoldable pub iterate : Bool → Time → List Input → Device V → List Input × Device V × Next
  unfolding after_read
  iterate sent t s dev =
      let (s', m, r) = read_message s dev.msg in
      let (dev', next) = after_read sent t r (record dev { msg = m }) in (s', dev', next)

  abbrev advance : Time → List Input × Device V × Next → List Input × Device V × Next
  advance t (s, dev, go sent) = iterate sent t s dev
  advance t (s, dev, returned) = (s, dev, returned)
  advance t (s, dev, crashed) = (s, dev, crashed)

  -- A round for each reading of the clock.
  pub rounds : List Time → List Input × Device V × Next → List Input × Device V × Next
  unfolding iterate
  rounds [] x = x
  rounds (t ∷ ts) x = rounds ts (advance t x)

  -- `run`, up to as many messages as there are readings of the clock.
  pub run : Time → List Time → List Input → Device V → List Input × Device V × Next
  unfolding rounds
  run t0 ts s dev = rounds ts (s, event_run V t0 dev, go false)
