-- ===== src/Server/Runs.antt =====
-- Runs of internal/gpsv2/server/server.go, and its theorems at concrete inputs.
use gpstracker_backend.Server.Race.{IsNot, attached_race}
use gpstracker_backend.Base.Int.{pos}
use gpstracker_backend.Base.{
  ◌≢◌, none, some, ◌≡◌, refl, ℕ, List, [], ◌∷◌, ◌++◌, ◌+◌, ◌%◌, ◌^◌, true, false, map, arith, All,
}
use gpstracker_backend.Base.Go.{Result, ok, err, no_rows, byte, late}
use gpstracker_backend.Base.Strconv.{bcd_value}
use gpstracker_backend.Device.{Serial, new_serial}
use gpstracker_backend.Gt06.Message.{login_message}
use gpstracker_backend.Gt06.Frame.{new_frame}
use gpstracker_backend.Gt06.State.{DeviceConfig}
use gpstracker_backend.Base.Strconv.{format_uint}
use gpstracker_backend.Server.{
  JsonLogin, device_gt06, DeviceList, Database, Server, created, replaced, attach, attached,
  register, registered, register_and_fetch_config_attr, selected, device_nsn, get_device,
  purge_device, handle_as_gt06,
}
use gpstracker_backend.Server.Devices.{attach-attach, new_entry}
use gpstracker_backend.Server.Arrival.{handle_as_gt06-new_frame}

abbrev conf : DeviceConfig
conf = record {
  allow_connect = true;
  sublist_send = true;
  store = true;
  broadcast = false;
  read_deadline = pos 5;
}

abbrev zero_sum : List ℕ → ℕ
zero_sum d = 0

-- A database that knows no tracker and numbers those that it adds.
abbrev counting : Database ℕ
counting = record {
  select_tracker = λ nsn db. err no_rows;
  add_tracker_default = λ nsn db. (db + 1, ok (db, conf));
  checksum_x25 = zero_sum;
}

abbrev empty : Server ℕ
empty = record {
  devices = record { list = []; nsnlist = [] };
  db = 40;
  next_dev = 0;
  sublists = record { list = [] };
}

abbrev imei : List ℕ
imei = 0x08 ∷ 0x68 ∷ 0x12 ∷ 0x01 ∷ 0x48 ∷ 0x37 ∷ 0x35 ∷ 0x71 ∷ []

abbrev tracker : Serial
tracker = new_serial 0 868120148373571

attach_runs : (attach counting tracker empty).1 ≡ created 40 tracker 0
unfolding attach attached register registered register_and_fetch_config_attr selected device_nsn
attach_runs = refl

handle_as_gt06-new_frame_example :
    let (s', login) = attach counting (new_serial 0 (bcd_value 0 imei)) empty in
    handle_as_gt06 counting
      (map byte (new_frame zero_sum login_message imei 70000) ++ late ∷ [])
      false
      empty
    ≡ (s', login, new_frame zero_sum login_message [] (70000 % 2 ^ 16))
handle_as_gt06-new_frame_example =
    handle_as_gt06-new_frame counting imei 70000 (late ∷ []) empty (omega arith) refl

attach-attach_example :
    attach counting tracker (attach counting tracker empty).0
    ≡ ((attach counting tracker empty).0, replaced 0)
attach-attach_example = attach-attach counting tracker empty 40 0 attach_runs

abbrev one : DeviceList
one = record { list = (40, new_entry tracker 40 7 device_gt06) ∷ []; nsnlist = (5, 40) ∷ [] }

-- A decoder that takes every text for the login of one device.
abbrev decoder : List ℕ → Result JsonLogin
decoder text = ok (record {
  sn_type = b'm' ∷ b'a' ∷ b'c' ∷ [];
  serial = format_uint 16 0xaabbccddeeff;
  device_type = [];
})

-- A database that knows every tracker as number 40.
abbrev knowing : Database ℕ
knowing = record counting { select_tracker = λ nsn db. ok (40, conf) }

attached_race_example :
    let first : ℕ = 0 in
    let out = (attached knowing tracker (attached knowing tracker empty none).0 none).0.devices in
    let e = new_entry tracker 40 1 device_gt06 in
    (first ≢ 1)
    × (device_nsn tracker.nsn out ≡ some e)
    × (get_device 40 out ≡ some e)
    × (purge_device 40 out ≡ ok (out, 1, true))
    × All (IsNot 0) out.list
unfolding attached register registered register_and_fetch_config_attr selected
attached_race_example = attached_race knowing tracker empty 40 0 1 refl refl tt
