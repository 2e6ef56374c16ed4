-- ===== src/Server.antt =====
-- internal/gpsv2/server/server.go: the list of devices, and the logins of both kinds. The
-- database is a parameter; a device object is a number, and the map of a list is association.
pub mod Devices
pub mod Arrival
pub mod JsonArrival
pub mod Listen
pub mod Race
mod Runs
use gpstracker_backend.Base.{
  ℕ, ◌+◌, Bool, true, false, not, List, [], ◌∷◌, Option, none, some, replicate, ◌==◌, ◌&&◌,
  if◌then◌else◌,
}
use gpstracker_backend.Base.Go.{Error, no_rows, write_failed, Result, ok, err, panic, Input}
use gpstracker_backend.Base.Strconv.{parse_uint}
use gpstracker_backend.Device.{Serial, new_serial}
use gpstracker_backend.Gt06.Message.{Message, blank, payload_of, login_message}
use gpstracker_backend.Gt06.Frame.{read_message, new_frame}
use gpstracker_backend.Gt06.Parser.{LoginMessage, parse_login_message}
use gpstracker_backend.Gt06.State.{DeviceConfig}
use gpstracker_backend.Sublist.{SublistMap, get_sublist}
use gpstracker_backend.SimpleJson.Frame as Json

pub data Kind : Type 0 where
  device_gt06 device_simplejson : Kind

-- An entry of the list, and the zero value that a missing key gives.
pub record Entry : Type 0 where
  pub dev : ℕ
  pub kind : Kind
  pub tracker_id : ℕ
  pub serial : Serial
  pub deleted : Bool

pub record DeviceList : Type 0 where
  pub list : List (ℕ × Entry)
  pub nsnlist : List (ℕ × ℕ)

module _ {A : Type 0} where
  abbrev pub lookup : ℕ → List (ℕ × A) → Option A
  lookup k [] = none
  lookup k ((j, a) ∷ rest) = if j == k then some a else lookup k rest

  -- `m[k] = a`
  abbrev pub assign : ℕ → A → List (ℕ × A) → List (ℕ × A)
  assign k a [] = (k, a) ∷ []
  assign k a ((j, b) ∷ rest) = if j == k then (j, a) ∷ rest else (j, b) ∷ assign k a rest

abbrev entry_of : Option ℕ → List (ℕ × Entry) → Option Entry
entry_of none list = none
entry_of (some tid) list = lookup tid list

unfoldable pub device_nsn : ℕ → DeviceList → Option Entry
device_nsn nsn l = entry_of (lookup nsn l.nsnlist) l.list

unfoldable pub add_device : Serial → ℕ → ℕ → Kind → DeviceList → DeviceList
add_device ser tid dev kind l = record {
  list =
      assign tid
        (record { dev = dev; kind = kind; tracker_id = tid; serial = ser; deleted = false }) l.list;
  nsnlist = assign ser.nsn tid l.nsnlist;
}

unfoldable pub get_device : ℕ → DeviceList → Option Entry
get_device tid l = lookup tid l.list

-- `PurgeDevice`: the flag is set on the copy that the map gave; the device is stopped, and a
-- missing one is a panic.
abbrev purged : Option Entry → DeviceList → Result (DeviceList × ℕ × Bool)
purged none l = panic
purged (some e) l = ok (l, e.dev, true)

unfoldable pub purge_device : ℕ → DeviceList → Result (DeviceList × ℕ × Bool)
purge_device tid l = purged (lookup tid l.list) l

-- What the server takes from elsewhere: its database, whose state is `D`, and
-- `crc16.Checksum(crc16.X25, d)`. A missing tracker is the error `no_rows`.
pub record Database (D : Type 0) : Type 0 where
  pub select_tracker : ℕ → D → Result (ℕ × DeviceConfig)
  pub add_tracker_default : ℕ → D → D × Result (ℕ × DeviceConfig)
  pub checksum_x25 : List ℕ → ℕ

pub record Server (D : Type 0) : Type 0 where
  pub devices : DeviceList
  pub db : D
  pub next_dev : ℕ
  pub sublists : SublistMap

-- How a login ends: the connection is closed, or replaces that of a device, or a new device runs on
-- it, or the process has crashed.
pub data Login : Type 0 where
  rejected : Login
  replaced : ℕ → Login
  created : ℕ → Serial → ℕ → Login
  crashed : Login

module _ {D : Type 0} (Q : Database D) where
  unfoldable pub selected : ℕ → D → Result (ℕ × DeviceConfig) → D × Result (ℕ × DeviceConfig)
  selected nsn db (ok r) = (db, ok r)
  selected nsn db (err no_rows) = Q.add_tracker_default nsn db
  selected nsn db (err e) = (db, err e)
  selected nsn db panic = (db, panic)

  unfoldable pub register_and_fetch_config_attr : ℕ → D → D × Result (ℕ × DeviceConfig)
  unfolding selected
  register_and_fetch_config_attr nsn db = selected nsn db (Q.select_tracker nsn db)

  -- An allowed device gets the list of its subscribers, which is made when there is none.
  unfoldable pub registered : Serial → Server D → D × Result (ℕ × DeviceConfig) → Server D × Login
  registered ser s (db, err e) = (record s { db = db }, rejected)
  registered ser s (db, panic) = (record s { db = db }, crashed)
  registered ser s (db, ok (tid, conf)) =
      if conf.allow_connect
      then (
        record {
          devices = add_device ser tid s.next_dev device_gt06 s.devices;
          db = db;
          next_dev = s.next_dev + 1;
          sublists = (get_sublist tid true s.sublists).0;
        },
        created tid ser s.next_dev,
      )
      else (record s { db = db }, rejected)

  unfoldable pub register : Serial → Server D → Server D × Login
  unfolding register_and_fetch_config_attr registered
  register ser s = registered ser s (register_and_fetch_config_attr ser.nsn s.db)

  unfoldable pub attached : Serial → Server D → Option Entry → Server D × Login
  unfolding register
  attached ser s none = register ser s
  attached ser s (some e) = if not e.deleted then (s, replaced e.dev) else register ser s

  -- From the look at the list on.
  unfoldable pub attach : Serial → Server D → Server D × Login
  unfolding attached
  attach ser s = attached ser s (device_nsn ser.nsn s.devices)

  -- `SendLoginOK` and what follows; `fault` says whether the write fails.
  unfoldable pub acknowledge : ℕ → ℕ → Bool → Server D → Server D × Login × List ℕ
  unfolding attach
  acknowledge serial sn fault s =
      let (s', login) = attach (new_serial 0 sn) s in
      if fault
      then (s, rejected, [])
      else (s', login, new_frame Q.checksum_x25 login_message [] serial)

  with_number : ℕ → Bool → Server D → Result ℕ → Server D × Login × List ℕ
  unfolding acknowledge
  with_number serial fault s (ok sn) = acknowledge serial sn fault s
  with_number serial fault s (err e) = (s, rejected, [])
  with_number serial fault s panic = (s, crashed, [])

  with_login : ℕ → Bool → Server D → Result LoginMessage → Server D × Login × List ℕ
  unfolding with_number
  with_login serial fault s (ok m) = with_number serial fault s (parse_uint 10 m.sn)
  with_login serial fault s (err e) = (s, rejected, [])
  with_login serial fault s panic = (s, crashed, [])

  with_message :
      Bool → Server D → List Input × Message × Result (Unit {0}) → Server D × Login × List ℕ
  unfolding with_login
  with_message fault s (rest, m, ok u) =
      if m.protocol == login_message
      then with_login m.serial fault s (parse_login_message (payload_of m))
      else (s, rejected, [])
  with_message fault s (rest, m, err e) = (s, rejected, [])
  with_message fault s (rest, m, panic) = (s, crashed, [])

  -- `handleAsGT06`: the server, how the login ends, and what was written to the connection.
  unfoldable pub handle_as_gt06 : List Input → Bool → Server D → Server D × Login × List ℕ
  unfolding with_message
  handle_as_gt06 stream fault s =
      with_message fault s (read_message stream (blank (replicate 100 0)))

-- `LoginMessage` of the JSON devices.
pub record JsonLogin : Type 0 where
  pub sn_type : List ℕ
  pub serial : List ℕ
  pub device_type : List ℕ

abbrev same_text : List ℕ → List ℕ → Bool
same_text [] [] = true
same_text [] (b ∷ bs) = false
same_text (a ∷ xs) [] = false
same_text (a ∷ xs) (b ∷ bs) = if a == b then same_text xs bs else false

-- The texts mac and aid have kinds of their own.
unfoldable pub kind_of : List ℕ → ℕ
kind_of t =
    if same_text t (b'm' ∷ b'a' ∷ b'c' ∷ [])
    then 1
    else if same_text t (b'a' ∷ b'i' ∷ b'd' ∷ [])
    then 2
    else 5

-- `json.Unmarshal` into a login message is the parameter `unmarshal`.
module _ {D : Type 0} (Q : Database D) (unmarshal : List ℕ → Result JsonLogin) where
  json_number : ℕ → Server D → Result ℕ → Server D × Login
  json_number t s (ok sn) = attach Q (new_serial t sn) s
  json_number t s (err e) = (s, rejected)
  json_number t s panic = (s, crashed)

  json_login : Server D → Result JsonLogin → Server D × Login
  unfolding json_number kind_of
  json_login s (ok m) = json_number (kind_of m.sn_type) s (parse_uint 16 m.serial)
  json_login s (err e) = (s, rejected)
  json_login s panic = (s, crashed)

  json_message : Server D → Json.Outcome → Server D × Login
  unfolding json_login
  json_message s (rest, m, ok u) =
      if m.protocol == 0x01
      then json_login s (unmarshal (Json.shown m.payload m.buffer))
      else (s, rejected)
  json_message s (rest, m, err e) = (s, rejected)
  json_message s (rest, m, panic) = (s, crashed)

  -- `handleAsSimpleJson`
  unfoldable pub handle_as_simple_json : List Input → Server D → Server D × Login
  unfolding json_message
  handle_as_simple_json stream s =
      json_message s (Json.read_message stream (Json.blank (replicate 100 0)))
