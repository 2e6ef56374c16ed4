-- ===== src/Web/Tracker.antt =====
-- internal/webapp/tracker/tracker.go: what the functions do with the tables and the devices. A row
-- that cannot be scanned is `none`; `rows.Err` is not looked at, so that rows that never arrive are
-- not missed.
pub mod Settings
pub mod Paging
pub mod History
mod Runs
use gpstracker_backend.Base.{
  ℕ, zero, suc, ◌+◌, Bool, true, false, not, ◌&&◌, ◌||◌, List, [], ◌∷◌, ◌++◌, Option, none, some,
  map, take, ltb, ◌==◌, if◌then◌else◌,
}
use gpstracker_backend.Base.Go.{Error, query_failed, Result, ok, err, panic, ◌>>=◌}
use gpstracker_backend.Base.Int.{ℤ, pos, negsuc}
use gpstracker_backend.Base.Texts.{Text, same_text}
use gpstracker_backend.Base.Values.{Values}
use gpstracker_backend.Device.{Serial, new_serial2}
use gpstracker_backend.Gt06.State.{DeviceConfig, Device}
use gpstracker_backend.Gt06.Command.{send_command}
use gpstracker_backend.Server.{Entry, DeviceList, get_device, purge_device, lookup, assign}

-- A JSON value of a configuration.
pub data Value : Type 0 where
  flag : Bool → Value
  number : ℤ → Value
  text : Text → Value

-- The keys of a configuration, numbered. `send_sublist` is the key that `device.DeviceConfig` reads,
-- and `sublist_send` the one that `TrackerConfigs` writes.
abbrev pub allow_connect_key : ℕ
allow_connect_key = 0

abbrev pub send_sublist_key : ℕ
send_sublist_key = 1

abbrev pub sublist_send_key : ℕ
sublist_send_key = 2

abbrev pub store_key : ℕ
store_key = 3

abbrev pub broadcast_key : ℕ
broadcast_key = 4

abbrev pub log_level_key : ℕ
log_level_key = 5

abbrev pub read_deadline_key : ℕ
read_deadline_key = 6

abbrev pub Object : Type 0
Object = List (ℕ × Value)

-- `TrackerConfigs`, whose nil fields are left out.
pub record TrackerConfigs : Type 0 where
  pub allow_connect : Option Bool
  pub sublist_send : Option Bool
  pub store : Option Bool
  pub broadcast : Option Bool
  pub log_level : Option Text
  pub read_deadline : Option ℤ

pub record TrackerRow : Type 0 where
  pub id : ℕ
  pub name : Text
  pub nsn : ℕ
  pub protocol : Text
  pub vehicle : Option Text
  pub config : Object

pub record BasicResponse : Type 0 where
  pub status : ℤ
  pub message : Text

-- How a statement fails: with a code of PostgreSQL or without one.
pub data Fault : Type 0 where
  pg_error : ℕ → Fault
  other_fault : Fault

abbrev with_value : {A : Type 0} → (A → Value) → ℕ → Option A → Object → Object
with_value f k none o = o
with_value f k (some a) o = assign k (f a) o

-- `config || $1`: each key of the request takes its new value.
unfoldable pub merge : TrackerConfigs → Object → Object
merge c o = with_value number read_deadline_key c.read_deadline (
    with_value text log_level_key c.log_level (
      with_value flag broadcast_key c.broadcast (
        with_value flag store_key c.store (
          with_value flag sublist_send_key c.sublist_send
            (with_value flag allow_connect_key c.allow_connect o)))))

-- `json.Unmarshal` into a field: a missing key is the zero value.
abbrev pub bool_field : Option Value → Result Bool
bool_field none = ok false
bool_field (some (flag b)) = ok b
bool_field (some v) = err query_failed

abbrev pub number_field : Option Value → Result ℤ
number_field none = ok (pos 0)
number_field (some (number n)) = ok n
number_field (some v) = err query_failed

-- What `device.DeviceConfig` makes of a configuration, the level of its log apart.
unfoldable pub read_config : Object → Result DeviceConfig
read_config o = do
  a ← bool_field (lookup allow_connect_key o)
  s ← bool_field (lookup send_sublist_key o)
  t ← bool_field (lookup store_key o)
  b ← bool_field (lookup broadcast_key o)
  n ← number_field (lookup read_deadline_key o)
  ok (record { allow_connect = a; sublist_send = s; store = t; broadcast = b; read_deadline = n })

-- `UPDATE … WHERE tracker.id = $2`: the table and whether there was such a row.
abbrev pub update_row : (TrackerRow → TrackerRow) → ℕ → List TrackerRow → List TrackerRow × Bool
update_row f id [] = ([], false)
update_row f id (r ∷ rs) =
    let (rest, found) = update_row f id rs in
    if r.id == id then (f r ∷ rest, true) else (r ∷ rest, found)

abbrev minus_one : ℤ
minus_one = negsuc 0

abbrev edited : List TrackerRow × Bool → List TrackerRow × Result BasicResponse
edited (rows, true) = (rows, ok (record { status = pos 0; message = [] }))
edited (rows, false) = (rows, ok (record { status = minus_one; message = [] }))

-- `EditTrackerSettings`
unfoldable pub edit_tracker_settings :
    ℕ → TrackerConfigs → Option Fault → List TrackerRow → List TrackerRow × Result BasicResponse
unfolding merge
edit_tracker_settings id c (some f) rows = (rows, err query_failed)
edit_tracker_settings id c none rows =
    edited (update_row (λ r. record r { config = merge c r.config }) id rows)

-- Another tracker has the name.
abbrev pub name_taken : ℕ → Text → List TrackerRow → Bool
name_taken id name [] = false
name_taken id name (r ∷ rs) =
    if not (r.id == id) && same_text r.name name then true else name_taken id name rs

-- The code of a unique violation.
abbrev unique_violation : ℕ
unique_violation = 23505

-- `duplicate name found`, `tracker not found` and `success` by their first letters.
abbrev set_name_failed : Fault → Result BasicResponse
set_name_failed other_fault = err query_failed
set_name_failed (pg_error code) =
    if code == unique_violation
    then ok (record { status = minus_one; message = b'd' ∷ [] })
    else ok (record { status = pos 0; message = [] })

abbrev set_name_done : List TrackerRow × Bool → List TrackerRow × Result BasicResponse
set_name_done (rows, false) = (rows, ok (record { status = pos 0; message = b't' ∷ [] }))
set_name_done (rows, true) = (rows, ok (record { status = pos 1; message = b's' ∷ [] }))

-- `SetTrackerName`; the table's names are unique.
unfoldable pub set_tracker_name :
    ℕ → Text → Option Fault → List TrackerRow → List TrackerRow × Result BasicResponse
set_tracker_name id name (some f) rows = (rows, set_name_failed f)
set_tracker_name id name none rows =
    let (rows', found) = update_row (λ r. record r { name = name }) id rows in
    if found && name_taken id name rows
    then (rows, set_name_failed (pg_error unique_violation))
    else set_name_done (rows', found)

pub record TrackerModel : Type 0 where
  pub tracker_id : ℕ
  pub name : Text
  pub sn_type : Text
  pub serial_number : ℕ
  pub nserial_number : ℕ
  pub serial_number_pretty : Text
  pub protocol : Text
  pub vehicle : Option Text

unfoldable pub tracker_model : TrackerRow → TrackerModel
tracker_model r =
    let ser = new_serial2 r.nsn in
    record {
      tracker_id = r.id;
      name = r.name;
      sn_type = ser.sn_type_string;
      serial_number = ser.sn;
      nserial_number = r.nsn;
      serial_number_pretty = ser.sn_string;
      protocol = r.protocol;
      vehicle = r.vehicle;
    }

-- The loops over `rows.Next` with a `Scan` in each turn.
abbrev pub scan_all : {A B : Type 0} → (A → B) → List (Option A) → Result (List B)
scan_all f [] = ok []
scan_all f (none ∷ rs) = err query_failed
scan_all f (some r ∷ rs) = scan_all f rs >>= λ bs. ok (f r ∷ bs)

-- `GetTrackers`
unfoldable pub get_trackers : List (Option TrackerRow) → Result (List TrackerModel)
unfolding tracker_model
get_trackers rows = scan_all tracker_model rows

-- `GetTrackerDetail`, which also gives the configuration.
abbrev detail_of : Option TrackerRow → Result (TrackerModel × DeviceConfig)
detail_of none = err query_failed
detail_of (some r) = read_config r.config >>= λ c. ok (tracker_model r, c)

abbrev row_numbered : ℕ → List TrackerRow → Option TrackerRow
row_numbered id [] = none
row_numbered id (r ∷ rs) = if r.id == id then some r else row_numbered id rs

unfoldable pub get_tracker_detail : ℕ → List TrackerRow → Result (TrackerModel × DeviceConfig)
unfolding tracker_model read_config
get_tracker_detail id rows = detail_of (row_numbered id rows)

-- `PurgeTracker`: whether the device was found. The server's panic on a missing one passes through.
abbrev purge_answer : Result (DeviceList × ℕ × Bool) → Result BasicResponse
purge_answer (ok (l, dev, true)) = ok (record { status = pos 0; message = [] })
purge_answer (ok (l, dev, false)) = ok (record { status = minus_one; message = b'd' ∷ [] })
purge_answer (err e) = err e
purge_answer panic = panic

unfoldable pub purge_tracker : ℕ → DeviceList → Result BasicResponse
purge_tracker tid l = purge_answer (purge_device tid l)

-- `SELECT ws_token FROM websocket_session WHERE session_id = $1`
abbrev pub token_of : Text → List (Text × Text) → Option Text
token_of sid [] = none
token_of sid ((s, t) ∷ ts) = if same_text s sid then some t else token_of sid ts

-- `INSERT INTO websocket_session` with its `ON CONFLICT`.
abbrev pub with_token : Text → Text → List (Text × Text) → List (Text × Text)
with_token sid token [] = (sid, token) ∷ []
with_token sid token ((s, t) ∷ ts) =
    if same_text s sid then (s, token) ∷ ts else (s, t) ∷ with_token sid token ts

abbrev pub token_or_empty : Option Text → Text
token_or_empty none = []
token_or_empty (some t) = t

-- `GetWsToken` and `CreateWsToken`, for a session and a table of sessions and tokens. `fault` says
-- that the statement fails.
unfoldable pub get_ws_token : Bool → Text → List (Text × Text) → Result Text
get_ws_token fault sid tokens =
    if fault then err query_failed else ok (token_or_empty (token_of sid tokens))

unfoldable pub create_ws_token :
    Bool → Text → Text → List (Text × Text) → List (Text × Text) × Result Text
create_ws_token fault sid token tokens =
    if fault then (tokens, err query_failed) else (with_token sid token tokens, ok token)

module _ (V : Values) where
  open V use {Time}

  -- The devices behind the numbers of the list.
  pub data Instance : Type 0 where
    gt06_device : Device V → Instance
    json_device : Instance

  abbrev send_to : Text → Bool → Time → Instance → Instance × BasicResponse
  send_to command force t json_device =
      (json_device, record { status = minus_one; message = b'd' ∷ [] })
  send_to command force t (gt06_device dev) = answered (send_command V command force t dev)
    where
      answered : Device V × Bool × Option Error → Instance × BasicResponse
      answered (dev', pending, some e) =
          (gt06_device dev', record { status = minus_one; message = b'e' ∷ [] })
      answered (dev', true, none) =
          (gt06_device dev', record { status = minus_one; message = b'h' ∷ [] })
      answered (dev', false, none) = (gt06_device dev', record { status = pos 0; message = [] })

  abbrev send_found :
      Text → Bool → Time → Option Entry → (ℕ → Instance) → Option Instance × BasicResponse
  send_found command force t none object =
      (none, record { status = minus_one; message = b'd' ∷ [] })
  send_found command force t (some e) object =
      let (i, res) = send_to command force t (object e.dev) in (some i, res)

  -- `SendCommand2`: the device as it is then, if there is one, and the answer.
  unfoldable pub send_command2 :
      ℕ → Text → Bool → Time → DeviceList → (ℕ → Instance) → Option Instance × BasicResponse
  send_command2 tid command force t l object = send_found command force t (get_device tid l) object
