-- ===== src/ServerImpl.antt =====
-- internal/gps/serverimpl/server.go, the older server: its logins, with the two mutexes that they
-- take. A mutex that is held when a call has returned stays held, and a call that needs it never
-- returns.
pub mod Lockup
mod Runs
use gpstracker_backend.Base.{
  ℕ, ◌+◌, Bool, true, false, ◌&&◌, List, [], ◌∷◌, ◌++◌, map, Option, none, some, ◌==◌,
  if◌then◌else◌,
}
use gpstracker_backend.Base.Texts.{Text, same_text}
use gpstracker_backend.Base.Strconv.{format_uint}
use gpstracker_backend.Web.Tables.{next_fault}
use gpstracker_backend.Server.{lookup, assign}

-- A row of the table tracker.
pub record Row : Type 0 where
  pub id : ℕ
  pub sn_type : Text
  pub serial_number : ℕ
  pub fsn : Text

pub data RunningState : Type 0 where
  not_run running closing closed : RunningState

-- `client` is the number of the connection whose client has the session.
pub record ClientSession : Type 0 where
  pub tracker_id : ℕ
  pub fsn : Text
  pub client : Option ℕ
  pub locked : Bool

-- `states` has the running states of the clients by their connections, and `faults` tells which of
-- the next statements fail.
pub record ServerImpl : Type 0 where
  pub rows : List Row
  pub next_id : ℕ
  pub faults : List Bool
  pub list_locked : Bool
  pub sessions : List (ℕ × ClientSession)
  pub states : List (ℕ × RunningState)

-- How a call of `Login` ends: it returns true with the session of a tracker, it returns false, or
-- it never returns.
pub data LoginEnd : Type 0 where
  accepted : ℕ → LoginEnd
  refused stuck : LoginEnd

-- `TryCloseWait`, which waits for the end of a running client. One that has not started sets its
-- state to running, and then ends without a signal, so that the wait has no end.
unfoldable pub try_close_wait : RunningState → Option (RunningState × Bool)
try_close_wait closed = some (closed, true)
try_close_wait closing = some (closing, false)
try_close_wait running = some (closed, true)
try_close_wait not_run = none

abbrev pub row_of : Text → ℕ → List Row → Option Row
row_of sn_type serial [] = none
row_of sn_type serial (r ∷ rs) =
    if same_text r.sn_type sn_type && (r.serial_number == serial)
    then some r
    else row_of sn_type serial rs

abbrev pub new_client_session : ℕ → Text → ClientSession
new_client_session tid fsn = record { tracker_id = tid; fsn = fsn; client = none; locked = false }

abbrev put_session : ℕ → ClientSession → ServerImpl → ServerImpl
put_session tid cs s = record s { sessions = assign tid cs s.sessions }

abbrev state_or_closed : Option RunningState → RunningState
state_or_closed none = closed
state_or_closed (some r) = r

-- The client of a session is closed before another one takes its place. Only the session's mutex is
-- unlocked, and neither when the client does not close.
abbrev closed_client :
    ℕ → ℕ → ClientSession → ℕ → Option (RunningState × Bool) → ServerImpl → ServerImpl × LoginEnd
closed_client tid c cs old none s = (put_session tid (record cs { locked = true }) s, stuck)
closed_client tid c cs old (some (r, false)) s =
    (put_session tid (record cs { locked = true }) s, refused)
closed_client tid c cs old (some (r, true)) s = (
  put_session tid (record cs { client = some c }) (record s { states = assign old r s.states }),
  accepted tid,
)

abbrev replace_client : ℕ → ℕ → ClientSession → Option ℕ → ServerImpl → ServerImpl × LoginEnd
replace_client tid c cs none s = (put_session tid (record cs { client = some c }) s, accepted tid)
replace_client tid c cs (some old) s =
    closed_client tid c cs old (try_close_wait (state_or_closed (lookup old s.states))) s

abbrev with_session : ℕ → Text → ℕ → Option ClientSession → ServerImpl → ServerImpl × LoginEnd
with_session tid fsn c none s =
    (record (put_session tid (new_client_session tid fsn) s) { list_locked = false }, accepted tid)
with_session tid fsn c (some cs) s =
    if cs.locked then (s, stuck) else replace_client tid c cs cs.client s

-- From the lock of the list of sessions on.
abbrev pub enter : ℕ → Text → ℕ → ServerImpl → ServerImpl × LoginEnd
enter tid fsn c s =
    if s.list_locked
    then (s, stuck)
    else with_session tid fsn c (lookup tid s.sessions) (record s { list_locked = true })

-- A tracker that is not in the table is inserted.
abbrev pub registered : Text → ℕ → ℕ → Option Row → ServerImpl → ServerImpl × LoginEnd
registered sn_type serial c (some r) s = enter r.id r.fsn c s
registered sn_type serial c none s =
    let fsn = sn_type ++ b':' ∷ format_uint serial 16 in
    let (fault, fs) = next_fault s.faults in
    let r : Row = record { id = s.next_id; sn_type = sn_type; serial_number = serial; fsn = fsn } in
    if fault
    then (record s { faults = fs }, refused)
    else enter r.id fsn c
        (record s { rows = s.rows ++ r ∷ []; next_id = s.next_id + 1; faults = fs })

-- `Login` of the connection `c`.
unfoldable pub login : Text → ℕ → ℕ → ServerImpl → ServerImpl × LoginEnd
unfolding try_close_wait
login sn_type serial c s =
    let (fault, fs) = next_fault s.faults in
    if fault
    then (record s { faults = fs }, refused)
    else registered sn_type serial c (row_of sn_type serial s.rows) (record s { faults = fs })

-- `GetClientsStatus`, for the ids and names, or `none` when it never returns.
abbrev status_of : ℕ × ClientSession → ℕ × Text
status_of (tid, cs) = (tid, cs.fsn)

unfoldable pub get_clients_status : ServerImpl → Option (List (ℕ × Text))
get_clients_status s = if s.list_locked then none else some (map status_of s.sessions)

-- `GetClientStatus`
abbrev client_status : Option ClientSession → Option (ℕ × Text)
client_status none = none
client_status (some cs) = some (cs.tracker_id, cs.fsn)

unfoldable pub get_client_status : ℕ → ServerImpl → Option (Option (ℕ × Text))
get_client_status tid s =
    if s.list_locked then none else some (client_status (lookup tid s.sessions))
