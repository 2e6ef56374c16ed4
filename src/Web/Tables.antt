-- ===== src/Web/Tables.antt =====
-- The tables "user" and session, the SQL statements that the handlers of internal/webapp send, and
-- what a handler writes to its client. A time is a number of nanoseconds; `time.Now` and the
-- database's `now()` are one clock.
use gpstracker_backend.Base.{
  ℕ, ◌+◌, ◌-◌, ◌*◌, ◌%◌, ◌^◌, Bool, true, false, List, [], ◌∷◌, Option, none, some, ltb, ◌==◌,
  if◌then◌else◌,
}
use gpstracker_backend.Base.Texts.{Text, same_text}

pub record User : Type 0 where
  pub id : ℕ
  pub username : Text
  pub password : Text
  pub require_change_pwd : Bool
  pub suspend_login : Bool
  pub session_length_sec : ℕ
  pub role : Text

pub record Session : Type 0 where
  pub session_id : Text
  pub user_id : ℕ
  pub valid_until : ℕ

-- `faults` tells which of the next statements fail.
pub record Db : Type 0 where
  pub users : List User
  pub sessions : List Session
  pub faults : List Bool

-- What a statement gives: a value, `pgx.ErrNoRows`, or another error.
pub data Rows (A : Type 0) : Type 0 where
  row : A → Rows A
  no_row : Rows A
  failed : Rows A

pub data CookieName : Type 0 where
  gsess gsurf : CookieName

pub record LoginResponse : Type 0 where
  pub status_ok : Bool
  pub require_change_pwd : Bool
  pub csrf_token : Text
  pub valid_until : ℕ
  pub role : Text

-- What a handler writes: a cookie, `http.Error` with its code, a JSON body, or a bare header.
-- A `Status` is true for 0 and false for -1.
pub data Out : Type 0 where
  set_cookie : CookieName → Text → Out
  http_error : ℕ → Out
  login_body : LoginResponse → Out
  status_body : Bool → Out
  body : Text → Out
  header : ℕ → Out

-- A request body as the decoder leaves it: the struct that it filled, which may be filled in part
-- when there was an error.
pub record Decoded (A : Type 0) : Type 0 where
  pub value : A
  pub bad : Bool

-- A handler's end: it returns or panics.
pub data End : Type 0 where
  finished panicked : End

-- A statement takes its fault off the list.
abbrev pub next_fault : List Bool → Bool × List Bool
next_fault [] = (false, [])
next_fault (f ∷ fs) = (f, fs)

abbrev pub ask : {A : Type 0} → Bool × List Bool → Db → (Db → Rows A) → Db × Rows A
ask (true, fs) db q = (record db { faults = fs }, failed)
ask (false, fs) db q = (record db { faults = fs }, q db)

abbrev pub rows_of : {A : Type 0} → Option A → Rows A
rows_of none = no_row
rows_of (some a) = row a

abbrev pub user_named : Text → List User → Option User
user_named name [] = none
user_named name (u ∷ us) = if same_text u.username name then some u else user_named name us

abbrev pub user_numbered : ℕ → List User → Option User
user_numbered id [] = none
user_numbered id (u ∷ us) = if u.id == id then some u else user_numbered id us

abbrev pub session_named : Text → List Session → Option Session
session_named sid [] = none
session_named sid (s ∷ ss) = if same_text s.session_id sid then some s else session_named sid ss

-- `"user" INNER JOIN session ON "user".id = session.user_id WHERE session.session_id = $1`
abbrev pub with_user : Session → Option User → Option (User × Session)
with_user s none = none
with_user s (some u) = some (u, s)

abbrev pub user_of : Option Session → List User → Option (User × Session)
user_of none users = none
user_of (some s) users = with_user s (user_numbered s.user_id users)

abbrev pub joined : Text → Db → Option (User × Session)
joined sid db = user_of (session_named sid db.sessions) db.users

-- `DELETE FROM session WHERE user_id = $1`
abbrev pub without_user : ℕ → List Session → List Session
without_user id [] = []
without_user id (s ∷ ss) = if s.user_id == id then without_user id ss else s ∷ without_user id ss

-- `DELETE FROM session WHERE session_id = $1`
abbrev pub without_session : Text → List Session → List Session
without_session sid [] = []
without_session sid (s ∷ ss) =
    if same_text s.session_id sid then without_session sid ss else s ∷ without_session sid ss

-- `UPDATE "user" SET password = $1,require_change_pwd = false WHERE id = $2`
abbrev pub with_password : ℕ → Text → List User → List User
with_password id p [] = []
with_password id p (u ∷ us) =
    if u.id == id
    then record u { password = p; require_change_pwd = false } ∷ with_password id p us
    else u ∷ with_password id p us

-- `now.Add(time.Duration(n) * time.Second)`: a duration is a signed word of 64 bits.
abbrev pub add_seconds : ℕ → ℕ → ℕ
add_seconds now n =
    let d = n * 1000000000 % 2 ^ 64 in if ltb d (2 ^ 63) then now + d else now - (2 ^ 64 - d)

-- What the code takes from bcrypt, crc32 and base64.
pub record Crypto : Type 0 where
  pub compare_hash : Text → Text → Bool
  pub crypt_pwd : ℕ → Text → Text
  pub checksum_ieee : Text → ℕ
  pub encode : List ℕ → Text
