-- ===== src/Web/Login.antt =====
-- internal/webapp/login.go. Random bytes are arguments.
use gpstracker_backend.Base.{
  ℕ, ◌/◌, ◌%◌, ◌^◌, Bool, true, false, not, List, [], ◌∷◌, ◌++◌, if◌then◌else◌,
}
use gpstracker_backend.Base.Go.{Result, ok, err, panic, query_failed}
use gpstracker_backend.Base.Texts.{Text}
use gpstracker_backend.Web.Tables.{
  User, Session, Db, Rows, row, no_row, failed, gsess, gsurf, LoginResponse, Out, set_cookie,
  http_error, login_body, Decoded, End, finished, panicked, next_fault, ask, rows_of, user_named,
  add_seconds, Crypto,
}

pub record LoginRequest : Type 0 where
  pub username : Text
  pub password : Text

-- The other values of a request: the clock and the random bytes of the two tokens.
pub record Chance : Type 0 where
  pub now : ℕ
  pub session_bytes : List ℕ
  pub csrf_bytes : List ℕ

abbrev pub is_empty : Text → Bool
is_empty [] = true
is_empty (b ∷ t) = false

-- `&loginResponse{Status: -1}`
abbrev pub refused : LoginResponse
refused = record {
  status_ok = false;
  require_change_pwd = false;
  csrf_token = [];
  valid_until = 0;
  role = [];
}

-- `binary.BigEndian.PutUint32`
abbrev pub big_endian : ℕ → List ℕ
big_endian v = v / 2 ^ 24 % 256 ∷ v / 2 ^ 16 % 256 ∷ v / 2 ^ 8 % 256 ∷ v % 256 ∷ []

module _ (C : Crypto) where
  -- `util.GenRandomString`
  abbrev pub gen_random_string : List ℕ → List ℕ → Text
  gen_random_string d random = C.encode (d ++ random)

  abbrev pub session_id_for : Chance → Text → Text
  session_id_for x name = gen_random_string (big_endian (C.checksum_ieee name)) x.session_bytes

  abbrev pub csrf_token_for : Chance → Text → Text
  csrf_token_for x name = gen_random_string (big_endian (C.checksum_ieee name)) x.csrf_bytes

  -- From the result of the INSERT on.
  unfoldable pub inserted :
      Chance → User → Text → Db × Rows (Unit {0}) → Db × Result (LoginResponse × Text)
  inserted x u name (db, row r) = (
    db,
    ok (
      record {
        status_ok = true;
        require_change_pwd = u.require_change_pwd;
        csrf_token = csrf_token_for x name;
        valid_until = add_seconds x.now u.session_length_sec;
        role = u.role;
      },
      session_id_for x name,
    ),
  )
  inserted x u name (db, no_row) = (db, err query_failed)
  inserted x u name (db, failed) = (db, err query_failed)

  -- `INSERT INTO session`: the row stands when the statement does not fail.
  abbrev pub insert_session : Session → Db → Db × Rows (Unit {0})
  insert_session s db =
      let (f, fs) = next_fault db.faults in
      if f
      then (record db { faults = fs }, failed)
      else (record db { faults = fs; sessions = s ∷ db.sessions }, row tt)

  -- From the result of the SELECT on.
  unfoldable pub found_user :
      Chance → Text → Text → Db × Rows User → Db × Result (LoginResponse × Text)
  unfolding inserted
  found_user x name pwd (db, no_row) = (db, ok (refused, []))
  found_user x name pwd (db, failed) = (db, err query_failed)
  found_user x name pwd (db, row u) =
      if not u.suspend_login
      then (if C.compare_hash u.password pwd
          then inserted x u name (
              insert_session
                (record {
                  session_id = session_id_for x name;
                  user_id = u.id;
                  valid_until = add_seconds x.now u.session_length_sec;
                })
                db)
          else (db, ok (refused, [])))
      else (db, ok (refused, []))

  -- `login`
  unfoldable pub login : Chance → Text → Text → Db → Db × Result (LoginResponse × Text)
  unfolding found_user
  login x name pwd db =
      found_user x name pwd (ask (next_fault db.faults) db (λ d. rows_of (user_named name d.users)))

  abbrev answered : Bool → LoginResponse → Text → List Out
  answered true res sid =
      set_cookie gsess sid ∷ set_cookie gsurf res.csrf_token ∷ login_body res ∷ []
  answered false res sid = login_body res ∷ []

  abbrev pub logged_in : List Out → Db × Result (LoginResponse × Text) → Db × List Out × End
  logged_in outs (db, ok (res, sid)) = (db, outs ++ answered res.status_ok res sid, finished)
  logged_in outs (db, err e) = (db, outs, panicked)
  logged_in outs (db, panic) = (db, outs, panicked)

  abbrev error_if : Bool → List Out
  error_if true = http_error 400 ∷ []
  error_if false = []

  -- `Login`: a bad or invalid request is answered with an error, and handled all the same.
  unfoldable pub login_handler : Chance → Decoded LoginRequest → Db → Db × List Out × End
  unfolding login
  login_handler x req db =
      let invalid = is_empty req.value.username in
      let invalid' = if invalid then true else is_empty req.value.password in
      logged_in (error_if req.bad ++ error_if invalid')
        (login x req.value.username req.value.password db)
