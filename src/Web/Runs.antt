-- ===== src/Web/Runs.antt =====
-- The theorems on sessions and functions at concrete inputs.
use gpstracker_backend.Base.{
  ◌+◌, ℕ, ◌≡◌, ◌≢◌, ◌⊎◌, refl, true, false, List, [], ◌∷◌, none, some, inl, arith,
}
use gpstracker_backend.Base.Texts.{Text, same_text}
use gpstracker_backend.Web.Tables.{
  User, Session, Db, gsess, gsurf, set_cookie, http_error, login_body, status_body, header,
  finished, panicked, joined, Crypto,
}
use gpstracker_backend.Web.Login.{
  LoginRequest, Chance, refused, login, session_id_for, login_handler,
}
use gpstracker_backend.Web.Password.{ChangePwdRequest, change_password}
use gpstracker_backend.Web.Sessions.{logout}
use gpstracker_backend.Web.Dispatcher.{
  attributes, replied, Function, tracker_admin, call, call_function,
}
use gpstracker_backend.Web.Api.{Handlers}
use gpstracker_backend.Web.Access.{
  IsGranted, session_for, accepted, opened, call_function-IsGranted, login_handler-call_function,
}
use gpstracker_backend.Web.Atomic.{IsUnchanged, IsChanged, change_password-IsChanged}
use gpstracker_backend.Base.Go.{ok}
use gpstracker_backend.Web.Users.{
  SetSuspendFlagRequest, set_suspend_flag, PurgeSessionRequest, purge_session,
}
use gpstracker_backend.Web.Purge.{purge_session-call_function}
use gpstracker_backend.Web.Suspend.{login-set_suspend_flag}
use gpstracker_backend.Web.Revoke.{change_password-call_function, logout-logout}

-- Passwords are their own hashes.
abbrev plain_crypto : Crypto
plain_crypto = record {
  compare_hash = same_text;
  crypt_pwd = λ salt p. p;
  checksum_ieee = λ t. 7;
  encode = λ t. t;
}

abbrev alice : User
alice = record {
  id = 1;
  username = 97 ∷ [];
  password = 112 ∷ [];
  require_change_pwd = false;
  suspend_login = false;
  session_length_sec = 60;
  role = tracker_admin;
}

abbrev open_session : Session
open_session = record { session_id = 9 ∷ []; user_id = 1; valid_until = 50 }

abbrev tables : Db
tables = record { users = alice ∷ []; sessions = open_session ∷ []; faults = [] }

-- Every function counts its calls.
abbrev counting : Handlers ℕ
counting = record { does = λ n a req s. (s + 1, [], replied req); accepts = λ n req. true }

abbrev counter : Function ℕ
counter = record {
  request_ok = none;
  raw_response = false;
  role = tracker_admin;
  handler = λ a req s. (s + 1, [], replied req);
}

abbrev functions : List (Text × Function ℕ)
functions = (3 ∷ [], counter) ∷ []

abbrev chance : Chance
chance = record { now = 5; session_bytes = 1 ∷ []; csrf_bytes = 2 ∷ [] }

abbrev request : LoginRequest
request = record { username = 97 ∷ []; password = 112 ∷ [] }

abbrev new_password : ChangePwdRequest
new_password = record { current_password = 112 ∷ []; new_password = 113 ∷ [] }

call_function-IsGranted_example :
    ((call_function functions (some (9 ∷ [])) (3 ∷ []) 40 [] (tables, 0)).0.1 ≡ 0)
    ⊎ ((sid : Text) × (some (9 ∷ []) ≡ some sid) × IsGranted functions sid (3 ∷ []) 40 [] tables)
call_function-IsGranted_example =
    call_function-IsGranted functions (some (9 ∷ [])) (3 ∷ []) 40 [] tables 0

login_handler-call_function_example :
    let sid = session_id_for plain_crypto chance (97 ∷ []) in
    let res = accepted plain_crypto chance (97 ∷ []) alice in
    let db' = opened plain_crypto chance (97 ∷ []) alice tables in
    let (s', outs, e) =
      call counter (attributes sid (alice, session_for plain_crypto chance (97 ∷ []) alice)) [] 0 in
    (login_handler plain_crypto chance (record { value = request; bad = false }) tables ≡ (
      db',
      set_cookie gsess sid ∷ set_cookie gsurf res.csrf_token ∷ login_body res ∷ [],
      finished,
    ))
    × (call_function functions (some sid) (3 ∷ []) 40 [] (db', 0) ≡ ((db', s'), outs, e))
login_handler-call_function_example =
    login_handler-call_function plain_crypto chance request alice tables functions (3 ∷ []) counter
      40 [] 0 (refl, refl, refl, refl, refl, refl, refl) refl (omega arith) refl (inl refl)

change_password-IsChanged_example :
    let out = change_password plain_crypto 40 0 (9 ∷ []) new_password tables in
    IsUnchanged tables out.0
    ⊎ (IsChanged plain_crypto 40 0 (9 ∷ []) new_password tables out.0
        × (out.2 ≡ finished)
        × (out.1 ≡ set_cookie gsess [] ∷ status_body true ∷ []))
change_password-IsChanged_example =
    change_password-IsChanged plain_crypto 40 0 (9 ∷ []) new_password tables

change_password-call_function_example :
    let (db', outs, e) = change_password plain_crypto 40 0 (9 ∷ []) new_password tables in
    (e ≡ finished)
    × (((call_function functions (some (9 ∷ [])) (3 ∷ []) 41 [] (db', 0)).0.1 ≡ 0)
        ⊎ ((v : User) × (ses : Session) × (joined (9 ∷ []) db' ≡ some (v, ses)) × (v.id ≢ 1)))
change_password-call_function_example =
    change_password-call_function plain_crypto 40 0 (9 ∷ []) new_password tables alice functions
      (9 ∷ []) (3 ∷ []) 41 [] 0 refl refl refl

logout-logout_example :
    let (db', outs, e) = logout (some (9 ∷ [])) tables in
    (e ≡ finished)
    × (outs ≡ header 200 ∷ set_cookie gsess [] ∷ [])
    × (call_function functions (some (9 ∷ [])) (3 ∷ []) 40 [] (db', 0)
        ≡ ((db', 0), http_error 401 ∷ [], finished))
    × ((logout (some (9 ∷ [])) db').2 ≡ panicked)
logout-logout_example = logout-logout (9 ∷ []) tables functions (3 ∷ []) 40 [] 0 refl refl

abbrev suspension : SetSuspendFlagRequest
suspension = record { user_id = 1; suspend = true }

login-set_suspend_flag_example :
    let db' = (set_suspend_flag suspension tables).0 in
    let (w, outs, e) = call_function functions (some (9 ∷ [])) (3 ∷ []) 40 [] (tables, 0) in
    (login plain_crypto chance (97 ∷ []) (112 ∷ []) db' ≡ (db', ok (refused, [])))
    × (call_function functions (some (9 ∷ [])) (3 ∷ []) 40 [] (db', 0) ≡ ((db', w.1), outs, e))
login-set_suspend_flag_example =
    login-set_suspend_flag plain_crypto suspension tables alice chance (97 ∷ []) (112 ∷ [])
      functions (9 ∷ []) (3 ∷ []) 40 [] 0 refl refl refl refl

abbrev purge_valid : PurgeSessionRequest
purge_valid = record { user_id = 1; all = false }

purge_session-call_function_example :
    let (db', n) = purge_session purge_valid 40 tables in
    ((call_function functions (some (9 ∷ [])) (3 ∷ []) 41 [] (db', 0)).0.1 ≡ 0)
    ⊎ ((v : User) × (ses : Session) × (joined (9 ∷ []) db' ≡ some (v, ses)) × (v.id ≢ 1))
purge_session-call_function_example =
    purge_session-call_function purge_valid 40 tables functions (9 ∷ []) (3 ∷ []) 41 [] 0 refl
      (omega arith)
