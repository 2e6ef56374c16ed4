-- ===== src/Web/Password.antt =====
-- internal/webapp/changepwd.go. The transaction is a copy of the tables that only `Commit` puts in
-- the place of the tables.
use gpstracker_backend.Base.{
  ℕ, Bool, true, false, not, ◌&&◌, List, [], ◌∷◌, Option, none, some, ltb, if◌then◌else◌,
}
use gpstracker_backend.Base.Texts.{Text}
use gpstracker_backend.Web.Tables.{
  User, Session, Db, Rows, row, no_row, failed, gsess, Out, set_cookie, http_error, status_body,
  Decoded, End, finished, panicked, next_fault, ask, rows_of, joined, without_user, with_password,
  Crypto,
}
use gpstracker_backend.Web.Login.{is_empty}

pub record ChangePwdRequest : Type 0 where
  pub current_password : Text
  pub new_password : Text

-- `WHERE session.session_id = $1 and session.valid_until > now() and not "user".suspend_login`
abbrev pub able : ℕ → Option (User × Session) → Option User
able now none = none
able now (some (u, s)) = if ltb now s.valid_until && not u.suspend_login then some u else none

-- A statement that changes the tables.
abbrev pub exec : (Db → Db) → Db → Db × Bool
exec change db =
    let (f, fs) = next_fault db.faults in
    if f then (record db { faults = fs }, true) else (change (record db { faults = fs }), false)

abbrev pub invalidate : ℕ → Db → Db
invalidate id db = record db { sessions = without_user id db.sessions }

abbrev pub set_password : ℕ → Text → Db → Db
set_password id p db = record db { users = with_password id p db.users }

-- Leaving without `Commit`: the tables are what they were before.
abbrev pub rolled_back : Db → Db → Db
rolled_back db tx = record db { faults = tx.faults }

-- The answer is written before `Commit`, and a failing `Commit` is a panic.
abbrev pub committed : Db → Db × Bool → Db × List Out × End
committed db (tx, true) = (rolled_back db tx, set_cookie gsess [] ∷ status_body true ∷ [], panicked)
committed db (tx, false) = (tx, set_cookie gsess [] ∷ status_body true ∷ [], finished)

abbrev pub sessions_gone : Db → Db × Bool → Db × List Out × End
sessions_gone db (tx, true) = (rolled_back db tx, [], panicked)
sessions_gone db (tx, false) = committed db (exec (λ d. d) tx)

abbrev pub password_set : Db → ℕ → Db × Bool → Db × List Out × End
password_set db id (tx, true) = (rolled_back db tx, [], panicked)
password_set db id (tx, false) = sessions_gone db (exec (invalidate id) tx)

module _ (C : Crypto) where
  -- From the result of the SELECT on; `salt` is what bcrypt draws.
  abbrev pub for_user : ℕ → ChangePwdRequest → Db → Db × Rows User → Db × List Out × End
  for_user salt req db (tx, no_row) = (rolled_back db tx, http_error 401 ∷ [], finished)
  for_user salt req db (tx, failed) = (rolled_back db tx, [], panicked)
  for_user salt req db (tx, row u) =
      if C.compare_hash u.password req.current_password
      then password_set db u.id (exec (set_password u.id (C.crypt_pwd salt req.new_password)) tx)
      else (rolled_back db tx, status_body false ∷ [], finished)

  abbrev pub begun : ℕ → ℕ → Text → ChangePwdRequest → Db → Db × Bool → Db × List Out × End
  begun now salt sid req db (tx, true) = (rolled_back db tx, [], panicked)
  begun now salt sid req db (tx, false) =
      for_user salt req db (ask (next_fault tx.faults) tx (λ d. rows_of (able now (joined sid d))))

  -- `change_password`
  unfoldable pub change_password : ℕ → ℕ → Text → ChangePwdRequest → Db → Db × List Out × End
  change_password now salt sid req db = begun now salt sid req db (exec (λ d. d) db)

  -- `ChangePassword`
  unfoldable pub change_password_handler :
      ℕ → ℕ → Option Text → Decoded ChangePwdRequest → Db → Db × List Out × End
  unfolding change_password
  change_password_handler now salt none req db = (db, http_error 400 ∷ [], finished)
  change_password_handler now salt (some sid) req db =
      if req.bad
      then (db, http_error 400 ∷ [], finished)
      else if is_empty req.value.current_password
      then (db, http_error 400 ∷ [], finished)
      else if is_empty req.value.new_password
      then (db, http_error 400 ∷ [], finished)
      else change_password now salt sid req.value db
