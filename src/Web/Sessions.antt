-- ===== src/Web/Sessions.antt =====
-- internal/webapp/logout.go and internal/webapp/sessioncheck.go.
use gpstracker_backend.Base.{
  ℕ, ◌-◌, true, false, not, List, [], ◌∷◌, Option, none, some, length, ltb, ◌==◌, if◌then◌else◌,
}
use gpstracker_backend.Base.Texts.{Text, same_text}
use gpstracker_backend.Web.Tables.{
  Session, Db, Rows, row, no_row, failed, gsess, Out, set_cookie, http_error, status_body, header,
  Decoded, End, finished, panicked, next_fault, ask, rows_of, session_named, without_session,
}
use gpstracker_backend.Web.Login.{is_empty}

-- The cookies of a request, by their names.
pub record Cookies : Type 0 where
  pub session : Option Text
  pub csrf : Option Text

-- `DELETE FROM session WHERE session_id = $1`, and the number of rows that it deleted.
abbrev pub deleted : Text → Db → Db × Rows ℕ
deleted sid db =
    let (f, fs) = next_fault db.faults in
    let rest = without_session sid db.sessions in
    if f
    then (record db { faults = fs }, failed)
    else (record db { faults = fs; sessions = rest }, row (length db.sessions - length rest))

-- From the result of the DELETE on. When it did not delete exactly one row, `err` is nil, and
-- `err.Error()` panics.
abbrev pub logged_out : List Out → Db × Rows ℕ → Db × List Out × End
logged_out outs (db, failed) = (db, http_error 500 ∷ outs, finished)
logged_out outs (db, no_row) = (db, http_error 500 ∷ outs, finished)
logged_out outs (db, row n) =
    if n == 1 then (db, header 200 ∷ outs, finished) else (db, outs, panicked)

-- `Logout`; what it writes has the newest first.
unfoldable pub logout : Option Text → Db → Db × List Out × End
logout none db = (db, http_error 400 ∷ set_cookie gsess [] ∷ [], finished)
logout (some sid) db = logged_out (set_cookie gsess [] ∷ []) (deleted sid db)

-- `SELECT session.user_id FROM session WHERE session.session_id = $1 AND session.valid_until > now()`
abbrev still_valid : ℕ → Option Session → Option ℕ
still_valid now none = none
still_valid now (some s) = if ltb now s.valid_until then some s.user_id else none

abbrev checked : Db × Rows ℕ → Db × List Out × End
checked (db, row id) = (db, status_body true ∷ [], finished)
checked (db, no_row) = (db, status_body false ∷ [], finished)
checked (db, failed) = (db, status_body false ∷ [], finished)

abbrev with_gsess : ℕ → Option Text → Db → Db × List Out × End
with_gsess now none db = (db, status_body false ∷ [], finished)
with_gsess now (some sid) db =
    checked (
      ask (next_fault db.faults) db (λ d. rows_of (still_valid now (session_named sid d.sessions))))

abbrev with_gsurf : ℕ → Cookies → Text → Option Text → Db → Db × List Out × End
with_gsurf now ck token none db = (db, status_body false ∷ [], finished)
with_gsurf now ck token (some value) db =
    if not (same_text value token)
    then (db, status_body false ∷ [], finished)
    else with_gsess now ck.session db

-- `SessionCheck`, whose request has one text.
unfoldable pub session_check_handler : ℕ → Cookies → Decoded Text → Db → Db × List Out × End
session_check_handler now ck req db =
    if req.bad
    then (db, http_error 400 ∷ [], finished)
    else if is_empty req.value
    then (db, http_error 400 ∷ [], finished)
    else with_gsurf now ck req.value ck.csrf db
