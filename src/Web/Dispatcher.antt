-- ===== src/Web/Dispatcher.antt =====
-- internal/webapp/dispatcher.go, with the functions that internal/webapp/api.go adds and its check
-- of the CSRF token. What a function does is a parameter: it changes a state `S` of its own.
use gpstracker_backend.Base.{
  ℕ, Bool, true, false, not, ◌||◌, List, [], ◌∷◌, ◌++◌, Option, none, some, ltb, if◌then◌else◌,
}
use gpstracker_backend.Base.Texts.{Text, same_text}
use gpstracker_backend.Web.Tables.{
  User, Session, Db, Rows, row, no_row, failed, Out, http_error, body, End, finished, panicked,
  next_fault, ask, rows_of, joined,
}

-- The texts tracker-monitor and tracker-admin.
abbrev pub tracker_monitor : Text
tracker_monitor =
    b't' ∷ b'r' ∷ b'a' ∷ b'c' ∷ b'k' ∷ b'e' ∷ b'r' ∷ b'-' ∷ b'm' ∷ b'o' ∷ b'n' ∷ b'i' ∷ b't' ∷ b'o'
    ∷ b'r' ∷ []

abbrev pub tracker_admin : Text
tracker_admin =
    b't' ∷ b'r' ∷ b'a' ∷ b'c' ∷ b'k' ∷ b'e' ∷ b'r' ∷ b'-' ∷ b'a' ∷ b'd' ∷ b'm' ∷ b'i' ∷ b'n' ∷ []

unfoldable pub has_role : Text → Text → Bool
has_role role target =
    if same_text target role then true else if same_text target tracker_monitor then true else false

-- `UserSessionAtrribute`
pub record Attributes : Type 0 where
  pub require_change_password : Bool
  pub roles : Text
  pub valid_until : ℕ
  pub session_id : Text

abbrev pub attributes : Text → User × Session → Attributes
attributes sid (u, s) = record {
  require_change_password = u.require_change_pwd;
  roles = u.role;
  valid_until = s.valid_until;
  session_id = sid;
}

-- What a call of a function by reflection gives: no result at all, a nil error with the response
-- that it left, or an error.
pub data Reply : Type 0 where
  no_results : Reply
  replied : Text → Reply
  error_result : Reply

-- `request_ok` says whether a body can be decoded to the function's request type and is valid, and
-- is none when the function takes no request. A raw function writes itself.
pub record Function (S : Type 0) : Type 0 where
  pub request_ok : Option (Text → Bool)
  pub raw_response : Bool
  pub role : Text
  pub handler : Attributes → Text → S → S × List Out × Reply

abbrev pub decoded : Option (Text → Bool) → Text → Bool
decoded none req = true
decoded (some accepts) req = accepts req

module _ {S : Type 0} where
  abbrev pub function_named : Text → List (Text × Function S) → Option (Function S)
  function_named name [] = none
  function_named name ((n, f) ∷ fs) = if same_text n name then some f else function_named name fs

  -- `Add` and `AddRaw`: the map takes the last function of a name.
  unfoldable pub add : Text → Function S → List (Text × Function S) → List (Text × Function S)
  add name f [] = (name, f) ∷ []
  add name f ((n, g) ∷ fs) = if same_text n name then (n, f) ∷ fs else (n, g) ∷ add name f fs

  -- `err_ref[0]` of a function without results is out of range.
  abbrev handled : Bool → S × List Out × Reply → S × List Out × End
  handled raw (s, outs, no_results) = (s, outs, panicked)
  handled raw (s, outs, error_result) = (s, outs, panicked)
  handled true (s, outs, replied t) = (s, outs, finished)
  handled false (s, outs, replied t) = (s, outs ++ body t ∷ [], finished)

  -- `call`
  unfoldable pub call : Function S → Attributes → Text → S → S × List Out × End
  call f a req s =
      if decoded f.request_ok req
      then handled f.raw_response (f.handler a req s)
      else (s, http_error 400 ∷ [], finished)

  abbrev pub found : Option (Function S) → Attributes → Text → S → S × List Out × End
  found none a req s = (s, http_error 404 ∷ [], finished)
  found (some f) a req s =
      if not (has_role a.roles f.role) then (s, http_error 401 ∷ [], finished) else call f a req s

  -- From the result of `session_check` on, which panics when its statement fails.
  abbrev pub in_session :
      List (Text × Function S) → Text → ℕ → Rows Attributes → Text → S → S × List Out × End
  in_session fs name now no_row req s = (s, http_error 401 ∷ [], finished)
  in_session fs name now failed req s = (s, [], panicked)
  in_session fs name now (row a) req s =
      if a.require_change_password || ltb a.valid_until now
      then (s, http_error 401 ∷ [], finished)
      else found (function_named name fs) a req s

-- `session_check`
abbrev pub attributes_of : Text → Rows (User × Session) → Rows Attributes
attributes_of sid (row us) = row (attributes sid us)
attributes_of sid no_row = no_row
attributes_of sid failed = failed

abbrev pub checked_session : Text → Db × Rows (User × Session) → Db × Rows Attributes
checked_session sid (db, r) = (db, attributes_of sid r)

unfoldable pub session_check : Text → Db → Db × Rows Attributes
session_check sid db =
    checked_session sid (ask (next_fault db.faults) db (λ d. rows_of (joined sid d)))

module _ {S : Type 0} where
  -- `Call`: the request's cookie, the function's name, the time and the body.
  unfoldable pub call_function :
      List (Text × Function S) → Option Text → Text → ℕ → Text → Db × S → (Db × S) × List Out × End
  unfolding session_check call has_role
  call_function fs none name now req w = (w, http_error 401 ∷ [], finished)
  call_function fs (some sid) name now req (db, s) =
      let (db', r) = session_check sid db in
      let (s', outs, e) = in_session fs name now r req s in ((db', s'), outs, e)

-- `xsrf_verify`: the header, which is empty when it is missing, must be the cookie's value; only
-- then the next handler runs.
unfoldable pub xsrf_verify :
    {A : Type 0} → Text → Option Text → A → (A → A × List Out × End) → A × List Out × End
xsrf_verify hdr none a next = (a, http_error 401 ∷ [], finished)
xsrf_verify hdr (some value) a next =
    if not (same_text hdr value) then (a, http_error 401 ∷ [], finished) else next a
