-- ===== src/Webstream/Door.antt =====
-- How internal/webapp/tracker/webstream/webstream.go lets a browser in: `serve_http` reads a token,
-- which `validate_token` looks up.
use gpstracker_backend.Base.{
  ℕ, Bool, false, List, [], ◌∷◌, Option, none, some, ltb, ◌&&◌, ◌||◌, if◌then◌else◌,
}
use gpstracker_backend.Base.Go.{Result, ok, err, panic}
use gpstracker_backend.Base.Texts.{Text, same_text}
use gpstracker_backend.Web.Tables.{Session, Db, Rows, row, no_row, failed, next_fault, ask, rows_of}

-- Whether there is a session of this name that is valid after `now`.
abbrev pub has_valid : Text → ℕ → List Session → Bool
has_valid sid now [] = false
has_valid sid now (s ∷ ss) =
    (same_text s.session_id sid && ltb now s.valid_until) || has_valid sid now ss

-- The first row of the join of tokens and sessions that the SELECT gives.
abbrev pub valid_row : Text → ℕ → List Session → List (Text × Text) → Option Text
valid_row token now ss [] = none
valid_row token now ss ((sid, t) ∷ ts) =
    let rest = valid_row token now ss ts in
    if same_text t token then (if has_valid sid now ss then some sid else rest) else rest

-- `validate_token`; it panics when the statement fails.
unfoldable pub validate_token : Text → ℕ → List (Text × Text) → Db → Db × Rows Text
validate_token token now tokens db =
    ask (next_fault db.faults) db (λ d. rows_of (valid_row token now d.sessions tokens))

-- What becomes of a connection: its upgrade or the read of its token fails, it is closed, the
-- handler panics, or it has the loops for the session.
pub data Entrance : Type 0 where
  not_upgraded no_token turned_away handler_panicked : Entrance
  entered : Text → Entrance

abbrev admitted : Db × Rows Text → Db × Entrance
admitted (db, row sid) = (db, entered sid)
admitted (db, no_row) = (db, turned_away)
admitted (db, failed) = (db, handler_panicked)

abbrev with_message : ℕ → List (Text × Text) → Db → Result Text → Db × Entrance
with_message now tokens db (ok token) = admitted (validate_token token now tokens db)
with_message now tokens db (err e) = (db, no_token)
with_message now tokens db panic = (db, no_token)

-- `serve_http`, up to the start of its loops; `upgraded` says whether `Accept` succeeds.
unfoldable pub serve_http : Bool → Result Text → ℕ → List (Text × Text) → Db → Db × Entrance
unfolding validate_token
serve_http upgraded msg now tokens db =
    if upgraded then with_message now tokens db msg else (db, not_upgraded)
