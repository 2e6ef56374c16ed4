-- ===== src/Webstream/Admission.antt =====
-- From the token that internal/webapp/tracker/tracker.go creates for a session to the browser that
-- internal/webapp/tracker/webstream/webstream.go lets in.
use gpstracker_backend.Base.{
  ℕ, ◌-◌, ◌≡◌, refl, Bool, true, false, ◌||◌, List, [], ◌∷◌, Option, none, some, length, ◌==◌,
  if◌then◌else◌, inl, inr, Bool-cases,
}
use gpstracker_backend.Base.Go.{ok}
use gpstracker_backend.Base.Texts.{Text, same_text, same_text_eq, same_text_refl}
use gpstracker_backend.Web.Tables.{
  Session, Db, gsess, Out, End, set_cookie, header, finished, panicked, without_session,
}
use gpstracker_backend.Web.Sessions.{logout}
use gpstracker_backend.Web.Tracker.{token_of, with_token, get_ws_token, create_ws_token}
use gpstracker_backend.Webstream.Door.{
  has_valid, valid_row, validate_token, entered, turned_away, serve_http,
}

-- Whether a token stands in the table.
abbrev pub holds : Text → List (Text × Text) → Bool
holds token [] = false
holds token ((s, t) ∷ ts) = same_text t token || holds token ts

valid_row-holds :
    (token : Text) (now : ℕ) (ss : List Session) (ts : List (Text × Text))
    → holds token ts ≡ false
    → valid_row token now ss ts ≡ none
valid_row-holds token now ss [] h = refl
valid_row-holds token now ss ((s, t) ∷ ts) h = elim (Bool-cases (same_text t token)) [
  | inl y ↦ cc (rw y at h)
  | inr n ↦ rw n (valid_row-holds token now ss ts (rw n at h))
]

abbrev session_if : Text → Bool → Option Text
session_if sid b = if b then some sid else none

-- A new token is found when its session is valid.
valid_row-with_token :
    (sid token : Text) (now : ℕ) (ss : List Session) (ts : List (Text × Text))
    → holds token ts ≡ false
    → valid_row token now ss (with_token sid token ts) ≡ session_if sid (has_valid sid now ss)
valid_row-with_token sid token now ss [] h = rw (same_text_refl token) refl
valid_row-with_token sid token now ss ((s, t) ∷ ts) h = elim (Bool-cases (same_text t token)) [
  | inl y ↦ cc (rw y at h)
  | inr n ↦ elim (Bool-cases (same_text s sid)) [
    | inl y ↦
        rw
          (
            y,
            same_text_refl token,
            valid_row-holds token now ss ts (rw n at h),
            same_text_eq s sid y,
          )
          refl
    | inr k ↦ rw (k, n) (valid_row-with_token sid token now ss ts (rw n at h))
  ]
]

token_of-with_token :
    (sid token : Text) (ts : List (Text × Text))
    → token_of sid (with_token sid token ts) ≡ some token
token_of-with_token sid token [] = rw (same_text_refl sid) refl
token_of-with_token sid token ((s, t) ∷ ts) = elim (Bool-cases (same_text s sid)) [
  | inl y ↦ rw (y, y) refl
  | inr n ↦ rw (n, n) (token_of-with_token sid token ts)
]

has_valid-without_session :
    (sid : Text) (now : ℕ) (ss : List Session) → has_valid sid now (without_session sid ss) ≡ false
has_valid-without_session sid now [] = refl
has_valid-without_session sid now (s ∷ ss) = elim (Bool-cases (same_text s.session_id sid)) [
  | inl y ↦ rw y (has_valid-without_session sid now ss)
  | inr n ↦ rw (n, n) (has_valid-without_session sid now ss)
]

logout_tables :
    (sid : Text) (db : Db)
    → db.faults ≡ []
    → (logout (some sid) db).0
      ≡ record db { faults = []; sessions = without_session sid db.sessions }
unfolding logout
logout_tables sid db calm =
    rw calm (by_count (length db.sessions - length (without_session sid db.sessions) == 1))
  where
    after : Db
    after = record db { faults = []; sessions = without_session sid db.sessions }

    by_count :
        (b : Bool)
        → let out : Db × List Out × End =
            if b
            then (after, header 200 ∷ set_cookie gsess [] ∷ [], finished)
            else (after, set_cookie gsess [] ∷ [], panicked) in
          out.0 ≡ after
    by_count true = refl
    by_count false = refl

-- A session that is valid creates a token that stands nowhere else, and no statement fails. A
-- browser that sends the token is let in for the session, and `GetWsToken` gives the token again;
-- after a `Logout` of the session a browser with this token is turned away.
pub serve_http-create_ws_token :
    (sid token : Text) (tokens : List (Text × Text)) (now later : ℕ) (db : Db)
    → db.faults ≡ []
    → holds token tokens ≡ false
    → has_valid sid now db.sessions ≡ true
    → let (tokens', r) = create_ws_token false sid token tokens in
      (r ≡ ok token)
      × (get_ws_token false sid tokens' ≡ ok token)
      × ((serve_http true (ok token) now tokens' db).1 ≡ entered sid)
      × ((serve_http true (ok token) later tokens' (logout (some sid) db).0).1 ≡ turned_away)
unfolding create_ws_token get_ws_token serve_http validate_token
serve_http-create_ws_token sid token tokens now later db calm fresh valid = (
  refl,
  rw (token_of-with_token sid token tokens) refl,
  rw (calm, valid_row-with_token sid token now db.sessions tokens fresh, valid) refl,
  rw
      (
        logout_tables sid db calm,
        valid_row-with_token sid token later (without_session sid db.sessions) tokens fresh,
        has_valid-without_session sid later db.sessions,
      )
      refl,
)
