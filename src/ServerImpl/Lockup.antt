-- ===== src/ServerImpl/Lockup.antt =====
-- What the second login of a tracker does to internal/gps/serverimpl/server.go.
use gpstracker_backend.Base.{ℕ, ◌≡◌, refl, true, false, [], Option, none, some}
use gpstracker_backend.Base.Texts.{Text}
use gpstracker_backend.Server.{lookup, assign}
use gpstracker_backend.Server.Devices.{lookup-assign}
use gpstracker_backend.ServerImpl.{
  Row, ServerImpl, accepted, stuck, row_of, new_client_session, registered, login,
  get_clients_status, get_client_status,
}

-- With the list's mutex held a login that finds or inserts its tracker never returns.
registered_stuck :
    (sn_type : Text) (serial c : ℕ) (o : Option Row) (s : ServerImpl)
    → s.list_locked ≡ true
    → s.faults ≡ []
    → (registered sn_type serial c o s).1 ≡ stuck
registered_stuck sn_type serial c (some r) s held calm = rw held refl
registered_stuck sn_type serial c none s held calm = rw (calm, held) refl

login_stuck :
    (sn_type : Text) (serial c : ℕ) (s : ServerImpl)
    → s.list_locked ≡ true
    → s.faults ≡ []
    → (login sn_type serial c s).1 ≡ stuck
unfolding login
login_stuck sn_type serial c s held calm = rw calm (
    registered_stuck sn_type serial c (row_of sn_type serial s.rows) (record s { faults = [] }) held
      refl)

-- The server behind a first login, and behind a second one.
abbrev first : Row → ServerImpl → ServerImpl
first r s = record s {
  faults = [];
  sessions = assign r.id (new_client_session r.id r.fsn) s.sessions;
  list_locked = false;
}

abbrev second : ℕ → Row → ServerImpl → ServerImpl
second c r s = record s {
  faults = [];
  list_locked = true;
  sessions =
      assign r.id (record (new_client_session r.id r.fsn) { client = some c })
        (assign r.id (new_client_session r.id r.fsn) s.sessions);
}

login_opens :
    (sn_type : Text) (serial c : ℕ) (r : Row) (s : ServerImpl)
    → s.faults ≡ []
    → s.list_locked ≡ false
    → row_of sn_type serial s.rows ≡ some r
    → lookup r.id s.sessions ≡ none
    → login sn_type serial c s ≡ (first r s, accepted r.id)
unfolding login
login_opens sn_type serial c r s calm free known new = rw (calm, known, free, new) refl

login_locks :
    (sn_type : Text) (serial c : ℕ) (r : Row) (s : ServerImpl)
    → row_of sn_type serial s.rows ≡ some r
    → login sn_type serial c (first r s) ≡ (second c r s, accepted r.id)
unfolding login
login_locks sn_type serial c r s known =
    rw (known, lookup-assign r.id (new_client_session r.id r.fsn) s.sessions) refl

-- A tracker that is in the table logs in twice, and no statement fails. Both logins succeed, but the
-- second returns with the mutex of the list of sessions held: every later login, of any device, and
-- every question for the status of the clients never returns.
pub login-login :
    (sn_type : Text) (serial c c' : ℕ) (r : Row) (s : ServerImpl) (sn_type' : Text)
    (serial' c'' tid : ℕ)
    → s.faults ≡ []
    → s.list_locked ≡ false
    → row_of sn_type serial s.rows ≡ some r
    → lookup r.id s.sessions ≡ none
    → let (s1, e1) = login sn_type serial c s in
      let (s2, e2) = login sn_type serial c' s1 in
      (e1 ≡ accepted r.id)
      × (e2 ≡ accepted r.id)
      × ((login sn_type' serial' c'' s2).1 ≡ stuck)
      × (get_clients_status s2 ≡ none)
      × (get_client_status tid s2 ≡ none)
unfolding get_clients_status get_client_status
login-login sn_type serial c c' r s sn_type' serial' c'' tid calm free known new =
    rw (login_opens sn_type serial c r s calm free known new) (
      rw (login_locks sn_type serial c' r s known)
        (refl, refl, login_stuck sn_type' serial' c'' (second c' r s) refl refl, refl, refl))
