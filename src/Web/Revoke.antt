-- ===== src/Web/Revoke.antt =====
-- How sessions end: internal/webapp/changepwd.go and internal/webapp/logout.go.
use gpstracker_backend.Base.{
  ℕ, ◌-◌, ◌+◌, ◌≡◌, ◌≢◌, ◌⊎◌, refl, sym, ap, ◌∙◌, Bool, true, false, List, [], ◌∷◌, Option, none,
  some, length, ◌==◌, if◌then◌else◌, inl, inr, Bool-cases, ==_iff, arith,
}
use gpstracker_backend.Base.Texts.{Text, same_text}
use gpstracker_backend.Web.Tables.{
  User, Session, Db, gsess, set_cookie, http_error, status_body, header, finished, panicked,
  rows_of, user_numbered, session_named, with_user, user_of, joined, without_user, without_session,
  with_password, Crypto,
}
use gpstracker_backend.Web.Password.{ChangePwdRequest, able, change_password}
use gpstracker_backend.Web.Sessions.{logout}
use gpstracker_backend.Web.Dispatcher.{
  Function, call_function, in_session, session_check, attributes_of,
}
use gpstracker_backend.Web.Access.{call_function_cookie}

-- What a search finds is the first element, or it is found in the rest.
pub found_if :
    {A : Type 0} (b : Bool) (x y : A) (rest : Option A)
    → (if b then some x else rest) ≡ some y
    → ((b ≡ true) × (x ≡ y)) ⊎ ((b ≡ false) × (rest ≡ some y))
found_if true x y rest e = inl (refl, cc)
found_if false x y rest e = inr (refl, e)

-- A row that is found by its number has that number.
user_numbered_id :
    (id : ℕ) (users : List User) (u : User) → user_numbered id users ≡ some u → u.id ≡ id
user_numbered_id id [] u e = cc
user_numbered_id id (v ∷ us) u e = elim (found_if (v.id == id) v u (user_numbered id us) e) [
  | inl (y, same) ↦ ap (λ w. w.id) (sym same) ∙ (==_iff v.id id).0 y
  | inr (n, later) ↦ user_numbered_id id us u later
]

-- A joined row is that of the session, and its numbers agree.
pub joined_parts :
    (sid : Text) (db : Db) (u : User) (s : Session)
    → joined sid db ≡ some (u, s)
    → (session_named sid db.sessions ≡ some s) × (u.id ≡ s.user_id)
joined_parts sid db u s e = by_session (session_named sid db.sessions) e
  where
    by_user :
        (t : Session) (o : Option User)
        → user_numbered t.user_id db.users ≡ o
        → with_user t o ≡ some (u, s)
        → (some t ≡ some s) × (u.id ≡ s.user_id)
    by_user t none h e = cc
    by_user t (some v) h e = let id_same = user_numbered_id t.user_id db.users v h in (cc, cc)

    by_session :
        (o : Option Session) → user_of o db.users ≡ some (u, s) → (o ≡ some s) × (u.id ≡ s.user_id)
    by_session none e = cc
    by_session (some t) e = by_user t (user_numbered t.user_id db.users) refl e

-- Of the sessions that are left none is the user's.
pub session_named_without :
    (sid : Text) (id : ℕ) (ss : List Session) (s : Session)
    → session_named sid (without_user id ss) ≡ some s
    → (s.user_id == id) ≡ false
session_named_without sid id [] s e = cc
session_named_without sid id (t ∷ ss) s e = elim (Bool-cases (t.user_id == id)) [
  | inl y ↦ session_named_without sid id ss s (rw y at e)
  | inr n ↦
      elim (found_if (same_text t.session_id sid) t s (session_named sid (without_user id ss))
        (rw n at e)) [
          | inl (y, same) ↦ ap (λ w. w.user_id == id) (sym same) ∙ n
          | inr (k, later) ↦ session_named_without sid id ss s later
        ]
]

other_user :
    (sid : Text) (id : ℕ) (ss : List Session) (v : User) (ses : Session)
    → (session_named sid (without_user id ss) ≡ some ses) × (v.id ≡ ses.user_id)
    → v.id ≢ id
other_user sid id ss v ses (named, owner) e =
    let differ = session_named_without sid id ss ses named in
    let agree = (==_iff ses.user_id id).1 (sym owner ∙ e) in cc

module _ (C : Crypto) where
  change_password_calm :
      (now salt : ℕ) (sid : Text) (req : ChangePwdRequest) (db : Db) (u : User)
      → able now (joined sid db) ≡ some u
      → C.compare_hash u.password req.current_password ≡ true
      → db.faults ≡ []
      → change_password C now salt sid req db ≡ (
        record {
          users = with_password u.id (C.crypt_pwd salt req.new_password) db.users;
          sessions = without_user u.id db.sessions;
          faults = [];
        },
        set_cookie gsess [] ∷ status_body true ∷ [],
        finished,
      )
  unfolding change_password
  change_password_calm now salt sid req db u can fits calm = rw (calm, can, fits) refl

module _ (C : Crypto) {S : Type 0} where
  -- After a change of the password that is answered with success, a call leaves the functions'
  -- state alone unless its cookie is that of another user's session: every session of the user who
  -- changed the password is over, also those of other browsers.
  pub change_password-call_function :
      (now salt : ℕ) (sid : Text) (req : ChangePwdRequest) (db : Db) (u : User)
      (fs : List (Text × Function S)) (sid' name : Text) (t : ℕ) (arg : Text) (s : S)
      → able now (joined sid db) ≡ some u
      → C.compare_hash u.password req.current_password ≡ true
      → db.faults ≡ []
      → let (db', outs, e) = change_password C now salt sid req db in
        (e ≡ finished)
        × (((call_function fs (some sid') name t arg (db', s)).0.1 ≡ s)
            ⊎ ((v : User) × (ses : Session) × (joined sid' db' ≡ some (v, ses)) × (v.id ≢ u.id)))
  change_password-call_function now salt sid req db u fs sid' name t arg s can fits calm =
      let after : Db = record {
        users = with_password u.id (C.crypt_pwd salt req.new_password) db.users;
        sessions = without_user u.id db.sessions;
        faults = [];
      } in
      rw (change_password_calm C now salt sid req db u can fits calm) (
        refl,
        elim (call_function_cookie fs sid' name t arg after s) [
          | inl same ↦ inl same
          | inr (v, ses, f, there, change, valid, found, role, good) ↦ inr (
            v,
            ses,
            there,
            other_user sid' u.id db.sessions v ses (joined_parts sid' after v ses there),
          )
        ],
      )

-- A session that was deleted is not found.
session_named_deleted :
    (sid : Text) (ss : List Session) → session_named sid (without_session sid ss) ≡ none
session_named_deleted sid [] = refl
session_named_deleted sid (t ∷ ss) = elim (Bool-cases (same_text t.session_id sid)) [
  | inl y ↦ rw y (session_named_deleted sid ss)
  | inr n ↦ rw (n, n) (session_named_deleted sid ss)
]

without_session_twice :
    (sid : Text) (ss : List Session)
    → without_session sid (without_session sid ss) ≡ without_session sid ss
without_session_twice sid [] = refl
without_session_twice sid (t ∷ ss) = elim (Bool-cases (same_text t.session_id sid)) [
  | inl y ↦ rw y (without_session_twice sid ss)
  | inr n ↦ rw (n, n) (ap (λ r. t ∷ r) (without_session_twice sid ss))
]

module _ {S : Type 0} where
  -- A session that stands once is ended by `Logout`, when no statement fails: a call with its cookie
  -- is answered with an error and touches nothing, and a second `Logout` with the same cookie
  -- panics.
  pub logout-logout :
      (sid : Text) (db : Db) (fs : List (Text × Function S)) (name : Text) (t : ℕ) (arg : Text)
      (s : S)
      → length db.sessions ≡ length (without_session sid db.sessions) + 1
      → db.faults ≡ []
      → let (db', outs, e) = logout (some sid) db in
        (e ≡ finished)
        × (outs ≡ header 200 ∷ set_cookie gsess [] ∷ [])
        × (call_function fs (some sid) name t arg (db', s)
            ≡ ((db', s), http_error 401 ∷ [], finished))
        × ((logout (some sid) db').2 ≡ panicked)
  unfolding logout call_function session_check
  logout-logout sid db fs name t arg s once calm =
      let rest = without_session sid db.sessions in
      let after : Db = record { users = db.users; sessions = rest; faults = [] } in
      let one : (length db.sessions - length rest == 1) ≡ true = ground arith in
      let zero_left : (length rest - length (without_session sid rest) == 1) ≡ false =
        rw (without_session_twice sid db.sessions) (ground arith) in
      rw (calm, one)
        (
          refl,
          refl,
          ap
              (λ o.
                let out =
                  in_session fs name t (attributes_of sid (rows_of (user_of o db.users))) arg s in
                ((after, out.0), out.1, out.2))
              (session_named_deleted sid db.sessions),
          rw zero_left refl,
        )
