-- ===== src/Web/Suspend.antt =====
-- What it means that a user is suspended by internal/webapp/usermgmt/user.go.
use gpstracker_backend.Base.{
  ℕ, ◌≡◌, refl, ap, ◌∙◌, Bool, true, List, [], ◌∷◌, Option, none, some, ◌==◌, inl, inr, Bool-cases,
  ==_iff,
}
use gpstracker_backend.Base.Go.{ok}
use gpstracker_backend.Base.Texts.{Text, same_text}
use gpstracker_backend.Web.Tables.{
  User, Session, Db, row, rows_of, user_named, user_numbered, session_named, with_user, user_of,
  Crypto,
}
use gpstracker_backend.Web.Login.{Chance, refused, login, found_user}
use gpstracker_backend.Web.Dispatcher.{
  Function, attributes, call_function, in_session, session_check, attributes_of,
}
use gpstracker_backend.Web.Users.{SetSuspendFlagRequest, suspended, with_suspend, set_suspend_flag}

abbrev flagged : ℕ → Bool → Option User → Option User
flagged id flag none = none
flagged id flag (some u) = some (suspended id flag u)

-- What the flag leaves alone.
suspended_rest :
    (id : ℕ) (flag : Bool) (u : User)
    → ((suspended id flag u).id ≡ u.id) × ((suspended id flag u).username ≡ u.username)
suspended_rest id flag u = elim (Bool-cases (u.id == id)) [
  | inl y ↦ rw y (refl, refl)
  | inr n ↦ rw n (refl, refl)
]

attributes-suspended :
    (sid : Text) (id : ℕ) (flag : Bool) (u : User) (s : Session)
    → attributes sid (suspended id flag u, s) ≡ attributes sid (u, s)
attributes-suspended sid id flag u s = elim (Bool-cases (u.id == id)) [
  | inl y ↦ rw y refl
  | inr n ↦ rw n refl
]

user_numbered-flagged :
    (k id : ℕ) (flag : Bool) (us : List User)
    → user_numbered k (with_suspend id flag us) ≡ flagged id flag (user_numbered k us)
user_numbered-flagged k id flag [] = refl
user_numbered-flagged k id flag (u ∷ us) =
    let (same, _) = suspended_rest id flag u in
    elim (Bool-cases (u.id == k)) [
      | inl y ↦ rw (ap (λ n. n == k) same ∙ y, y) refl
      | inr n ↦ rw (ap (λ m. m == k) same ∙ n, n) (user_numbered-flagged k id flag us)
    ]

user_named-flagged :
    (name : Text) (id : ℕ) (flag : Bool) (us : List User)
    → user_named name (with_suspend id flag us) ≡ flagged id flag (user_named name us)
user_named-flagged name id flag [] = refl
user_named-flagged name id flag (u ∷ us) =
    let (_, same) = suspended_rest id flag u in
    elim (Bool-cases (same_text u.username name)) [
      | inl y ↦ rw (ap (λ t. same_text t name) same ∙ y, y) refl
      | inr n ↦ rw (ap (λ t. same_text t name) same ∙ n, n) (user_named-flagged name id flag us)
    ]

-- A session has the attributes that it had.
attributes_kept :
    (sid : Text) (id : ℕ) (flag : Bool) (o : Option Session) (us : List User)
    → attributes_of sid (rows_of (user_of o (with_suspend id flag us)))
      ≡ attributes_of sid (rows_of (user_of o us))
attributes_kept sid id flag none us = refl
attributes_kept sid id flag (some s) us =
    ap (λ o. attributes_of sid (rows_of (with_user s o)))
      (user_numbered-flagged s.user_id id flag us)
    ∙ by_user (user_numbered s.user_id us)
  where
    by_user :
        (o : Option User)
        → attributes_of sid (rows_of (with_user s (flagged id flag o)))
          ≡ attributes_of sid (rows_of (with_user s o))
    by_user none = refl
    by_user (some u) = ap (λ a. row a) (attributes-suspended sid id flag u s)

module _ (C : Crypto) {S : Type 0} where
  -- When no statement fails, the suspension of a user refuses every later login under his name,
  -- whatever the password, and every call with a cookie is answered as before: his sessions go on.
  pub login-set_suspend_flag :
      (req : SetSuspendFlagRequest) (db : Db) (u : User) (x : Chance) (name pwd : Text)
      (fs : List (Text × Function S)) (sid fname : Text) (now : ℕ) (arg : Text) (s : S)
      → db.faults ≡ []
      → req.suspend ≡ true
      → user_named name db.users ≡ some u
      → u.id ≡ req.user_id
      → let db' = (set_suspend_flag req db).0 in
        let (w, outs, e) = call_function fs (some sid) fname now arg (db, s) in
        (login C x name pwd db' ≡ (db', ok (refused, [])))
        × (call_function fs (some sid) fname now arg (db', s) ≡ ((db', w.1), outs, e))
  unfolding set_suspend_flag login found_user call_function session_check
  login-set_suspend_flag req db u x name pwd fs sid fname now arg s calm on named id =
      let after : Db = record {
        users = with_suspend req.user_id req.suspend db.users;
        sessions = db.sessions;
        faults = [];
      } in
      let y = (==_iff u.id req.user_id).1 id in
      rw calm (
        rw (user_named-flagged name req.user_id req.suspend db.users, named, y, on) refl,
        ap (λ r. let out = in_session fs fname now r arg s in ((after, out.0), out.1, out.2))
            (attributes_kept sid req.user_id req.suspend (session_named sid db.sessions) db.users),
      )
