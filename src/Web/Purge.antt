-- ===== src/Web/Purge.antt =====
-- What it means that the sessions of a user are purged by internal/webapp/usermgmt/user.go.
use gpstracker_backend.Base.{
  ℕ, ◌<◌, ◌≤◌, ◌≡◌, ◌≢◌, ◌⊎◌, refl, sym, ap, ◌∙◌, true, false, ◌&&◌, List, [], ◌∷◌, some, ltb, ◌==◌,
  inl, inr, Bool-cases, ==_iff, arith,
}
use gpstracker_backend.Base.Texts.{Text, same_text}
use gpstracker_backend.Web.Tables.{User, Session, Db, session_named, joined}
use gpstracker_backend.Web.Dispatcher.{Function, call_function}
use gpstracker_backend.Web.Access.{call_function_cookie}
use gpstracker_backend.Web.Revoke.{found_if, joined_parts, session_named_without}
use gpstracker_backend.Web.Users.{PurgeSessionRequest, without_valid, purged, purge_session}

-- A session that is left is another user's, or over.
Left : ℕ → ℕ → Session → Type 0
Left id now s = (s.user_id == id && ltb now s.valid_until) ≡ false

session_named_valid :
    (sid : Text) (id now : ℕ) (ss : List Session) (s : Session)
    → session_named sid (without_valid id now ss) ≡ some s
    → Left id now s
unfolding Left
session_named_valid sid id now [] s e = cc
session_named_valid sid id now (t ∷ ss) s e =
    elim (Bool-cases (t.user_id == id && ltb now t.valid_until)) [
      | inl y ↦ session_named_valid sid id now ss s (rw y at e)
      | inr n ↦
          elim (found_if (same_text t.session_id sid) t s
            (session_named sid (without_valid id now ss)) (rw n at e)) [
              | inl (y, same) ↦ ap (λ w. w.user_id == id && ltb now w.valid_until) (sym same) ∙ n
              | inr (k, later) ↦ session_named_valid sid id now ss s later
            ]
    ]

session_named-Left :
    (req : PurgeSessionRequest) (sid : Text) (now : ℕ) (ss : List Session) (s : Session)
    → session_named sid (purged req now ss) ≡ some s
    → Left req.user_id now s
unfolding Left
session_named-Left req sid now ss s e = elim (Bool-cases req.all) [
  | inl y ↦ rw (session_named_without sid req.user_id ss s (rw y at e)) refl
  | inr n ↦ session_named_valid sid req.user_id now ss s (rw n at e)
]

Left-other :
    (id now t : ℕ) (s : Session) → Left id now s → now < t → t ≤ s.valid_until → s.user_id ≢ id
unfolding Left
Left-other id now t s left later valid same =
    let y = (==_iff s.user_id id).1 same in
    let open_still : ltb now s.valid_until ≡ true = ground arith in
    absurd (false_true (sym (rw (y, open_still) at left)))
  where
    false_true : false ≡ true → ⊥
    false_true e = cc

module _ {S : Type 0} where
  -- When no statement fails, `PurgeSession` ends every session of the user, whether it deletes all of
  -- them or those that are valid: a later call leaves the functions' state alone unless its cookie
  -- is that of another user's session.
  pub purge_session-call_function :
      (req : PurgeSessionRequest) (now : ℕ) (db : Db) (fs : List (Text × Function S))
      (sid name : Text) (t : ℕ) (arg : Text) (s : S)
      → db.faults ≡ []
      → now < t
      → let (db', n) = purge_session req now db in
        ((call_function fs (some sid) name t arg (db', s)).0.1 ≡ s)
        ⊎ ((v : User) × (ses : Session) × (joined sid db' ≡ some (v, ses)) × (v.id ≢ req.user_id))
  unfolding purge_session
  purge_session-call_function req now db fs sid name t arg s calm later =
      let after : Db = record {
        users = db.users;
        sessions = purged req now db.sessions;
        faults = [];
      } in
      rw calm (elim (call_function_cookie fs sid name t arg after s) [
        | inl same ↦ inl same
        | inr (v, ses, f, there, change, valid, found, role, good) ↦
            let (named, owner) = joined_parts sid after v ses there in
            let left = session_named-Left req sid now db.sessions ses named in
            inr (
              v,
              ses,
              there,
              λ same. Left-other req.user_id now t ses left later valid (sym owner ∙ same),
            )
      ])
