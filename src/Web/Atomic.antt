-- ===== src/Web/Atomic.antt =====
-- internal/webapp/changepwd.go does everything or nothing.
use gpstracker_backend.Base.{
  ℕ, ◌≡◌, ◌⊎◌, refl, ap, Bool, true, false, List, [], ◌∷◌, Option, none, some, if◌then◌else◌, inl,
  inr, Bool-cases,
}
use gpstracker_backend.Base.Texts.{Text}
use gpstracker_backend.Web.Tables.{
  User, Db, gsess, Out, set_cookie, status_body, End, finished, next_fault, ask, rows_of, joined,
  without_user, with_password, Crypto,
}
use gpstracker_backend.Web.Password.{
  ChangePwdRequest, able, exec, invalidate, set_password, committed, sessions_gone, password_set,
  for_user, change_password,
}

-- The tables are the ones before.
abbrev pub IsUnchanged : Db → Db → Type 0
IsUnchanged db db' = (db'.users ≡ db.users) × (db'.sessions ≡ db.sessions)

abbrev tried : (Db → Db) → Db → Bool × List Bool → Db × Bool
tried change db (f, fs) =
    if f then (record db { faults = fs }, true) else (change (record db { faults = fs }), false)

-- A statement fails, or it makes its change.
exec-cases :
    (change : Db → Db) (db : Db)
    → (fs : List Bool) × ((exec change db ≡ (record db { faults = fs }, true))
        ⊎ (exec change db ≡ (change (record db { faults = fs }), false)))
exec-cases change db = ((next_fault db.faults).1, by_fault (next_fault db.faults))
  where
    by_fault :
        (f : Bool × List Bool)
        → (tried change db f ≡ (record db { faults = f.1 }, true))
          ⊎ (tried change db f ≡ (change (record db { faults = f.1 }), false))
    by_fault (true, fs) = inl refl
    by_fault (false, fs) = inr refl

module _ (C : Crypto) where
  -- The tables have the new password of the user of `sid`, whose sessions are gone.
  abbrev pub IsChanged : ℕ → ℕ → Text → ChangePwdRequest → Db → Db → Type 0
  IsChanged now salt sid req db db' =
      (u : User) × (able now (joined sid db) ≡ some u)
      × (C.compare_hash u.password req.current_password ≡ true)
      × (db'.users ≡ with_password u.id (C.crypt_pwd salt req.new_password) db.users)
      × (db'.sessions ≡ without_user u.id db.sessions)

  abbrev Atomic : ℕ → ℕ → Text → ChangePwdRequest → Db → Db × List Out × End → Type 0
  Atomic now salt sid req db out =
      IsUnchanged db out.0
      ⊎ (IsChanged now salt sid req db out.0
          × (out.2 ≡ finished)
          × (out.1 ≡ set_cookie gsess [] ∷ status_body true ∷ []))

  commit-Atomic :
      (now salt : ℕ) (sid : Text) (req : ChangePwdRequest) (db tx : Db)
      → IsChanged now salt sid req db tx
      → Atomic now salt sid req db (committed db (exec (λ d. d) tx))
  commit-Atomic now salt sid req db tx (u, can, fits, hu, hs) =
      let (fs, out) = exec-cases (λ d. d) tx in
      elim out [
        | inl e ↦ rw e (inl (refl, refl))
        | inr e ↦ rw e (inr ((u, can, fits, hu, hs), refl, refl))
      ]

  gone-Atomic :
      (now salt : ℕ) (sid : Text) (req : ChangePwdRequest) (db tx : Db) (u : User)
      → able now (joined sid db) ≡ some u
      → C.compare_hash u.password req.current_password ≡ true
      → tx.users ≡ with_password u.id (C.crypt_pwd salt req.new_password) db.users
      → tx.sessions ≡ db.sessions
      → Atomic now salt sid req db (sessions_gone db (exec (invalidate u.id) tx))
  gone-Atomic now salt sid req db tx u can fits hu hs =
      let (fs, out) = exec-cases (invalidate u.id) tx in
      elim out [
        | inl e ↦ rw e (inl (refl, refl))
        | inr e ↦ rw e (
            commit-Atomic now salt sid req db (invalidate u.id (record tx { faults = fs }))
              (u, can, fits, hu, ap (without_user u.id) hs))
      ]

  set-Atomic :
      (now salt : ℕ) (sid : Text) (req : ChangePwdRequest) (db : Db) (fs : List Bool) (u : User)
      → able now (joined sid db) ≡ some u
      → C.compare_hash u.password req.current_password ≡ true
      → let p = C.crypt_pwd salt req.new_password in
        Atomic now salt sid req db
          (password_set db u.id (exec (set_password u.id p) (record db { faults = fs })))
  set-Atomic now salt sid req db fs u can fits =
      let p = C.crypt_pwd salt req.new_password in
      let (gs, out) = exec-cases (set_password u.id p) (record db { faults = fs }) in
      elim out [
        | inl e ↦ rw e (inl (refl, refl))
        | inr e ↦ rw e (
            gone-Atomic now salt sid req db (set_password u.id p (record db { faults = gs })) u can
              fits refl refl)
      ]

  found-Atomic :
      (now salt : ℕ) (sid : Text) (req : ChangePwdRequest) (db : Db) (fs : List Bool)
      (o : Option User)
      → able now (joined sid db) ≡ o
      → Atomic now salt sid req db (for_user C salt req db (record db { faults = fs }, rows_of o))
  found-Atomic now salt sid req db fs none can = inl (refl, refl)
  found-Atomic now salt sid req db fs (some u) can =
      elim (Bool-cases (C.compare_hash u.password req.current_password)) [
        | inl fits ↦ rw fits (set-Atomic now salt sid req db fs u can fits)
        | inr bad ↦ rw bad (inl (refl, refl))
      ]

  asked-Atomic :
      (now salt : ℕ) (sid : Text) (req : ChangePwdRequest) (db : Db) (fs : List Bool)
      (f : Bool × List Bool)
      → Atomic now salt sid req db (
          for_user C salt req db
            (ask f (record db { faults = fs }) (λ d. rows_of (able now (joined sid d)))))
  asked-Atomic now salt sid req db fs (true, gs) = inl (refl, refl)
  asked-Atomic now salt sid req db fs (false, gs) =
      found-Atomic now salt sid req db gs (able now (joined sid db)) refl

  -- Whichever statements fail, `change_password` leaves the users and the sessions as they were, or
  -- it has done all of it: the session's user may act and gave the current password, has the new
  -- one and no longer has a session, and the answer says so.
  pub change_password-IsChanged :
      (now salt : ℕ) (sid : Text) (req : ChangePwdRequest) (db : Db)
      → let out = change_password C now salt sid req db in
        IsUnchanged db out.0
        ⊎ (IsChanged now salt sid req db out.0
            × (out.2 ≡ finished)
            × (out.1 ≡ set_cookie gsess [] ∷ status_body true ∷ []))
  unfolding change_password
  change_password-IsChanged now salt sid req db =
      let (fs, out) = exec-cases (λ d. d) db in
      elim out [
        | inl e ↦ rw e (inl (refl, refl))
        | inr e ↦ rw e (asked-Atomic now salt sid req db fs (next_fault fs))
      ]
