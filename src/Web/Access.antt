-- ===== src/Web/Access.antt =====
-- Who reaches a function of internal/webapp/dispatcher.go.
use gpstracker_backend.Base.{
  ℕ, ◌≡◌, ◌≤◌, ◌⊎◌, refl, ap, ◌∙◌, Bool, true, false, not, ◌||◌, List, [], ◌∷◌, Option, none, some,
  ltb, if◌then◌else◌, inl, inr, Bool-cases, ltb→le, le→ltb,
}
use gpstracker_backend.Base.Go.{ok}
use gpstracker_backend.Base.Texts.{Text, same_text, same_text_eq, same_text_refl}
use gpstracker_backend.Web.Tables.{
  User, Session, Db, row, gsess, gsurf, LoginResponse, Out, set_cookie, http_error, login_body, End,
  finished, next_fault, ask, rows_of, user_named, user_numbered, session_named, user_of, with_user,
  joined, add_seconds, Crypto,
}
use gpstracker_backend.Web.Login.{
  LoginRequest, Chance, is_empty, login, login_handler, found_user, inserted, session_id_for,
  csrf_token_for,
}
use gpstracker_backend.Web.Dispatcher.{
  has_role, tracker_monitor, Attributes, attributes, Function, function_named, decoded, call, found,
  in_session, session_check, call_function, attributes_of, checked_session,
}

-- A role may call a function of its own role, or one of monitoring.
abbrev pub IsAllowed : Text → Text → Type 0
IsAllowed role target = (target ≡ role) ⊎ (target ≡ tracker_monitor)

has_role-IsAllowed : (role target : Text) → has_role role target ≡ true → IsAllowed role target
unfolding has_role
has_role-IsAllowed role target h = elim (Bool-cases (same_text target role)) [
  | inl y ↦ inl (same_text_eq target role y)
  | inr n ↦ elim (Bool-cases (same_text target tracker_monitor)) [
    | inl y ↦ inr (same_text_eq target tracker_monitor y)
    | inr k ↦ absurd (ne (rw (n, k) at h))
  ]
]
  where
    ne : false ≡ true → ⊥
    ne e = cc

has_role_allowed : (role target : Text) → IsAllowed role target → has_role role target ≡ true
unfolding has_role
has_role_allowed role target (inl e) = rw (e, same_text_refl role) refl
has_role_allowed role target (inr e) = rw e (elim (Bool-cases (same_text tracker_monitor role)) [
  | inl y ↦ rw y refl
  | inr n ↦ rw (n, same_text_refl tracker_monitor) refl
])

module _ {S : Type 0} where
  -- The session `sid` has a user who need not change the password, it is valid at `now`, and the
  -- function exists, is allowed to the user's role and accepts the request.
  abbrev pub IsGranted : List (Text × Function S) → Text → Text → ℕ → Text → Db → Type 0
  IsGranted fs sid name now req db =
      (u : User) × (s : Session) × (f : Function S) × (joined sid db ≡ some (u, s))
      × (u.require_change_pwd ≡ false)
      × (now ≤ s.valid_until)
      × (function_named name fs ≡ some f)
      × IsAllowed u.role f.role
      × (decoded f.request_ok req ≡ true)

  Reaches : List (Text × Function S) → Text → ℕ → Text → Attributes → Type 0
  Reaches fs name now req a =
      (f : Function S) × (a.require_change_password ≡ false)
      × (now ≤ a.valid_until)
      × (function_named name fs ≡ some f)
      × IsAllowed a.roles f.role
      × (decoded f.request_ok req ≡ true)

  abbrev IsUntouched : S × List Out × End → S → Type 0
  IsUntouched out s = out.0 ≡ s

  call_same :
      (f : Function S) (a : Attributes) (req : Text) (s : S)
      → ((call f a req s).0 ≡ s) ⊎ (decoded f.request_ok req ≡ true)
  unfolding call
  call_same f a req s = elim (Bool-cases (decoded f.request_ok req)) [
    | inl y ↦ inr y
    | inr n ↦ inl (rw n refl)
  ]

  found-Reaches :
      (o : Option (Function S)) (a : Attributes) (req : Text) (s : S)
      → ((found o a req s).0 ≡ s)
        ⊎ ((f : Function S) × (o ≡ some f)
            × IsAllowed a.roles f.role
            × (decoded f.request_ok req ≡ true))
  found-Reaches none a req s = inl refl
  found-Reaches (some f) a req s = elim (Bool-cases (has_role a.roles f.role)) [
    | inr n ↦ inl (rw n refl)
    | inl y ↦ rw y (elim (call_same f a req s) [
      | inl same ↦ inl same
      | inr good ↦ inr (f, refl, has_role-IsAllowed a.roles f.role y, good)
    ])
  ]

  gate-Reaches :
      (fs : List (Text × Function S)) (name : Text) (now : ℕ) (a : Attributes) (req : Text) (s : S)
      (b c : Bool)
      → a.require_change_password ≡ b
      → ltb a.valid_until now ≡ c
      → IsUntouched
          (if b || c
            then (s, http_error 401 ∷ [], finished)
            else found (function_named name fs) a req s)
          s
        ⊎ Reaches fs name now req a
  unfolding Reaches
  gate-Reaches fs name now a req s true c change valid = inl refl
  gate-Reaches fs name now a req s false true change valid = inl refl
  gate-Reaches fs name now a req s false false change valid =
      elim (found-Reaches (function_named name fs) a req s) [
        | inl same ↦ inl same
        | inr (f, e, role, good) ↦ inr (f, change, ltb→le a.valid_until now valid, e, role, good)
      ]

  asked-IsGranted :
      (fs : List (Text × Function S)) (sid name : Text) (now : ℕ) (req : Text) (db : Db) (s : S)
      (o : Option (User × Session))
      → joined sid db ≡ o
      → ((in_session fs name now (attributes_of sid (rows_of o)) req s).0 ≡ s)
        ⊎ IsGranted fs sid name now req db
  unfolding Reaches
  asked-IsGranted fs sid name now req db s none e = inl refl
  asked-IsGranted fs sid name now req db s (some (u, ses)) e =
      elim (gate-Reaches fs name now (attributes sid (u, ses)) req s u.require_change_pwd
        (ltb ses.valid_until now) refl refl) [
          | inl same ↦ inl same
          | inr (f, change, valid, named, role, good) ↦
              inr (u, ses, f, e, change, valid, named, role, good)
        ]

  pub call_function_cookie :
      (fs : List (Text × Function S)) (sid name : Text) (now : ℕ) (req : Text) (db : Db) (s : S)
      → ((call_function fs (some sid) name now req (db, s)).0.1 ≡ s)
        ⊎ IsGranted fs sid name now req db
  unfolding call_function session_check
  call_function_cookie fs sid name now req db s = by_fault (next_fault db.faults)
    where
      by_fault :
          (f : Bool × List Bool)
          → (IsUntouched
              (in_session fs name now
                (checked_session sid (ask f db (λ d. rows_of (joined sid d)))).1
                req
                s)
              s)
            ⊎ IsGranted fs sid name now req db
      by_fault (true, rest) = inl refl
      by_fault (false, rest) = asked-IsGranted fs sid name now req db s (joined sid db) refl

  -- Whatever a request holds, with a cookie or without one, either the state that the functions work
  -- on is left alone, or there is a cookie, it names a valid session whose user need not change the
  -- password, and the function exists, is allowed to that user's role and accepts the request's
  -- body.
  pub call_function-IsGranted :
      (fs : List (Text × Function S)) (cookie : Option Text) (name : Text) (now : ℕ) (req : Text)
      (db : Db) (s : S)
      → ((call_function fs cookie name now req (db, s)).0.1 ≡ s)
        ⊎ ((sid : Text) × (cookie ≡ some sid) × IsGranted fs sid name now req db)
  unfolding call_function
  call_function-IsGranted fs none name now req db s = inl refl
  call_function-IsGranted fs (some sid) name now req db s =
      elim (call_function_cookie fs sid name now req db s) [
        | inl same ↦ inl same
        | inr granted ↦ inr (sid, refl, granted)
      ]

  pub granted-call :
      (fs : List (Text × Function S)) (name : Text) (now : ℕ) (a : Attributes) (req : Text) (s : S)
      (f : Function S)
      → a.require_change_password ≡ false
      → now ≤ a.valid_until
      → function_named name fs ≡ some f
      → IsAllowed a.roles f.role
      → in_session fs name now (row a) req s ≡ call f a req s
  granted-call fs name now a req s f change valid named role =
      ap
        (λ b. if b || ltb a.valid_until now then denied else found (function_named name fs) a req s)
        change
      ∙ ap (λ b. if b then denied else found (function_named name fs) a req s)
          (le→ltb a.valid_until now valid)
      ∙ ap (λ o. found o a req s) named
      ∙ ap (λ b. if not b then denied else call f a req s) (has_role_allowed a.roles f.role role)
    where
      denied : S × List Out × End
      denied = (s, http_error 401 ∷ [], finished)

-- A user that logs in: the name and the number find the user, who is not suspended, and whose
-- password fits.
abbrev pub CanLogIn : Crypto → LoginRequest → User → Db → Type 0
CanLogIn C req u db =
    (user_named req.username db.users ≡ some u)
    × (user_numbered u.id db.users ≡ some u)
    × (u.suspend_login ≡ false)
    × (C.compare_hash u.password req.password ≡ true)
    × (is_empty req.username ≡ false)
    × (is_empty req.password ≡ false)
    × (db.faults ≡ [])

module _ (C : Crypto) where
  -- The new session.
  abbrev pub session_for : Chance → Text → User → Session
  session_for x name u = record {
    session_id = session_id_for C x name;
    user_id = u.id;
    valid_until = add_seconds x.now u.session_length_sec;
  }

  abbrev pub accepted : Chance → Text → User → LoginResponse
  accepted x name u = record {
    status_ok = true;
    require_change_pwd = u.require_change_pwd;
    csrf_token = csrf_token_for C x name;
    valid_until = add_seconds x.now u.session_length_sec;
    role = u.role;
  }

  abbrev pub opened : Chance → Text → User → Db → Db
  opened x name u db = record db { faults = []; sessions = session_for x name u ∷ db.sessions }

  login_opens :
      (x : Chance) (req : LoginRequest) (u : User) (db : Db)
      → CanLogIn C req u db
      → login C x req.username req.password db ≡ (
        opened x req.username u db,
        ok (accepted x req.username u, session_id_for C x req.username),
      )
  unfolding login found_user inserted
  login_opens x req u db (named, numbered, free, fits, name, pwd, calm) =
      rw (calm, named, free, fits) refl

  joined-opened :
      (x : Chance) (name : Text) (u : User) (db : Db)
      → user_numbered u.id db.users ≡ some u
      → joined (session_id_for C x name) (opened x name u db) ≡ some (u, session_for x name u)
  joined-opened x name u db numbered =
      let sid = session_id_for C x name in
      ap
        (λ b.
          user_of (if b then some (session_for x name u) else session_named sid db.sessions)
            db.users)
        (same_text_refl sid)
      ∙ ap (with_user (session_for x name u)) numbered

  -- A user whose password fits, who is not suspended and need not change the password, sends a
  -- complete login request, and no statement fails. The answer sets the two cookies, and until the
  -- session's end a call with its cookie runs every function that the user's role is allowed.
  pub login_handler-call_function :
      {S : Type 0} (x : Chance) (req : LoginRequest) (u : User) (db : Db)
      (fs : List (Text × Function S)) (name : Text) (f : Function S) (t : ℕ) (arg : Text) (s : S)
      → CanLogIn C req u db
      → u.require_change_pwd ≡ false
      → t ≤ add_seconds x.now u.session_length_sec
      → function_named name fs ≡ some f
      → IsAllowed u.role f.role
      → let sid = session_id_for C x req.username in
        let res = accepted x req.username u in
        let db' = opened x req.username u db in
        let (s', outs, e) = call f (attributes sid (u, session_for x req.username u)) arg s in
        (login_handler C x (record { value = req; bad = false }) db ≡ (
          db',
          set_cookie gsess sid ∷ set_cookie gsurf res.csrf_token ∷ login_body res ∷ [],
          finished,
        ))
        × (call_function fs (some sid) name t arg (db', s) ≡ ((db', s'), outs, e))
  unfolding login_handler call_function session_check
  login_handler-call_function x req u db fs name f t arg s can change valid named role =
      let (_, numbered, _, _, has_name, has_pwd, _) = can in
      let sid = session_id_for C x req.username in
      let db' = opened x req.username u db in
      let a = attributes sid (u, session_for x req.username u) in
      (
        rw (has_name, has_pwd, login_opens x req u db can) refl,
        ap
              (λ o.
                let out = in_session fs name t (attributes_of sid (rows_of o)) arg s in
                ((db', out.0), out.1, out.2))
              (joined-opened x req.username u db numbered)
            ∙ ap (λ out. ((db', out.0), out.1, out.2))
                (granted-call fs name t a arg s f change valid named role),
      )
