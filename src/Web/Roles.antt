-- ===== src/Web/Roles.antt =====
-- Who may call which function of internal/webapp/api.go.
use gpstracker_backend.Base.{
  ℕ, ◌≡◌, ◌≤◌, ◌||◌, inl, refl, sym, ap, ◌∙◌, Bool, true, false, not, List, [], ◌∷◌, some,
  if◌then◌else◌,
}
use gpstracker_backend.Base.Texts.{Text, same_text}
use gpstracker_backend.Web.Tables.{
  User, Session, Db, Out, End, panicked, http_error, finished, joined, rows_of,
}
use gpstracker_backend.Web.Dispatcher.{
  has_role, tracker_monitor, tracker_admin, Attributes, attributes, attributes_of, in_session,
  session_check, call_function, Function, function_named, add, call, found,
}
use gpstracker_backend.Web.Access.{granted-call}
use gpstracker_backend.Web.Api.{
  Name, get_trackers, get_tracker_detail, get_tracker_event, get_gt06_cmd_history,
  get_tracker_current_conn_info, get_tracker_location_history, send_command2, edit_tracker_settings,
  set_tracker_name, purge_tracker, create_ws_token, get_ws_token, text_of, Handlers, without_result,
  api_functions,
}

-- The functions that change a tracker.
abbrev pub is_admin : Name → Bool
is_admin send_command2 = true
is_admin edit_tracker_settings = true
is_admin set_tracker_name = true
is_admin purge_tracker = true
is_admin n = false

abbrev pub role_of : Name → Text
role_of n = if is_admin n then tracker_admin else tracker_monitor

-- Whether a user with this role may call the function.
abbrev pub may_call : Text → Name → Bool
may_call role n = not (is_admin n) || same_text tracker_admin role

has_role-may_call : (role : Text) (n : Name) → has_role role (role_of n) ≡ may_call role n
unfolding has_role
has_role-may_call role n = by_kind (is_admin n)
  where
    for_admin :
        (b : Bool)
        → (if b then true else if same_text tracker_admin tracker_monitor then true else false) ≡ b
    for_admin true = refl
    for_admin false = refl

    for_all :
        (b : Bool)
        → (if b then true else if same_text tracker_monitor tracker_monitor then true else false)
          ≡ true
    for_all true = refl
    for_all false = refl

    by_kind :
        (b : Bool)
        → (if same_text (if b then tracker_admin else tracker_monitor) role
            then true
            else if same_text (if b then tracker_admin else tracker_monitor) tracker_monitor
            then true
            else false)
          ≡ (not b || same_text tracker_admin role)
    by_kind true = for_admin (same_text tracker_admin role)
    by_kind false = for_all (same_text tracker_monitor role)

module _ {S : Type 0} where
  -- Each function is found by its name, and has the role of an administrator of trackers when it
  -- changes a tracker.
  function_named-role_of :
      (h : Handlers S) (n : Name)
      → (f : Function S) × (function_named (text_of n) (api_functions h) ≡ some f)
        × (f.role ≡ role_of n)
  unfolding api_functions add
  function_named-role_of h get_trackers = (_, refl, refl)
  function_named-role_of h get_tracker_detail = (_, refl, refl)
  function_named-role_of h get_tracker_event = (_, refl, refl)
  function_named-role_of h get_gt06_cmd_history = (_, refl, refl)
  function_named-role_of h get_tracker_current_conn_info = (_, refl, refl)
  function_named-role_of h get_tracker_location_history = (_, refl, refl)
  function_named-role_of h send_command2 = (_, refl, refl)
  function_named-role_of h edit_tracker_settings = (_, refl, refl)
  function_named-role_of h set_tracker_name = (_, refl, refl)
  function_named-role_of h purge_tracker = (_, refl, refl)
  function_named-role_of h create_ws_token = (_, refl, refl)
  function_named-role_of h get_ws_token = (_, refl, refl)

  -- Each of the twelve functions is found by its name. A user in a session may call those that only
  -- look at trackers, whatever the role, and the four that change one exactly when the role is
  -- tracker-admin; otherwise the answer is an error and nothing else happens.
  pub found-may_call :
      (h : Handlers S) (n : Name) (a : Attributes) (req : Text) (s : S)
      → (f : Function S) × (function_named (text_of n) (api_functions h) ≡ some f)
        × (found (function_named (text_of n) (api_functions h)) a req s
            ≡ (if may_call a.roles n then call f a req s else (s, http_error 401 ∷ [], finished)))
  found-may_call h n a req s =
      let (f, named, role) = function_named-role_of h n in
      (
        f,
        named,
        ap (λ o. found o a req s) named
            ∙ ap (λ b. if not b then denied else call f a req s)
                (ap (has_role a.roles) role ∙ has_role-may_call a.roles n)
            ∙ turn (may_call a.roles n) (call f a req s),
      )
    where
      denied : S × List Out × End
      denied = (s, http_error 401 ∷ [], finished)

      turn :
          (b : Bool) (x : S × List Out × End)
          → (if not b then denied else x) ≡ (if b then x else denied)
      turn true x = refl
      turn false x = refl

  abbrev silent : Handlers S → Function S
  silent h = record {
    request_ok = some (h.accepts purge_tracker);
    raw_response = false;
    role = tracker_admin;
    handler = λ a req s. without_result (h.does purge_tracker a req s);
  }

  silent_panics :
      (h : Handlers S) (a : Attributes) (req : Text) (s : S)
      → h.accepts purge_tracker req ≡ true
      → ((call (silent h) a req s).0 ≡ (h.does purge_tracker a req s).0)
        × ((call (silent h) a req s).2 ≡ panicked)
  unfolding call
  silent_panics h a req s good = rw good (refl, refl)

  -- An administrator of trackers who calls PurgeTracker in a valid session, with a body that is
  -- accepted, has it run, and the request panics all the same: the function has no result to look
  -- at.
  pub call_function_purge :
      (h : Handlers S) (sid req : Text) (now : ℕ) (u : User) (ses : Session) (db : Db) (s : S)
      → joined sid db ≡ some (u, ses)
      → db.faults ≡ []
      → u.require_change_pwd ≡ false
      → now ≤ ses.valid_until
      → u.role ≡ tracker_admin
      → h.accepts purge_tracker req ≡ true
      → let a = attributes sid (u, ses) in
        let done = h.does purge_tracker a req s in
        let out =
          call_function (api_functions h) (some sid) (text_of purge_tracker) now req (db, s) in
        (out.0.1 ≡ done.0) × (out.2 ≡ panicked)
  unfolding call_function session_check call api_functions add
  call_function_purge h sid req now u ses db s e calm change valid role good =
      let a = attributes sid (u, ses) in
      let fs = api_functions h in
      let granted =
        ap (λ o. in_session fs (text_of purge_tracker) now (attributes_of sid (rows_of o)) req s) e
        ∙ granted-call fs (text_of purge_tracker) now a req s (silent h) change valid refl
            (inl (sym role)) in
      let panics = silent_panics h a req s good in
      rw calm (ap (λ out. out.0) granted ∙ panics.0, ap (λ out. out.2) granted ∙ panics.1)
