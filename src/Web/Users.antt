-- ===== src/Web/Users.antt =====
-- internal/webapp/usermgmt/user.go: the handlers that suspend a user and purge sessions.
use gpstracker_backend.Base.{
  ℕ, suc, ◌-◌, ◌&&◌, Bool, List, [], ◌∷◌, length, ltb, ◌==◌, if◌then◌else◌,
}
use gpstracker_backend.Base.Go.{Result, ok, err, query_failed}
use gpstracker_backend.Web.Tables.{User, Session, Db, next_fault, without_user}

pub record SetSuspendFlagRequest : Type 0 where
  pub user_id : ℕ
  pub suspend : Bool

-- `UPDATE "user" SET suspend_login = $1 WHERE id = $2`
abbrev pub suspended : ℕ → Bool → User → User
suspended id flag u = if u.id == id then record u { suspend_login = flag } else u

abbrev pub with_suspend : ℕ → Bool → List User → List User
with_suspend id flag [] = []
with_suspend id flag (u ∷ us) = suspended id flag u ∷ with_suspend id flag us

abbrev count_numbered : ℕ → List User → ℕ
count_numbered id [] = 0
count_numbered id (u ∷ us) =
    let rest = count_numbered id us in if u.id == id then suc rest else rest

-- `SetSuspendFlag`: a status is true for 0 and false for -1.
unfoldable pub set_suspend_flag : SetSuspendFlagRequest → Db → Db × Result Bool
set_suspend_flag req db =
    let (fault, fs) = next_fault db.faults in
    if fault then (record db { faults = fs }, err query_failed) else (
      record db { users = with_suspend req.user_id req.suspend db.users; faults = fs },
      ok (count_numbered req.user_id db.users == 1),
    )

pub record PurgeSessionRequest : Type 0 where
  pub user_id : ℕ
  pub all : Bool

-- `DELETE FROM session where session.user_id = $1 AND session.valid_until > now()`
abbrev pub without_valid : ℕ → ℕ → List Session → List Session
without_valid id now [] = []
without_valid id now (s ∷ ss) =
    let rest = without_valid id now ss in
    if s.user_id == id && ltb now s.valid_until then rest else s ∷ rest

abbrev pub purged : PurgeSessionRequest → ℕ → List Session → List Session
purged req now ss =
    if req.all then without_user req.user_id ss else without_valid req.user_id now ss

-- `PurgeSession`: the count is that of the deleted rows.
unfoldable pub purge_session : PurgeSessionRequest → ℕ → Db → Db × Result ℕ
purge_session req now db =
    let (fault, fs) = next_fault db.faults in
    let rest = purged req now db.sessions in
    if fault
    then (record db { faults = fs }, err query_failed)
    else (record db { sessions = rest; faults = fs }, ok (length db.sessions - length rest))
