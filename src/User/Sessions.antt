-- ===== src/User/Sessions.antt =====
-- internal/model/usersessionsmodel.go, usersessionsmodel_gen.go and usersmodel_gen.go: the
-- statements on sessions and users.
use lets_go.Prelude.{Bool, not, ◌&&◌, Option, some, ◌==◌}
use lets_go.Sql.{ok, Tx, call}
use lets_go.Sql.Table.{find_row, update_where}
use lets_go.Sql.Outcome.{Conn}
use lets_go.User.Tables.{Ident, Time, UserSession, User, UserTables, UserError}

abbrev pub UserTx : Type 0 → Type 0
UserTx A = Tx UserTables UserError A

abbrev pub UserDatabase : Type 1
UserDatabase = Conn UserTables UserError UserError.driver

abbrev pub session_key : Ident → UserSession → Bool
session_key id s = s.id == id

abbrev pub user_key : Ident → User → Bool
user_key id u = u.user_id == id

-- `FindOneForUpdate`: none is `ErrNotFound`.
unfoldable pub find_session : Ident → UserTx (Option UserSession)
find_session id = call UserError.driver λ now t. (find_row (session_key id) t.sessions, t)

-- `FindOne` of the users: none is `ErrNotFound`.
unfoldable pub find_user : Ident → UserTx (Option User)
find_user id = call UserError.driver λ now t. (find_row (user_key id) t.users, t)

-- The columns that `Update` sets: all but the key and the time of creation.
abbrev pub overwrite : UserSession → UserSession → UserSession
overwrite s r = record s { id = r.id; created_at = r.created_at }

unfoldable pub update_session : UserSession → UserTx (Unit {0})
update_session s =
    call UserError.driver λ now t.
      (tt, record t { sessions = update_where (session_key s.id) (overwrite s) t.sessions })

abbrev pub revoked : Time → Ident → UserSession → UserSession
revoked at_time reason s = record s {
  status = 0;
  revoked_at = some at_time;
  revoke_reason = some reason;
}

-- `RevokeOtherByUserID`
unfoldable pub revoke_other_by_user_id : Ident → Ident → Time → Ident → UserTx (Unit {0})
revoke_other_by_user_id user_id current at_time reason = call UserError.driver λ now t. (
  tt,
  record t {
    sessions =
        update_where (λ s. s.user_id == user_id && (not (s.id == current) && s.status == 1))
          (revoked at_time reason) t.sessions;
  },
)

-- `RevokeAllByUserID`
unfoldable pub revoke_all_by_user_id : Ident → Time → Ident → UserTx (Unit {0})
revoke_all_by_user_id user_id at_time reason = call UserError.driver λ now t. (
  tt,
  record t {
    sessions =
        update_where (λ s. s.user_id == user_id && s.status == 1) (revoked at_time reason)
          t.sessions;
  },
)

-- `time.Now`, which is the clock of the session here.
abbrev pub time_now : UserTx Time
time_now s = (ok s.now, s)
