-- ===== src/User/Login/Opened.antt =====
-- The transaction of `finalizeLogin` (internal/logic/login.go): which tables it leaves.
use lets_go.Prelude.{ℕ, ◌≡◌, refl, ap, [], ◌∷◌, ◌++◌}
use lets_go.Sql.{Session, pure}
use lets_go.Sql.Table.{update_where, affected}
use lets_go.Sql.Insert.{insert_unique-Holds}
use lets_go.Sql.Outcome.{Holds, bind-Holds, call_then}
use lets_go.User.Tables.{Time, Bytes, User, UserDevice, UserTables, UserError}
use lets_go.User.Sessions.{session_key, user_key}
use lets_go.User.Device.{DeviceInfo, put_devices, resolve_login_device}
use lets_go.User.Device.Resolve.{
  Resolved, ResolveError, refused, created, seen, resolve_login_device-Holds,
}
use lets_go.User.Login.{
  LoginInputs, logged_in_at, update_last_login_at, sessions_of, put_sessions, insert_session,
  login_session, stamp_login, open_session, login_body,
}

module _ (inputs : LoginInputs) (user : User) (info : DeviceInfo) (now : Time) (key : Bytes) where
  -- The tables of a login: the device's row, then the new session and the time of the login.
  pub record Opened (before : UserTables) (device : UserDevice) (after : UserTables) : Type 0 where
    pub stored : UserTables
    pub resolved : Resolved inputs.devices user.user_id info before device stored
    pub kept : stored ≡ put_devices stored.devices before
    pub fresh : affected (session_key inputs.session_id) before.sessions ≡ 0
    pub at : Time
    pub opened : after ≡ record stored {
      sessions = before.sessions ++ login_session inputs user.user_id device.id now key at ∷ [];
      users = update_where (user_key user.user_id) (logged_in_at now) before.users;
    }

  Resolved-kept :
      (before : UserTables) (device : UserDevice) (stored : UserTables)
      → Resolved inputs.devices user.user_id info before device stored
      → stored ≡ put_devices stored.devices before
  Resolved-kept before _ _ (created at why free) = refl
  Resolved-kept before _ _ (seen d at found usable) = refl

  open_session-Holds :
      (before : UserTables) (device : UserDevice) (s : Session UserTables)
      → Resolved inputs.devices user.user_id info before device s.tables
      → Holds
          (λ d s'. Opened before d s'.tables)
          (ResolveError inputs.devices user.user_id info)
          (open_session inputs user now key device s)
  unfolding update_last_login_at
  open_session-Holds before device s resolved =
      let kept = Resolved-kept before device s.tables resolved in
      let same : s.tables.sessions ≡ before.sessions = ap (λ (t : UserTables). t.sessions) kept in
      let users : s.tables.users ≡ before.users = ap (λ (t : UserTables). t.users) kept in
      bind-Holds (ResolveError inputs.devices user.user_id info)
        (insert_session inputs.session_id (login_session inputs user.user_id device.id now key))
        (λ _. stamp_login inputs user now device)
        (λ _ s'.
          (affected (session_key inputs.session_id) s.tables.sessions ≡ 0)
          × ((at : ℕ) × (s'.tables
                ≡ put_sessions
                    (s.tables.sessions
                      ++ login_session inputs user.user_id device.id now key at ∷ [])
                    s.tables)))
        (λ d s'. Opened before d s'.tables) s
        (insert_unique-Holds UserError.driver sessions_of put_sessions
          (ResolveError inputs.devices user.user_id info) (session_key inputs.session_id)
          (login_session inputs user.user_id device.id now key) s refused)
        λ _ s1 (free, (at, added)).
          call_then (ResolveError inputs.devices user.user_id info) UserError.driver _
            (λ _. pure device) (λ d s'. Opened before d s'.tables) s1 refused
            λ later ms passed. record {
              stored = s.tables;
              resolved = resolved;
              kept = kept;
              fresh = rw same at free;
              at = at;
              opened = rw (added, same, users) refl;
            }

  pub login_body-Holds :
      (s : Session UserTables)
      → Holds
          (λ d s'. Opened s.tables d s'.tables)
          (ResolveError inputs.devices user.user_id info)
          (login_body inputs user info now key s)
  unfolding login_body
  login_body-Holds s =
      bind-Holds (ResolveError inputs.devices user.user_id info)
        (resolve_login_device inputs.devices user.user_id info) (open_session inputs user now key)
        (λ d s'. Resolved inputs.devices user.user_id info s.tables d s'.tables)
        (λ d s'. Opened s.tables d s'.tables) s
        (resolve_login_device-Holds inputs.devices user.user_id info s)
        λ d s' resolved. open_session-Holds s.tables d s' resolved
