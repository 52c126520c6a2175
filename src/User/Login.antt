-- ===== src/User/Login.antt =====
-- internal/logic/loginbypasswordlogic.go and login.go: a login by password opens a session.
pub mod Opened
pub mod Outcome
pub mod Refreshed
use lets_go.Prelude.{
  ℕ, ◌+◌, ◌*◌, Bool, true, false, not, Option, none, some, List, [], ◌==◌, if◌then◌else◌,
}
use lets_go.Strings.{is_empty, Text}
use lets_go.Sql.{Session, Result, ok, err, ◌>>=◌, ◌>>◌, pure, fail, call}
use lets_go.Sql.Table.{find_row, update_where}
use lets_go.Sql.Insert.{insert_unique}
use lets_go.User.Codes.{Code}
use lets_go.User.Tables.{
  user_error_driver, Ident, Time, Bytes, UserSession, User, UserDevice, UserTables, UserError,
}
use lets_go.User.Sessions.{UserTx, UserDatabase, session_key, user_key, time_now}
use lets_go.User.Token.{RefreshTokenPayload, TokenCodec, TokenError, encode_refresh_token}
use lets_go.User.Refresh.{AccessTokens}
use lets_go.User.Device.{DeviceInfo, DeviceInputs, validate_device_info, resolve_login_device}

-- The texts that `IdentifierType` may be: phoneNumber, username, and others
pub data IdentifierType : Type 0 where
  by_phone by_username by_other : IdentifierType

-- `types.LoginByPasswordReq`
pub record LoginRequest : Type 0 where
  pub identifier_type : IdentifierType
  pub identifier : Ident
  pub password : Text
  pub device : DeviceInfo

-- What a login uses of other packages and of the configuration: tokens, bcrypt, a new session's UUID
-- and key (none where the random source fails), the UUID that is put for a missing device id,
-- and the seconds that a session lasts.
pub record LoginInputs : Type 0 where
  pub codec : TokenCodec
  pub access : AccessTokens
  pub devices : DeviceInputs
  pub compare : Bytes → Text → Bool
  pub session_id : Ident
  pub key : Option Bytes
  pub device_text : Text
  pub refresh_expire : ℕ

-- `LoginResult`. Of the response, the message hangs on the code alone.
pub record LoginResult : Type 0 where
  pub code : Code
  pub device_id : Ident
  pub access_token : Bytes
  pub refresh_token : Bytes

-- An answer without tokens. The empty device id is 0.
abbrev pub rejected_login : Code → Ident → LoginResult
rejected_login code device_id = record {
  code = code;
  device_id = device_id;
  access_token = [];
  refresh_token = [];
}

abbrev pub phone_key : Ident → User → Bool
phone_key number u = u.phone_number == number

abbrev pub username_key : Ident → User → Bool
username_key name u = u.username == name

-- `FindOneByPhoneNumber` and `FindOneByUsername`: none is `ErrNotFound`.
unfoldable pub find_by : (User → Bool) → UserTx (Option User)
find_by key = call UserError.driver λ now t. (find_row key t.users, t)

abbrev pub logged_in_at : Time → User → User
logged_in_at now u = record u { last_login_at = some now }

-- `UpdateLastLoginAt`
unfoldable pub update_last_login_at : Ident → Time → UserTx (Unit {0})
update_last_login_at id now =
    call UserError.driver
      λ at t. (tt, record t { users = update_where (user_key id) (logged_in_at now) t.users })

abbrev pub sessions_of : UserTables → List UserSession
sessions_of t = t.sessions

abbrev pub put_sessions : List UserSession → UserTables → UserTables
put_sessions rows t = record t { sessions = rows }

-- `Insert` of the sessions
abbrev pub insert_session : Ident → (Time → UserSession) → UserTx (Unit {0})
insert_session id row = insert_unique UserError.driver sessions_of put_sessions (session_key id) row

module _ (inputs : LoginInputs) where
  abbrev pub login_session : Ident → Ident → Time → Bytes → Time → UserSession
  login_session user_id device_id now key at = record {
    id = inputs.session_id;
    user_id = user_id;
    device_id = device_id;
    status = 1;
    created_at = at;
    refreshed_at = now;
    not_after = now + inputs.refresh_expire * 1000;
    refresh_token_key = key;
    refresh_token_counter = 0;
    revoked_at = none;
    revoke_reason = none;
  }

  abbrev pub stamp_login : User → Time → UserDevice → UserTx UserDevice
  stamp_login user now device = do update_last_login_at user.user_id now; pure device

  abbrev pub open_session : User → Time → Bytes → UserDevice → UserTx UserDevice
  open_session user now key device = do
    insert_session inputs.session_id (login_session user.user_id device.id now key)
    stamp_login user now device

  -- The transaction of `finalizeLogin`
  pub login_body : User → DeviceInfo → Time → Bytes → UserTx UserDevice
  login_body user info now key =
      resolve_login_device inputs.devices user.user_id info >>= open_session user now key

  abbrev pub logged_in : Bytes → Bytes → UserDevice → LoginResult
  logged_in access token device = record {
    code = Code.success;
    device_id = device.id;
    access_token = access;
    refresh_token = token;
  }

  abbrev pub first_payload : RefreshTokenPayload
  first_payload = record { version = 1; session_id = inputs.session_id; counter = 0 }

  module _ (db : UserDatabase) (user : User) (info : DeviceInfo) (now : Time) where
    abbrev pub finalize_token : Bytes → Bytes → Result TokenError Bytes → UserTx LoginResult
    finalize_token access key (err e) = fail UserError.encode_failed
    finalize_token access key (ok token) =
        db.transact UserDevice (login_body user info now key) >>= λ device.
        pure (logged_in access token device)

    abbrev pub finalize_key : Bytes → Option Bytes → UserTx LoginResult
    finalize_key access none = fail UserError.random_failed
    finalize_key access (some key) =
        finalize_token access key (encode_refresh_token inputs.codec first_payload key)

    abbrev pub finalize_access : Option Bytes → UserTx LoginResult
    finalize_access none = fail UserError.sign_failed
    finalize_access (some access) = finalize_key access inputs.key

  -- `finalizeLogin`
  abbrev pub finalize_login : UserDatabase → User → DeviceInfo → UserTx LoginResult
  finalize_login db user info = time_now >>= λ now.
      finalize_access db user info now (inputs.access now user.user_id inputs.session_id)

  abbrev pub login_code : UserError → Code
  login_code UserError.device_disabled = Code.device_disabled
  login_code UserError.driver = Code.internal_error
  login_code UserError.sign_failed = Code.internal_error
  login_code UserError.encode_failed = Code.internal_error
  login_code UserError.random_failed = Code.internal_error

  abbrev pub login_answer :
      DeviceInfo
      → Result UserError LoginResult × Session UserTables
      → LoginResult × Session UserTables
  login_answer info (ok result, s) = (result, s)
  login_answer info (err e, s) =
      (rejected_login (login_code e) (inputs.devices.ident info.device_id), s)

  -- An empty device id is replaced by a new one.
  abbrev pub named_device : DeviceInfo → DeviceInfo
  named_device info =
      if is_empty info.device_id then record info { device_id = inputs.device_text } else info

  abbrev pub login_device :
      UserDatabase
      → User
      → DeviceInfo × Bool
      → Session UserTables
      → LoginResult × Session UserTables
  login_device db user (info, bad) s =
      if bad
      then (rejected_login Code.invalid_device_info (inputs.devices.ident info.device_id), s)
      else login_answer info (finalize_login db user info s)

  -- From the comparison of passwords on
  abbrev pub login_user :
      UserDatabase → LoginRequest → User → Session UserTables → LoginResult × Session UserTables
  login_user db req user s =
      if not (inputs.compare user.password_digest req.password)
      then (rejected_login Code.login_credential_invalid 0, s)
      else if user.account_status == 1
      then login_device db user (validate_device_info inputs.devices (named_device req.device)) s
      else if user.account_status == 2
      then (rejected_login Code.account_pending 0, s)
      else (rejected_login Code.account_disabled 0, s)

  abbrev pub login_found :
      UserDatabase
      → LoginRequest
      → Result UserError (Option User) × Session UserTables
      → LoginResult × Session UserTables
  login_found db req (err e, s) = (rejected_login Code.database_error 0, s)
  login_found db req (ok none, s) = (rejected_login Code.login_credential_invalid 0, s)
  login_found db req (ok (some user), s) = login_user db req user s

  abbrev pub login_as :
      UserDatabase
      → LoginRequest
      → IdentifierType
      → Session UserTables
      → LoginResult × Session UserTables
  login_as db req IdentifierType.by_phone s =
      login_found db req (find_by (phone_key req.identifier) s)
  login_as db req IdentifierType.by_username s =
      login_found db req (find_by (username_key req.identifier) s)
  login_as db req IdentifierType.by_other s =
      (rejected_login Code.invalid_login_identifier_type 0, s)

  -- `LoginByPassword`
  unfoldable pub login_by_password :
      UserDatabase → LoginRequest → Session UserTables → LoginResult × Session UserTables
  unfolding login_body
  login_by_password db req s = login_as db req req.identifier_type s
