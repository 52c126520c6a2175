-- ===== src/User/Tables.antt =====
-- The rows of userServer (internal/model) and its tables. Times are milliseconds.
use lets_go.Prelude.{ℕ, Option, List}
use lets_go.Sql.{HasDriver}

-- Identifiers and names, as numbers that tell them apart; 0 is the empty text.
abbrev pub Ident : Type 0
Ident = ℕ

abbrev pub Time : Type 0
Time = ℕ

-- The bytes of a token or a key.
abbrev pub Bytes : Type 0
Bytes = List ℕ

-- user_sessions. `status` is 1 active, 0 revoked.
pub record UserSession : Type 0 where
  pub id : Ident
  pub user_id : Ident
  pub device_id : Ident
  pub status : ℕ
  pub created_at : Time
  pub refreshed_at : Time
  pub not_after : Time
  pub refresh_token_key : Bytes
  pub refresh_token_counter : ℕ
  pub revoked_at : Option Time
  pub revoke_reason : Option Ident

-- users. `account_status` is 0 disabled, 1 normal, 2 pending, 3 closed.
pub record User : Type 0 where
  pub user_id : Ident
  pub username : Ident
  pub phone_number : Ident
  pub password_digest : Bytes
  pub account_status : ℕ
  pub nickname : Option Ident
  pub avatar_url : Option Ident
  pub last_login_at : Option Time

-- user_devices. `status` is 1 where the device may be used. The texts are lists of runes.
pub record UserDevice : Type 0 where
  pub id : Ident
  pub user_id : Ident
  pub device_name : List ℕ
  pub platform : List ℕ
  pub app_version : List ℕ
  pub first_login_at : Time
  pub last_login_at : Time
  pub status : ℕ

pub record UserTables : Type 0 where
  pub sessions : List UserSession
  pub users : List User
  pub devices : List UserDevice

-- The errors that end a transaction of userServer.
pub data UserError : Type 0 where
  driver sign_failed encode_failed random_failed device_disabled : UserError

instance abbrev pub user_error_driver : HasDriver UserError
user_error_driver = record { driver_error = UserError.driver }
