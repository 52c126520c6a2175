-- ===== src/User/Examples/Logins.antt =====
-- The theorems on logins at one login.
use lets_go.Prelude.{◌+◌, ◌++◌, true, none, some, [], ◌∷◌}
use lets_go.Sql.{Session, Result, ok, err}
use lets_go.Sql.Outcome.{Outcome}
use lets_go.User.Tables.{user_error_driver, Bytes, UserTables}
use lets_go.User.Device.{DeviceInputs}
use lets_go.User.Login.{
  IdentifierType, LoginRequest, LoginInputs, LoginResult, first_payload, login_by_password,
}
use lets_go.User.Login.Outcome.{Answered, login_by_password-Answered}
use lets_go.User.Examples.{codec, access, database, key, user, shift, total, repeated, written}

abbrev devices : DeviceInputs
devices = record { lower = λ text. text; is_uuid = λ text. true; ident = λ text. 0; new_id = 9 }

-- Every password matches; the new session is 5 and lasts for a minute.
abbrev inputs : LoginInputs
inputs = record {
  codec = codec;
  access = access;
  devices = devices;
  compare = λ digest password. true;
  session_id = 5;
  key = some key;
  device_text = repeated 36 48;
  refresh_expire = 60;
}

-- The user is named 30 and logs in from the web.
abbrev request : LoginRequest
request = record {
  identifier_type = IdentifierType.by_username;
  identifier = 30;
  password = [];
  device = record {
    device_id = [];
    device_name = 112 ∷ 99 ∷ [];
    platform = 119 ∷ 101 ∷ 98 ∷ [];
    app_version = [];
  };
}

abbrev before : Session UserTables
before = record {
  tables = record { sessions = []; users = user ∷ []; devices = [] };
  now = 50_000;
  script = [];
}

login_by_password-Answered_example :
    Answered inputs request before.tables (login_by_password inputs database request before)
login_by_password-Answered_example = login_by_password-Answered inputs request database before

abbrev token : Bytes
token =
    let text = shift (written (first_payload inputs)) in
    text ++ 46 ∷ shift ((total key + total text) ∷ repeated 31 0)

abbrev answer : LoginResult
answer = record {
  code = lets_go.User.Codes.Code.success;
  device_id = 9;
  access_token = 50_000 ∷ 3 ∷ 5 ∷ [];
  refresh_token = token;
}

abbrev after : Session UserTables
after = record before {
  tables = record {
    sessions =
        record {
          id = 5;
          user_id = 3;
          device_id = 9;
          status = 1;
          created_at = 50_000;
          refreshed_at = 50_000;
          not_after = 110_000;
          refresh_token_key = key;
          refresh_token_counter = 0;
          revoked_at = none;
          revoke_reason = none;
        }
        ∷ [];
    users = record user { last_login_at = some 50_000 } ∷ [];
    devices =
        record {
          id = 9;
          user_id = 3;
          device_name = 112 ∷ 99 ∷ [];
          platform = 119 ∷ 101 ∷ 98 ∷ [];
          app_version = [];
          first_login_at = 50_000;
          last_login_at = 50_000;
          status = 1;
        }
        ∷ [];
  };
}
