-- ===== src/User/Codes.antt =====
-- internal/ecode/ecode.go: the response codes that the modelled operations return.
use lets_go.Prelude.{ℕ}

pub data Code : Type 0 where
  success access_token_invalid refresh_token_invalid refresh_token_already_used : Code
  account_disabled account_pending session_not_found session_inactive session_expired : Code
  database_error internal_error : Code
  login_credential_invalid invalid_login_identifier_type invalid_device_info device_disabled : Code

-- `Int`
abbrev pub int : Code → ℕ
int Code.success = 0
int Code.access_token_invalid = 300002
int Code.refresh_token_invalid = 300004
int Code.refresh_token_already_used = 300006
int Code.account_disabled = 200004
int Code.account_pending = 200005
int Code.session_not_found = 600001
int Code.session_inactive = 600002
int Code.session_expired = 600003
int Code.database_error = 900002
int Code.internal_error = 900001
int Code.login_credential_invalid = 300001
int Code.invalid_login_identifier_type = 100005
int Code.invalid_device_info = 500001
int Code.device_disabled = 500003
