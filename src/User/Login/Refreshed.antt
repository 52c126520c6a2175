-- ===== src/User/Login/Refreshed.antt =====
-- A login and a refresh of its token, one after the other: `LoginByPassword`
-- (internal/logic/loginbypasswordlogic.go, login.go) and `Refresh` (refreshlogic.go).
use lets_go.Prelude.{ℕ, ◌+◌, ◌%◌, ◌^◌, ◌≡◌, ◌⊎◌, true, none, some, ◌==◌}
use lets_go.Sql.{Session, err}
use lets_go.Sql.Table.{find_row}
use lets_go.Sql.Outcome.{Outcome}
use lets_go.User.Codes.{Code}
use lets_go.User.Tables.{
  user_error_driver, Ident, Time, Bytes, UserSession, User, UserTables, UserError,
}
use lets_go.User.Sessions.{session_key, user_key}
use lets_go.User.Token.{TokenCodec, ParsedRefreshToken, TokenError, encode_refresh_token, verify}
use lets_go.User.Refresh.{RefreshResult, AccessTokens, rejected}
use lets_go.User.Refresh.Outcome.{Renewal}

abbrev Any : UserError → Type 0
Any e = Unit

-- Why a refresh of a session fails: the driver, no access token for the user and the session at
-- some time, or no refresh token for the session at the counter.
abbrev pub RefreshError : TokenCodec → AccessTokens → Ident → Ident → ℕ → Bytes → UserError → Type 0
RefreshError codec access user_id session_id counter key e =
    (e ≡ UserError.driver)
    ⊎ ((e ≡ UserError.sign_failed) × ((now : Time) × (access now user_id session_id ≡ none))
        ⊎ (e ≡ UserError.encode_failed)
          × ((x : TokenError) × (encode_refresh_token codec
                  (record { version = 1; session_id = session_id; counter = counter }) key
                ≡ err x)))

-- Success, or the session is over.
abbrev pub Fine : RefreshResult → Type 0
Fine r = (r.code ≡ Code.session_expired) ⊎ (r.code ≡ Code.success)

module _ (codec : TokenCodec) (access : AccessTokens) (parsed : ParsedRefreshToken) where
  abbrev FineAt : RefreshResult → Session UserTables → Type 0
  FineAt r s' = Fine r

  -- A session that the token is of and a normal account: only time can be against a refresh.
  record Ready (t : UserTables) (u : UserSession) (user : User) : Type 0 where
    held : find_row (session_key parsed.payload.session_id) t.sessions ≡ some u
    genuine : verify codec parsed u.refresh_token_key ≡ true
    unused : (parsed.payload.counter == u.refresh_token_counter) ≡ true
    active : (u.status == 1) ≡ true
    account : find_row (user_key u.user_id) t.users ≡ some user
    normal : (user.account_status == 1) ≡ true

  abbrev Failing : Ident → UserSession → UserError → Type 0
  Failing user_id u =
      RefreshError codec access user_id u.id ((u.refresh_token_counter + 1) % 2 ^ 64)
        u.refresh_token_key

-- The result is an expiry without a change, or a renewal.
abbrev pub Exchanged :
    TokenCodec
    → AccessTokens
    → ParsedRefreshToken
    → UserTables
    → RefreshResult
    → UserTables
    → Type 0
Exchanged codec access parsed before result after =
    ((result ≡ rejected Code.session_expired) × (after ≡ before))
    ⊎ Renewal codec access parsed before after result
