-- ===== src/User/Refresh.antt =====
-- internal/logic/refreshlogic.go: a refresh token is exchanged for an access token and the next
-- refresh token of its session.
pub mod Outcome
use lets_go.Prelude.{
  ℕ, ◌+◌, ◌-◌, ◌*◌, ◌/◌, ◌%◌, ◌^◌, Bool, true, false, not, Option, none, some, List, [], ltb, ◌==◌,
  if◌then◌else◌,
}
use lets_go.Sql.{Session, Result, ok, err, ◌>>=◌, ◌>>◌, pure, fail}
use lets_go.User.Codes.{Code}
use lets_go.User.Tables.{
  user_error_driver, Ident, Time, Bytes, UserSession, User, UserTables, UserError,
}
use lets_go.User.Sessions.{UserTx, UserDatabase, find_session, find_user, update_session, time_now}
use lets_go.User.Token.{
  RefreshTokenPayload, TokenCodec, ParsedRefreshToken, TokenError, encode_refresh_token,
  decode_refresh_token, verify,
}

-- `RefreshResult`. Of the response, the message hangs on the code alone.
pub record RefreshResult : Type 0 where
  pub code : Code
  pub access_token : Bytes
  pub refresh_token : Bytes
  pub refresh_expire_seconds : ℕ

-- `newRefreshResult`
abbrev pub rejected : Code → RefreshResult
rejected code = record {
  code = code;
  access_token = [];
  refresh_token = [];
  refresh_expire_seconds = 0;
}

-- `generateAccessToken` of the configuration: none where the JWT package fails. It is given the
-- time, the user and the session.
abbrev pub AccessTokens : Type 0
AccessTokens = Time → Ident → Ident → Option Bytes

-- Seconds until the session ends, at least one.
abbrev pub expire_seconds : Time → Time → ℕ
expire_seconds not_after now =
    let seconds = (not_after - now) / 1000 in if ltb seconds 1 then 1 else seconds

abbrev pub refreshed : Time → UserSession → UserSession
refreshed now s = record s {
  refresh_token_counter = (s.refresh_token_counter + 1) % 2 ^ 64;
  refreshed_at = now;
}

abbrev pub next_payload : UserSession → RefreshTokenPayload
next_payload s = record { version = 1; session_id = s.id; counter = s.refresh_token_counter }

abbrev pub renewed : Bytes → Bytes → Time → UserSession → RefreshResult
renewed access token now s = record {
  code = Code.success;
  access_token = access;
  refresh_token = token;
  refresh_expire_seconds = expire_seconds s.not_after now;
}

module _ (codec : TokenCodec) (access : AccessTokens) where
  abbrev pub store : Bytes → Time → UserSession → Result TokenError Bytes → UserTx RefreshResult
  store access_token now s (err e) = fail UserError.encode_failed
  store access_token now s (ok token) = do update_session s; pure (renewed access_token token now s)

  abbrev pub issue : Time → UserSession → Option Bytes → UserTx RefreshResult
  issue now s none = fail UserError.sign_failed
  issue now s (some access_token) =
      let next = refreshed now s in
      store access_token now next
        (encode_refresh_token codec (next_payload next) s.refresh_token_key)

  -- The account's status, in the order of the `switch`.
  abbrev pub check_account : Time → UserSession → Option User → UserTx RefreshResult
  check_account now s none = pure (rejected Code.refresh_token_invalid)
  check_account now s (some user) =
      if user.account_status == 1
      then issue now s (access now user.user_id s.id)
      else if user.account_status == 2
      then pure (rejected Code.account_pending)
      else pure (rejected Code.account_disabled)

  abbrev pub check_time : UserSession → Time → UserTx RefreshResult
  check_time s now =
      if not (ltb now s.not_after)
      then pure (rejected Code.session_expired)
      else find_user s.user_id >>= check_account now s

  abbrev pub check_session : ParsedRefreshToken → Option UserSession → UserTx RefreshResult
  check_session parsed none = pure (rejected Code.session_not_found)
  check_session parsed (some s) =
      if not (verify codec parsed s.refresh_token_key)
      then pure (rejected Code.refresh_token_invalid)
      else if not (parsed.payload.counter == s.refresh_token_counter)
      then pure (rejected Code.refresh_token_already_used)
      else if not (s.status == 1)
      then pure (rejected Code.session_inactive)
      else time_now >>= check_time s

  unfoldable pub refresh_body : ParsedRefreshToken → UserTx RefreshResult
  refresh_body parsed = do
    found ← find_session parsed.payload.session_id
    check_session parsed found

  abbrev pub refresh_parsed :
      UserDatabase → Result TokenError ParsedRefreshToken → UserTx RefreshResult
  refresh_parsed db (err e) = pure (rejected Code.refresh_token_invalid)
  refresh_parsed db (ok parsed) = db.transact RefreshResult (refresh_body parsed)

  -- `Refresh`
  unfoldable pub refresh : UserDatabase → Bytes → UserTx RefreshResult
  unfolding refresh_body
  refresh db token = refresh_parsed db (decode_refresh_token codec token)
