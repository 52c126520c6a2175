-- ===== src/User/Examples.antt =====
-- The theorems on tokens and sessions at one session, with a small stand-in for the packages.
mod Logins
use lets_go.Prelude.{
  ℕ, zero, suc, ◌+◌, ◌-◌, ◌≤◌, ◌≡◌, refl, ◌⊎◌, true, false, Option, none, some, [], ◌∷◌, ◌++◌, ◌==◌,
  arith, All, length,
}
use lets_go.Sql.{Session, Result, ok, err}
use lets_go.Sql.Outcome.{Outcome}
use lets_go.Sql.Plain.{plain}
use lets_go.User.Codes.{Code}
use lets_go.User.Tables.{user_error_driver, Bytes, UserSession, User, UserTables, UserError}
use lets_go.User.Sessions.{UserDatabase}
use lets_go.User.Token.{
  RefreshTokenPayload, TokenCodec, ParsedRefreshToken, encode_refresh_token, decode_refresh_token,
  verify, encode-decode,
}
use lets_go.User.Refresh.{RefreshResult, AccessTokens, rejected, refreshed, renewed, refresh}
use lets_go.User.Refresh.Outcome.{Refreshed, refresh-Outcome}
use lets_go.User.Logout.Ended.{Ended}
use lets_go.User.History.{UserCall, perform, now_as_then, called}
use lets_go.User.History.Advances.{Advances, history-Advances}
use lets_go.User.History.Final.{Denied, refresh_once, refresh_inactive}

abbrev shift : Bytes → Bytes
shift [] = []
shift (c ∷ b) = (c + 47) ∷ shift b

abbrev unshift : Bytes → Bytes
unshift [] = []
unshift (c ∷ b) = (c - 47) ∷ unshift b

abbrev total : Bytes → ℕ
total [] = 0
total (c ∷ b) = c + total b

abbrev repeated : ℕ → ℕ → Bytes
repeated zero c = []
repeated (suc n) c = c ∷ repeated n c

abbrev written : RefreshTokenPayload → Bytes
written p = p.version ∷ p.session_id ∷ p.counter ∷ []

abbrev read : Bytes → Option RefreshTokenPayload
read [] = none
read (v ∷ []) = none
read (v ∷ s ∷ []) = none
read (v ∷ s ∷ c ∷ []) = some (record { version = v; session_id = s; counter = c })
read (v ∷ s ∷ c ∷ x ∷ xs) = none

unshift-shift : (b : Bytes) → unshift (shift b) ≡ b
unshift-shift [] = refl
unshift-shift (c ∷ b) =
    let same : (c + 47) - 47 ≡ c = omega arith in rw (same, unshift-shift b) refl

shift_above : (b : Bytes) → All (λ c. (c == 46) ≡ false) (shift b)
shift_above [] = tt
shift_above (c ∷ b) = (ground arith, shift_above b)

length-shift : (b : Bytes) → length (shift b) ≡ length b
length-shift [] = refl
length-shift (c ∷ b) = omega (arith, length-shift b)

written_lem :
    (p : RefreshTokenPayload) (b : Bytes)
    → some (written p) ≡ some b
    → (read b ≡ some p) × (length b ≤ 400) × (1 ≤ length (shift b))
written_lem p b h = let same : written p ≡ b = cc in rw (← same) (refl, omega arith, omega arith)

abbrev codec : TokenCodec
codec = record {
  marshal = λ p. some (written p);
  unmarshal = read;
  encode = shift;
  decode = λ b. some (unshift b);
  hmac = λ key message. (total key + total message) ∷ repeated 31 0;
  is_uuid = λ id. true;
  decode_encode = λ b. ground (arith, unshift-shift b);
  alphabet = shift_above;
  encoded_length = λ b. omega (arith, length-shift b);
  digest_length = λ key message. refl;
  unmarshal_marshal = λ p b id h. written_lem p b h;
}

abbrev access : AccessTokens
access now user session = some (now ∷ user ∷ session ∷ [])

abbrev database : UserDatabase
database = plain UserTables UserError UserError.driver

abbrev key : Bytes
key = repeated 32 7

-- Session 5 of user 3 runs until 90000 and has been refreshed twice.
abbrev session : UserSession
session = record {
  id = 5;
  user_id = 3;
  device_id = 9;
  status = 1;
  created_at = 1000;
  refreshed_at = 2000;
  not_after = 90_000;
  refresh_token_key = key;
  refresh_token_counter = 2;
  revoked_at = none;
  revoke_reason = none;
}

abbrev user : User
user = record {
  user_id = 3;
  username = 30;
  phone_number = 31;
  password_digest = [];
  account_status = 1;
  nickname = none;
  avatar_url = none;
  last_login_at = none;
}

abbrev with_session : UserSession → Session UserTables
with_session s = record {
  tables = record { sessions = s ∷ []; users = user ∷ []; devices = [] };
  now = 50_000;
  script = [];
}

abbrev payload : ℕ → RefreshTokenPayload
payload counter = record { version = 1; session_id = 5; counter = counter }

abbrev token : ℕ → Bytes
token counter =
    let text = shift (written (payload counter)) in
    text ++ 46 ∷ shift ((total key + total text) ∷ repeated 31 0)

encodes : (encode_refresh_token codec (payload 2) key) ≡ ok (token 2)
unfolding encode_refresh_token
encodes = refl

encode-decode_example :
    (parsed : ParsedRefreshToken) × (decode_refresh_token codec (token 2) ≡ ok parsed)
    × (parsed.payload ≡ payload 2)
    × (verify codec parsed key ≡ true)
encode-decode_example = encode-decode codec (payload 2) key (token 2) encodes

abbrev result : RefreshResult
result = renewed (50_000 ∷ 3 ∷ 5 ∷ []) (token 3) 50_000 session

abbrev later_session : UserSession
later_session = refreshed 50_000 session

exchanged :
    refresh codec access database (token 2) (with_session session)
    ≡ (ok result, with_session later_session)
unfolding refresh decode_refresh_token encode_refresh_token verify
    lets_go.User.Sessions.find_session lets_go.User.Sessions.find_user
    lets_go.User.Sessions.update_session lets_go.Sql.call
exchanged = refl

refresh-Outcome_example :
    Outcome
      (λ result t.
        ((result ≡ rejected Code.refresh_token_invalid) × (t ≡ (with_session session).tables))
        ⊎ ((parsed : ParsedRefreshToken) × (decode_refresh_token codec (token 2) ≡ ok parsed)
            × Refreshed codec access parsed (with_session session).tables result t))
      (λ e. Unit {0})
      (with_session session).tables
      (refresh codec access database (token 2) (with_session session))
refresh-Outcome_example = refresh-Outcome codec access database (token 2) (with_session session)

refresh_once_example :
    Denied
      (with_session later_session)
      (refresh codec access database (token 2) (with_session later_session))
refresh_once_example =
    refresh_once codec access 77 database (token 2) (with_session session)
      (with_session later_session) result (with_session later_session) (omega arith, tt) exchanged
      refl now_as_then

abbrev revoked_session : UserSession
revoked_session = record session { status = 0; revoked_at = some 3000; revoke_reason = some 77 }

abbrev parsed : ParsedRefreshToken
parsed = record {
  payload = payload 2;
  encoded_payload = shift (written (payload 2));
  signature = (total key + total (shift (written (payload 2)))) ∷ repeated 31 0;
}

decodes : decode_refresh_token codec (token 2) ≡ ok parsed
unfolding decode_refresh_token
decodes = refl

refresh_inactive_example :
    Denied
      (with_session revoked_session)
      (refresh codec access database (token 2) (with_session revoked_session))
refresh_inactive_example =
    refresh_inactive codec access 77 database (token 2) parsed revoked_session
      (with_session revoked_session).tables (with_session revoked_session) decodes refl
      (λ p. ground (arith, p)) now_as_then

abbrev logs_out : UserCall
logs_out = UserCall.logs_out (some 3) (some 5)

history-Advances_example :
    Advances
      (with_session session).tables
      (perform codec access 77 database logs_out (with_session session)).tables
history-Advances_example =
    history-Advances codec access 77 database (with_session session).tables
      (perform codec access 77 database logs_out (with_session session)).tables
      (called (with_session session).tables logs_out 50_000 [] now_as_then (omega arith, tt))
