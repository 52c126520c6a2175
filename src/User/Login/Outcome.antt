-- ===== src/User/Login/Outcome.antt =====
-- What a login by password has done when it answers.
use lets_go.Prelude.{
  ◌≡◌, refl, ◌⊎◌, ◌≢◌, inl, inr, Bool, true, false, Option, none, some, ◌==◌, arith, Bool-cases,
}
use lets_go.Sql.{Session, Result, ok, err}
use lets_go.Sql.Table.{find_row}
use lets_go.Sql.Outcome.{Outcome, transact-Outcome, call-Outcome, Outcome-map, Holds-mono}
use lets_go.User.Codes.{Code}
use lets_go.User.Tables.{
  user_error_driver, Ident, Time, Bytes, User, UserDevice, UserTables, UserError,
}
use lets_go.User.Sessions.{UserDatabase}
use lets_go.User.Token.{TokenError, encode_refresh_token}
use lets_go.User.Device.{DeviceInfo, trimmed, bad_device}
use lets_go.User.Device.Resolve.{ResolveError}
use lets_go.User.Login.Opened.{Opened, login_body-Holds}
use lets_go.User.Login.{
  IdentifierType, LoginRequest, LoginInputs, LoginResult, rejected_login, phone_key, username_key,
  find_by, login_body, logged_in, first_payload, finalize_token, finalize_key, finalize_access,
  finalize_login, login_answer, named_device, login_user, login_found, login_as, login_by_password,
}

-- The user that a request names
abbrev pub user_of : LoginRequest → UserTables → Option User
user_of req t = elim req.identifier_type [
  | IdentifierType.by_phone ↦ find_row (phone_key req.identifier) t.users
  | IdentifierType.by_username ↦ find_row (username_key req.identifier) t.users
  | IdentifierType.by_other ↦ none
]

module _ (inputs : LoginInputs) (req : LoginRequest) where
  -- The device as it is after the checks
  abbrev pub device_info : DeviceInfo
  device_info = trimmed inputs.devices (named_device inputs req.device)

  abbrev pub device_name : Ident
  device_name = inputs.devices.ident device_info.device_id

  -- A login of a user that was found.
  pub record LoggedIn (user : User) (before after : UserTables) (result : LoginResult)
      : Type 0 where
    pub now : Time
    pub key : Bytes
    pub device : UserDevice
    pub known_key : inputs.key ≡ some key
    pub access : inputs.access now user.user_id inputs.session_id ≡ some result.access_token
    pub refresh :
        encode_refresh_token inputs.codec (first_payload inputs) key ≡ ok result.refresh_token
    pub opened : Opened inputs user device_info now key before device after
    pub answer : (result.code ≡ Code.success) × (result.device_id ≡ device.id)

  -- Who is let in, up to the device
  pub record Entitled (t : UserTables) (user : User) : Type 0 where
    pub found : user_of req t ≡ some user
    pub password : inputs.compare user.password_digest req.password ≡ true
    pub normal : user.account_status ≡ 1
    pub device_fits : bad_device inputs.devices device_info ≡ false

  pub data Refusal (t : UserTables) : LoginResult → Type 0 where
    untyped :
        req.identifier_type ≡ IdentifierType.by_other
        → Refusal t (rejected_login Code.invalid_login_identifier_type 0)
    failed : Refusal t (rejected_login Code.database_error 0)
    unknown : user_of req t ≡ none → Refusal t (rejected_login Code.login_credential_invalid 0)
    wrong_password :
        (user : User)
        → user_of req t ≡ some user
        → inputs.compare user.password_digest req.password ≡ false
        → Refusal t (rejected_login Code.login_credential_invalid 0)
    pending :
        (user : User)
        → user_of req t ≡ some user
        → inputs.compare user.password_digest req.password ≡ true
        → user.account_status ≡ 2
        → Refusal t (rejected_login Code.account_pending 0)
    closed :
        (user : User)
        → user_of req t ≡ some user
        → inputs.compare user.password_digest req.password ≡ true
        → user.account_status ≢ 1
        → user.account_status ≢ 2
        → Refusal t (rejected_login Code.account_disabled 0)
    bad_info :
        (user : User)
        → user_of req t ≡ some user
        → inputs.compare user.password_digest req.password ≡ true
        → user.account_status ≡ 1
        → bad_device inputs.devices device_info ≡ true
        → Refusal t (rejected_login Code.invalid_device_info device_name)
    unusable :
        (user : User)
        → Entitled t user
        → Refusal t (rejected_login Code.device_disabled device_name)
    broken :
        (user : User) → Entitled t user → Refusal t (rejected_login Code.internal_error device_name)

  -- A login that was stored and whose answer was lost on the way from the database.
  abbrev pub Unanswered : UserTables → LoginResult × Session UserTables → Type 0
  Unanswered before (result, s') =
      (result ≡ rejected_login Code.internal_error device_name)
      × ((user : User) × Entitled before user
          × ((meant : LoginResult) × LoggedIn user before s'.tables meant))

  abbrev pub Answered : UserTables → LoginResult × Session UserTables → Type 0
  Answered before (result, s') =
      (Refusal before result × (s'.tables ≡ before))
      ⊎ (((user : User) × Entitled before user × LoggedIn user before s'.tables result)
          ⊎ Unanswered before (result, s'))

  abbrev Any : UserError → Type 0
  Any e = Unit

  module _ (db : UserDatabase) (user : User) (s : Session UserTables) where
    abbrev Done : LoginResult → UserTables → Type 0
    Done result t = LoggedIn user s.tables t result

    finalize_token-Outcome :
        (access key : Bytes) (made : Result TokenError Bytes)
        → inputs.access s.now user.user_id inputs.session_id ≡ some access
        → inputs.key ≡ some key
        → encode_refresh_token inputs.codec (first_payload inputs) key ≡ made
        → Outcome Done Any s.tables
            (finalize_token inputs db user device_info s.now access key made s)
    finalize_token-Outcome access key (err e) a k m = (tt, inl refl)
    finalize_token-Outcome access key (ok token) a k m =
        Outcome-map (logged_in inputs access token)
          (λ d t. Opened inputs user device_info s.now key s.tables d t) Done Any s.tables
          (db.transact UserDevice (login_body inputs user device_info s.now key)) s
          (λ d t opened. record {
            now = s.now;
            key = key;
            device = d;
            known_key = k;
            access = a;
            refresh = m;
            opened = opened;
            answer = (refl, refl);
          })
          (transact-Outcome db (λ d t. Opened inputs user device_info s.now key s.tables d t) Any
            (login_body inputs user device_info s.now key) s tt
            (Holds-mono (λ d s'. Opened inputs user device_info s.now key s.tables d s'.tables)
              (λ d s'. Opened inputs user device_info s.now key s.tables d s'.tables)
              (ResolveError inputs.devices user.user_id device_info) Any
              (login_body inputs user device_info s.now key s) (λ d s' h. h) (λ e h. tt)
              (login_body-Holds inputs user device_info s.now key s)))

    finalize_key-Outcome :
        (access : Bytes) (key : Option Bytes)
        → inputs.access s.now user.user_id inputs.session_id ≡ some access
        → inputs.key ≡ key
        → Outcome Done Any s.tables (finalize_key inputs db user device_info s.now access key s)
    finalize_key-Outcome access none a k = (tt, inl refl)
    finalize_key-Outcome access (some key) a k = finalize_token-Outcome access key _ a k refl

    finalize_access-Outcome :
        (access : Option Bytes)
        → inputs.access s.now user.user_id inputs.session_id ≡ access
        → Outcome Done Any s.tables (finalize_access inputs db user device_info s.now access s)
    finalize_access-Outcome none a = (tt, inl refl)
    finalize_access-Outcome (some access) a = finalize_key-Outcome access inputs.key a refl

    login_answer-Answered :
        (o : Result UserError LoginResult × Session UserTables)
        → Entitled s.tables user
        → Outcome Done Any s.tables o
        → Answered s.tables (login_answer inputs device_info o)
    login_answer-Answered (ok result, s') entitled done = inr (inl (user, entitled, done))
    login_answer-Answered (err UserError.device_disabled, s') entitled (t, left) = elim left [
      | inl same ↦ inl (unusable user entitled, same)
      | inr (lost, (meant, stored)) ↦ cc
    ]
    login_answer-Answered (err UserError.driver, s') entitled (t, left) = elim left [
      | inl same ↦ inl (broken user entitled, same)
      | inr (lost, (meant, stored)) ↦ inr (inr (refl, (user, entitled, (meant, stored))))
    ]
    login_answer-Answered (err UserError.sign_failed, s') entitled (t, left) = elim left [
      | inl same ↦ inl (broken user entitled, same)
      | inr (lost, (meant, stored)) ↦ cc
    ]
    login_answer-Answered (err UserError.encode_failed, s') entitled (t, left) = elim left [
      | inl same ↦ inl (broken user entitled, same)
      | inr (lost, (meant, stored)) ↦ cc
    ]
    login_answer-Answered (err UserError.random_failed, s') entitled (t, left) = elim left [
      | inl same ↦ inl (broken user entitled, same)
      | inr (lost, (meant, stored)) ↦ cc
    ]

    login_user-Answered :
        user_of req s.tables ≡ some user → Answered s.tables (login_user inputs db req user s)
    login_user-Answered found =
        elim (Bool-cases (inputs.compare user.password_digest req.password)) [
          | inr wrong ↦ rw wrong (inl (wrong_password user found wrong, refl))
          | inl right ↦ rw right (elim (Bool-cases (user.account_status == 1)) [
            | inl normal ↦ rw normal (elim (Bool-cases (bad_device inputs.devices device_info)) [
              | inl bad ↦ rw bad (inl (bad_info user found right (ground arith) bad, refl))
              | inr fits ↦ rw fits (
                  login_answer-Answered (finalize_login inputs db user device_info s)
                    (record {
                      found = found;
                      password = right;
                      normal = ground arith;
                      device_fits = fits;
                    })
                    (finalize_access-Outcome _ refl))
            ])
            | inr other ↦ rw other (elim (Bool-cases (user.account_status == 2)) [
              | inl two ↦ rw two (inl (pending user found right (ground arith), refl))
              | inr neither ↦
                  rw neither (inl (closed user found right (ground arith) (ground arith), refl))
            ])
          ])
        ]

  moved :
      (t before : UserTables)
      → t ≡ before
      → (o : LoginResult × Session UserTables) → Answered t o
      → Answered before o
  moved t before same (result, s') h = rw same at h

  login_found-Answered :
      (db : UserDatabase) (before : UserTables)
      (o : Result UserError (Option User) × Session UserTables)
      → Outcome (λ found t. (user_of req before ≡ found) × (t ≡ before)) Any before o
      → Answered before (login_found inputs db req o)
  login_found-Answered db before (err e, s) (t, left) = elim left [
    | inl same ↦ inl (failed, same)
    | inr (lost, (found, same)) ↦ inl (failed, same.1)
  ]
  login_found-Answered db before (ok none, s) (found, same) = inl (unknown found, same)
  login_found-Answered db before (ok (some user), s) (found, same) =
      moved s.tables before same (login_user inputs db req user s)
        (login_user-Answered db user s (rw same found))

  read-Outcome :
      (key : User → Bool) (s : Session UserTables)
      → Outcome
          (λ found t. (find_row key s.tables.users ≡ found) × (t ≡ s.tables))
          Any
          s.tables
          (find_by key s)
  unfolding find_by
  read-Outcome key s =
      call-Outcome UserError.driver (λ now t. (find_row key t.users, t))
        (λ found t. (find_row key s.tables.users ≡ found) × (t ≡ s.tables)) Any s tt
        λ now. (refl, refl)

  -- `LoginByPassword` either refuses, without tokens and without any change: for an unknown type of
  -- identifier, a user that is not there, a wrong password, an account that is not normal, a device
  -- that is not described well or may not be used, or a failure. Or the user that the request
  -- names is there and normal, the password matches and the device fits. Then a new, active session
  -- of counter 0 was stored with the device of the login, which is new or was the user's and may
  -- be used, and with the time of the user's login; no other table, session, user or device has
  -- changed; and the answer has the access token of that session and the refresh token that its
  -- key signs. Where the answer of the commit is lost, such a login may be stored although the call
  -- answers an internal error without tokens.
  pub login_by_password-Answered :
      (db : UserDatabase) (s : Session UserTables)
      → Answered s.tables (login_by_password inputs db req s)
  unfolding login_by_password
  login_by_password-Answered db s = go req.identifier_type refl
    where
      go :
          (type : IdentifierType)
          → req.identifier_type ≡ type
          → Answered s.tables (login_as inputs db req type s)
      go IdentifierType.by_other e = inl (untyped e, refl)
      go IdentifierType.by_phone e =
          login_found-Answered db s.tables (find_by (phone_key req.identifier) s)
            (rw e (read-Outcome (phone_key req.identifier) s))
      go IdentifierType.by_username e =
          login_found-Answered db s.tables (find_by (username_key req.identifier) s)
            (rw e (read-Outcome (username_key req.identifier) s))
