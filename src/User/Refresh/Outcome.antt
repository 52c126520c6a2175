-- ===== src/User/Refresh/Outcome.antt =====
-- What a call of `Refresh` has done when it returns.
use lets_go.Prelude.{
  ◌<◌, ◌≡◌, refl, ◌⊎◌, inl, inr, true, Option, none, some, ltb, ◌==◌, arith, Bool-cases,
}
use lets_go.Sql.{Session, Result, ok, err, pure}
use lets_go.Sql.Table.{find_row, update_where}
use lets_go.Sql.Outcome.{Holds, Outcome, call_then, transact-Outcome, Holds-mono}
use lets_go.User.Codes.{Code}
use lets_go.User.Tables.{user_error_driver, Time, Bytes, UserSession, User, UserTables, UserError}
use lets_go.User.Sessions.{
  UserDatabase, session_key, user_key, find_session, find_user, update_session, overwrite,
}
use lets_go.User.Token.{
  TokenCodec, ParsedRefreshToken, TokenError, encode_refresh_token, decode_refresh_token, verify,
}
use lets_go.User.Refresh.{
  RefreshResult, AccessTokens, rejected, refreshed, next_payload, renewed, store, issue,
  check_account, check_session, refresh_body, refresh_parsed, refresh,
}

-- The codes of a refusal.
pub data IsRefusal : Code → Type 0 where
  invalid : IsRefusal Code.refresh_token_invalid
  missing : IsRefusal Code.session_not_found
  used : IsRefusal Code.refresh_token_already_used
  inactive : IsRefusal Code.session_inactive
  expired : IsRefusal Code.session_expired
  pending : IsRefusal Code.account_pending
  disabled : IsRefusal Code.account_disabled

module _ (codec : TokenCodec) (access : AccessTokens) where
  -- A token that was exchanged: the session it is of, what held of it, and what was stored.
  pub record Renewal (parsed : ParsedRefreshToken) (before after : UserTables)
      (result : RefreshResult) : Type 0 where
    pub session : UserSession
    pub user : User
    pub now : Time
    pub held : find_row (session_key parsed.payload.session_id) before.sessions ≡ some session
    pub genuine : verify codec parsed session.refresh_token_key ≡ true
    pub unused : parsed.payload.counter ≡ session.refresh_token_counter
    pub active : session.status ≡ 1
    pub running : now < session.not_after
    pub account : find_row (user_key session.user_id) before.users ≡ some user
    pub normal : user.account_status ≡ 1
    pub access_token : access now user.user_id session.id ≡ some result.access_token
    pub refresh_token :
        encode_refresh_token codec (next_payload (refreshed now session)) session.refresh_token_key
        ≡ ok result.refresh_token
    pub code : result.code ≡ Code.success
    pub stored : after ≡ record before {
      sessions =
          update_where (session_key session.id) (overwrite (refreshed now session)) before.sessions;
    }

  abbrev pub Refreshed : ParsedRefreshToken → UserTables → RefreshResult → UserTables → Type 0
  Refreshed parsed before result after =
      ((code : Code) × IsRefusal code × (result ≡ rejected code) × (after ≡ before))
      ⊎ Renewal parsed before after result

  abbrev Post : ParsedRefreshToken → UserTables → RefreshResult → Session UserTables → Type 0
  Post parsed before result s' = Refreshed parsed before result s'.tables

  abbrev Any : UserError → Type 0
  Any e = Unit

  -- The session has passed every check on itself.
  record Admitted (parsed : ParsedRefreshToken) (u : UserSession) (now : Time) (before : UserTables)
      : Type 0 where
    held : find_row (session_key parsed.payload.session_id) before.sessions ≡ some u
    genuine : verify codec parsed u.refresh_token_key ≡ true
    unused : parsed.payload.counter ≡ u.refresh_token_counter
    active : u.status ≡ 1
    running : now < u.not_after

  module _ (parsed : ParsedRefreshToken) (u : UserSession) (now : Time) (s : Session UserTables)
      (h : Admitted parsed u now s.tables) where
    issue-Holds :
        (user : User) (token : Option Bytes)
        → find_row (user_key u.user_id) s.tables.users ≡ some user
        → user.account_status ≡ 1
        → access now user.user_id u.id ≡ token
        → Holds (Post parsed s.tables) Any (issue codec access now u token s)
    unfolding update_session
    issue-Holds user none account normal signed = tt
    issue-Holds user (some access_token) account normal signed =
        go (encode_refresh_token codec (next_payload (refreshed now u)) u.refresh_token_key) refl
      where
        go :
            (made : Result TokenError Bytes)
            → encode_refresh_token codec (next_payload (refreshed now u)) u.refresh_token_key ≡ made
            → Holds
                (Post parsed s.tables)
                Any
                (store codec access access_token now (refreshed now u) made s)
        go (err e) made = tt
        go (ok token) made =
            call_then Any UserError.driver _
              (λ _. pure (renewed access_token token now (refreshed now u))) (Post parsed s.tables)
              s tt
              λ now' ms later. inr (record {
                session = u;
                user = user;
                now = now;
                held = h.held;
                genuine = h.genuine;
                unused = h.unused;
                active = h.active;
                running = h.running;
                account = account;
                normal = normal;
                access_token = signed;
                refresh_token = made;
                code = refl;
                stored = refl;
              })

    account-Holds :
        (found : Option User)
        → find_row (user_key u.user_id) s.tables.users ≡ found
        → Holds (Post parsed s.tables) Any (check_account codec access now u found s)
    account-Holds none e = inl (Code.refresh_token_invalid, invalid, refl, refl)
    account-Holds (some user) e = elim (Bool-cases (user.account_status == 1)) [
      | inl normal ↦
          rw normal (issue-Holds user (access now user.user_id u.id) e (ground arith) refl)
      | inr other ↦ rw other (elim (Bool-cases (user.account_status == 2)) [
        | inl waiting ↦ rw waiting (inl (Code.account_pending, pending, refl, refl))
        | inr closed ↦ rw closed (inl (Code.account_disabled, disabled, refl, refl))
      ])
    ]

  check_session-Holds :
      (parsed : ParsedRefreshToken) (found : Option UserSession) (s : Session UserTables)
      → find_row (session_key parsed.payload.session_id) s.tables.sessions ≡ found
      → Holds (Post parsed s.tables) Any (check_session codec access parsed found s)
  unfolding find_user
  check_session-Holds parsed none s e = inl (Code.session_not_found, missing, refl, refl)
  check_session-Holds parsed (some u) s e =
      elim (Bool-cases (verify codec parsed u.refresh_token_key)) [
        | inr forged ↦ rw forged (inl (Code.refresh_token_invalid, invalid, refl, refl))
        | inl genuine ↦
            rw genuine (elim (Bool-cases (parsed.payload.counter == u.refresh_token_counter)) [
              | inr old ↦ rw old (inl (Code.refresh_token_already_used, used, refl, refl))
              | inl unused ↦ rw unused (elim (Bool-cases (u.status == 1)) [
                | inr over ↦ rw over (inl (Code.session_inactive, inactive, refl, refl))
                | inl active ↦ rw active (elim (Bool-cases (ltb s.now u.not_after)) [
                  | inr late ↦ rw late (inl (Code.session_expired, expired, refl, refl))
                  | inl running ↦ rw running (
                      call_then Any UserError.driver _ (check_account codec access s.now u)
                        (Post parsed s.tables) s tt
                        λ now ms later.
                          account-Holds parsed u s.now (record s { now = now; script = ms })
                            (record {
                              held = e;
                              genuine = genuine;
                              unused = ground arith;
                              active = ground arith;
                              running = ground arith;
                            })
                            _ refl)
                ])
              ])
            ])
      ]

  pub refresh_body-Holds :
      (parsed : ParsedRefreshToken) (s : Session UserTables)
      → Holds (Post parsed s.tables) Any (refresh_body codec access parsed s)
  unfolding refresh_body find_session
  refresh_body-Holds parsed s =
      call_then Any UserError.driver _ (check_session codec access parsed) (Post parsed s.tables) s
        tt λ now ms later. check_session-Holds parsed _ (record s { now = now; script = ms }) refl

  -- `Refresh` of a token that cannot be read is refused as invalid, and changes nothing. Else the
  -- call either fails and changes nothing; or it refuses the token under one of seven codes and
  -- changes nothing; or it succeeds, and then the token was genuine under the key of its
  -- session, carried the session's counter, and the session was active and not over, and
  -- the account normal. The session then has the next counter, the new token carries that
  -- counter, and no other session and no user has changed.
  -- The exception is a commit that is stored and whose answer is lost: the driver's error comes
  -- back, with the tables of the commit.
  pub refresh-Outcome :
      (db : UserDatabase) (token : Bytes) (s : Session UserTables)
      → Outcome
          (λ result t.
            ((result ≡ rejected Code.refresh_token_invalid) × (t ≡ s.tables))
            ⊎ ((parsed : ParsedRefreshToken) × (decode_refresh_token codec token ≡ ok parsed)
                × Refreshed parsed s.tables result t))
          Any
          s.tables
          (refresh codec access db token s)
  unfolding refresh
  refresh-Outcome db token s = go (decode_refresh_token codec token) refl
    where
      Done : RefreshResult → UserTables → Type 0
      Done result t =
          ((result ≡ rejected Code.refresh_token_invalid) × (t ≡ s.tables))
          ⊎ ((parsed : ParsedRefreshToken) × (decode_refresh_token codec token ≡ ok parsed)
              × Refreshed parsed s.tables result t)

      go :
          (parsed : Result TokenError ParsedRefreshToken)
          → decode_refresh_token codec token ≡ parsed
          → Outcome Done Any s.tables (refresh_parsed codec access db parsed s)
      go (err e) read = inl (refl, refl)
      go (ok parsed) read = transact-Outcome db Done Any (refresh_body codec access parsed) s tt (
          Holds-mono (Post parsed s.tables) (λ result s'. Done result s'.tables) Any Any
            (refresh_body codec access parsed s) (λ result s' h. inr (parsed, read, h)) (λ e h. h)
            (refresh_body-Holds parsed s))
