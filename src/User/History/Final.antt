-- ===== src/User/History/Final.antt =====
-- A refresh token is good for one exchange, and for none once its session has ended.
use lets_go.Prelude.{◌-◌, ◌^◌, ◌<◌, ◌≡◌, refl, sym, ap, ◌∙◌, ◌≢◌, ◌⊎◌, inl, inr, true, some, arith}
use lets_go.Sql.{Session, Result, ok, err}
use lets_go.Sql.Table.{find_row, find-update, find-All}
use lets_go.Sql.Outcome.{Outcome}
use lets_go.User.Codes.{Code}
use lets_go.User.Tables.{user_error_driver, Ident, Bytes, UserSession, UserTables, UserError}
use lets_go.User.Sessions.{UserDatabase, session_key, overwrite}
use lets_go.User.Token.{TokenCodec, ParsedRefreshToken, decode_refresh_token}
use lets_go.User.Refresh.{RefreshResult, AccessTokens, rejected, refreshed, refresh}
use lets_go.User.Refresh.Outcome.{IsRefusal, Renewal, Refreshed, refresh-Outcome}
use lets_go.User.History.{IsRoomy, Later}
use lets_go.User.History.Advances.{history-Advances}

-- The call gives out no token and changes nothing.
abbrev pub Denied :
    Session UserTables → Result UserError RefreshResult × Session UserTables → Type 0
Denied s =
    Outcome (λ result t. (result.code ≢ Code.success) × (t ≡ s.tables)) (λ e. Unit {0}) s.tables

refusal : (code : Code) → IsRefusal code → code ≢ Code.success
refusal _ IsRefusal.invalid p = cc
refusal _ IsRefusal.missing p = cc
refusal _ IsRefusal.used p = cc
refusal _ IsRefusal.inactive p = cc
refusal _ IsRefusal.expired p = cc
refusal _ IsRefusal.pending p = cc
refusal _ IsRefusal.disabled p = cc

-- Where no renewal is possible for what the token says, the call is denied.
Denied-of :
    (codec : TokenCodec) (access : AccessTokens) (db : UserDatabase) (token : Bytes)
    (s : Session UserTables)
    → ((parsed : ParsedRefreshToken) (t : UserTables) (result : RefreshResult)
        → decode_refresh_token codec token ≡ ok parsed
        → Renewal codec access parsed s.tables t result
        → ⊥)
    → Denied s (refresh codec access db token s)
Denied-of codec access db token s never =
    go (refresh codec access db token s) (refresh-Outcome codec access db token s)
  where
    Done : RefreshResult → UserTables → Type 0
    Done result t =
        ((result ≡ rejected Code.refresh_token_invalid) × (t ≡ s.tables))
        ⊎ ((parsed : ParsedRefreshToken) × (decode_refresh_token codec token ≡ ok parsed)
            × Refreshed codec access parsed s.tables result t)

    refused :
        (result : RefreshResult) (t : UserTables)
        → Done result t
        → (result.code ≢ Code.success) × (t ≡ s.tables)
    refused result t (inl (e, same)) =
        (rw e (refusal Code.refresh_token_invalid IsRefusal.invalid), same)
    refused result t (inr (parsed, read, inl (code, why, e, same))) =
        (rw e (refusal code why), same)
    refused result t (inr (parsed, read, inr renewal)) =
        elim (never parsed t result read renewal) [ ]

    go :
        (r : Result UserError RefreshResult × Session UserTables)
        → Outcome Done (λ e. Unit {0}) s.tables r
        → Denied s r
    go (ok result, s') h = refused result s'.tables h
    go (err e, s') h = (
      tt,
      elim h.1 [
        | inl same ↦ inl same
        | inr (lost, (result, stored)) ↦ inr (lost, (result, refused result s'.tables stored))
      ],
    )

-- What a successful call found.
Renewal-of :
    (codec : TokenCodec) (access : AccessTokens) (db : UserDatabase) (token : Bytes)
    (s s' : Session UserTables) (result : RefreshResult)
    → refresh codec access db token s ≡ (ok result, s')
    → result.code ≡ Code.success
    → (parsed : ParsedRefreshToken) × (decode_refresh_token codec token ≡ ok parsed)
      × Renewal codec access parsed s.tables s'.tables result
Renewal-of codec access db token s s' result done success =
    elim (rw done at (refresh-Outcome codec access db token s)) [
      | inl (e, same) ↦
          elim (refusal Code.refresh_token_invalid IsRefusal.invalid (rw e at success)) [ ]
      | inr (parsed, read, found) ↦ elim found [
        | inl (code, why, e, same) ↦ elim (refusal code why (rw e at success)) [ ]
        | inr renewal ↦ (parsed, read, renewal)
      ]
    ]

-- The session after a renewal.
renewed_session :
    (codec : TokenCodec) (access : AccessTokens) (parsed : ParsedRefreshToken)
    (before after : UserTables) (result : RefreshResult)
    → IsRoomy before
    → Renewal codec access parsed before after result
    → (a : UserSession) × (find_row (session_key parsed.payload.session_id) after.sessions ≡ some a)
      × (parsed.payload.counter < a.refresh_token_counter)
renewed_session codec access parsed before after result room h =
    let (below, fits) =
      find-All (λ (s : UserSession). s.refresh_token_counter < 2 ^ 64 - 1)
        (session_key parsed.payload.session_id) before.sessions h.session room h.held in
    let own : session_key h.session.id h.session ≡ true = ground arith in
    (
      overwrite (refreshed h.now h.session) h.session,
      rw h.stored (
          find-update (session_key parsed.payload.session_id) (session_key h.session.id)
            (overwrite (refreshed h.now h.session)) (λ r. refl) before.sessions
          ∙ rw h.held (rw own refl)),
      omega (arith, below, h.unused),
    )

-- Once a refresh token has been exchanged, no later call of `Refresh` accepts it, after any calls of
-- `Refresh` and `Logout` at any times and with any faults: it gives out no token and changes
-- nothing. It is asked that no counter is at its end.
pub refresh_once :
    (codec : TokenCodec) (access : AccessTokens) (reason : Ident) (db : UserDatabase)
    (token : Bytes) (s s' : Session UserTables) (result : RefreshResult) (u : Session UserTables)
    → IsRoomy s.tables
    → refresh codec access db token s ≡ (ok result, s')
    → result.code ≡ Code.success
    → Later codec access reason db s'.tables u.tables
    → Denied u (refresh codec access db token u)
refresh_once codec access reason db token s s' result u room done success later =
    let (parsed, read, renewal) = Renewal-of codec access db token s s' result done success in
    let (a, there, more) =
      renewed_session codec access parsed s.tables s'.tables result room renewal in
    let (b, here, (most, over)) =
      history-Advances codec access reason db s'.tables u.tables later parsed.payload.session_id a
        there in
    Denied-of codec access db token u λ parsed' t result' read' again.
      let same : parsed ≡ parsed' = cc in
      clash parsed b (omega (arith, more, most)) here t result' (rw (← same) at again)
  where
    clash :
        (parsed : ParsedRefreshToken) (b : UserSession)
        → parsed.payload.counter < b.refresh_token_counter
        → find_row (session_key parsed.payload.session_id) u.tables.sessions ≡ some b
        → (t : UserTables) (result : RefreshResult) → Renewal codec access parsed u.tables t result
        → ⊥
    clash parsed b less here t result h =
        let same : some b ≡ some h.session = sym here ∙ h.held in
        let eq : b ≡ h.session = cc in
        omega (arith, less, h.unused, ap (λ (s : UserSession). s.refresh_token_counter) eq)

-- Once a session is not active, as after a logout, no refresh token of it is accepted, after any
-- calls of `Refresh` and `Logout` at any times and with any faults: the call gives out no token and
-- changes nothing. It is asked that no counter is at its end.
pub refresh_inactive :
    (codec : TokenCodec) (access : AccessTokens) (reason : Ident) (db : UserDatabase)
    (token : Bytes) (parsed : ParsedRefreshToken) (a : UserSession) (t : UserTables)
    (u : Session UserTables)
    → decode_refresh_token codec token ≡ ok parsed
    → find_row (session_key parsed.payload.session_id) t.sessions ≡ some a
    → a.status ≢ 1
    → Later codec access reason db t u.tables
    → Denied u (refresh codec access db token u)
refresh_inactive codec access reason db token parsed a t u read there closed later =
    let (b, here, (most, over)) =
      history-Advances codec access reason db t u.tables later parsed.payload.session_id a there in
    Denied-of codec access db token u λ parsed' t' result read' again.
      let same : parsed ≡ parsed' = cc in
      clash parsed b (over closed) here t' result (rw (← same) at again)
  where
    clash :
        (parsed : ParsedRefreshToken) (b : UserSession)
        → b.status ≢ 1
        → find_row (session_key parsed.payload.session_id) u.tables.sessions ≡ some b
        → (t : UserTables) (result : RefreshResult) → Renewal codec access parsed u.tables t result
        → ⊥
    clash parsed b over here t result h =
        let same : some b ≡ some h.session = sym here ∙ h.held in
        let eq : b ≡ h.session = cc in over (ap (λ (s : UserSession). s.status) eq ∙ h.active)
