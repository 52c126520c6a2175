-- ===== src/User/History/Advances.antt =====
-- No call of `Refresh` or `Logout` counts a session down or revives it.
use lets_go.Prelude.{
  ◌-◌, ◌^◌, ◌≤◌, ◌<◌, ◌≡◌, refl, sym, ◌∙◌, ◌≢◌, ◌⊎◌, inl, inr, some, List, [], ◌∷◌, arith,
  Bool-cases, All,
}
use lets_go.Sql.{Session, Result, ok, err}
use lets_go.Sql.Table.{find_row, update_where, updated, find-update, find-All}
use lets_go.Sql.Outcome.{Outcome}
use lets_go.User.Codes.{Code}
use lets_go.User.Tables.{user_error_driver, Ident, UserSession, UserTables, UserError}
use lets_go.User.Sessions.{UserDatabase, session_key, overwrite, revoked}
use lets_go.User.Token.{TokenCodec, ParsedRefreshToken, decode_refresh_token}
use lets_go.User.Refresh.{RefreshResult, AccessTokens, rejected, refreshed}
use lets_go.User.Refresh.Outcome.{Renewal, Refreshed, refresh-Outcome}
use lets_go.User.Logout.Ended.{Ended, gone, foreign, inactive, ended, logout-Ended}
use lets_go.User.History.{UserCall, IsRoomy, perform, Later, now_as_then, called}

-- Every session is still there, has not been counted down, and is not active if it was not.
abbrev pub Follows : UserSession → UserSession → Type 0
Follows a b = (a.refresh_token_counter ≤ b.refresh_token_counter) × (a.status ≢ 1 → b.status ≢ 1)

abbrev pub Advances : UserTables → UserTables → Type 0
Advances before after =
    (id : Ident) (a : UserSession)
    → find_row (session_key id) before.sessions ≡ some a
    → (b : UserSession) × (find_row (session_key id) after.sessions ≡ some b) × Follows a b

Advances-refl : (t : UserTables) → Advances t t
Advances-refl t id a h = (a, h, (omega arith, λ p. p))

Advances-trans : (t u v : UserTables) → Advances t u → Advances u v → Advances t v
Advances-trans t u v h k id a found =
    let (b, there, (more, over)) = h id a found in
    let (c, here, (most, still)) = k id b there in
    (c, here, (omega (arith, more, most), λ p. still (over p)))

-- One session, which was found by its key, is overwritten by one that follows it.
overwrite-Advances :
    (t : UserTables) (key : Ident) (s s' : UserSession)
    → find_row (session_key key) t.sessions ≡ some s
    → s'.id ≡ s.id
    → Follows s s'
    → Advances t (record t { sessions = update_where (session_key s.id) (overwrite s') t.sessions })
overwrite-Advances t key s s' held same follows id a found =
    elim (Bool-cases (session_key s.id a)) [
      | inl hit ↦ (overwrite s' a, after ∙ rw hit refl, own (ground arith))
      | inr miss ↦ (a, after ∙ rw miss refl, (omega arith, λ p. p))
    ]
  where
    after :
        find_row (session_key id) (update_where (session_key s.id) (overwrite s') t.sessions)
        ≡ updated (session_key s.id) (overwrite s') (some a)
    after =
        find-update (session_key id) (session_key s.id) (overwrite s') (λ r. refl) t.sessions
        ∙ rw found refl

    keys : (k : Ident) (x : UserSession) → find_row (session_key k) t.sessions ≡ some x → x.id ≡ k
    keys k x h =
        let (none_asked, fits) =
          find-All (λ r. Unit {0}) (session_key k) t.sessions x (everywhere t.sessions) h in
        ground arith
      where
        everywhere : (rows : List UserSession) → All (λ r. Unit {0}) rows
        everywhere [] = tt
        everywhere (x ∷ rows) = (tt, everywhere rows)

    own : a.id ≡ s.id → Follows a s'
    own p =
        let q : id ≡ key = sym (keys id a found) ∙ p ∙ keys key s held in
        let r : some a ≡ some s = sym found ∙ rw q held in let eq : a ≡ s = cc in rw eq follows

Renewal-Advances :
    (codec : TokenCodec) (access : AccessTokens) (parsed : ParsedRefreshToken)
    (before after : UserTables) (result : RefreshResult)
    → IsRoomy before
    → Renewal codec access parsed before after result
    → Advances before after
Renewal-Advances codec access parsed before after result room h =
    let (below, fits) =
      find-All (λ (s : UserSession). s.refresh_token_counter < 2 ^ 64 - 1)
        (session_key parsed.payload.session_id) before.sessions h.session room h.held in
    rw h.stored (
      overwrite-Advances before parsed.payload.session_id h.session (refreshed h.now h.session)
        h.held refl (omega (arith, below), λ p. p))

Ended-Advances :
    (reason user_id session_id : Ident) (before after : UserTables) (code : Code)
    → Ended reason user_id session_id before code after
    → Advances before after
Ended-Advances reason user_id session_id before _ _ (gone h) = Advances-refl before
Ended-Advances reason user_id session_id before _ _ (foreign s h p) = Advances-refl before
Ended-Advances reason user_id session_id before _ _ (inactive s h p q) = Advances-refl before
Ended-Advances reason user_id session_id before _ _ (ended s now h p q) =
    overwrite-Advances before session_id s (revoked now reason s) h refl
      (omega arith, λ r. ground arith)

outcome_tables :
    {A : Type 0} (Q : A → UserTables → Type 0) (R : UserError → Type 0) (P : UserTables → Type 0)
    (t : UserTables) (r : Result UserError A × Session UserTables)
    → P t
    → ((a : A) (t' : UserTables) → Q a t' → P t')
    → Outcome Q R t r
    → P r.1.tables
outcome_tables Q R P t (ok a, s) start commits h = commits a s.tables h
outcome_tables Q R P t (err e, s) start commits h = elim h.1 [
  | inl same ↦ rw same start
  | inr (lost, (a, stored)) ↦ commits a s.tables stored
]

perform-Advances :
    (codec : TokenCodec) (access : AccessTokens) (reason : Ident) (db : UserDatabase) (c : UserCall)
    (s : Session UserTables)
    → IsRoomy s.tables
    → Advances s.tables (perform codec access reason db c s).tables
unfolding perform
perform-Advances codec access reason db (UserCall.refreshes token) s room =
    outcome_tables _ _ (Advances s.tables) s.tables _ (Advances-refl s.tables) commits
      (refresh-Outcome codec access db token s)
  where
    commits :
        (result : RefreshResult) (t : UserTables)
        → ((result ≡ rejected Code.refresh_token_invalid) × (t ≡ s.tables))
          ⊎ ((parsed : ParsedRefreshToken) × (decode_refresh_token codec token ≡ ok parsed)
              × Refreshed codec access parsed s.tables result t)
        → Advances s.tables t
    commits result t (inl (e, same)) = rw same (Advances-refl s.tables)
    commits result t (inr (parsed, read, inl (code, refusal, e, same))) =
        rw same (Advances-refl s.tables)
    commits result t (inr (parsed, read, inr renewal)) =
        Renewal-Advances codec access parsed s.tables t result room renewal
perform-Advances codec access reason db (UserCall.logs_out user session) s room =
    elim (logout-Ended reason db user session s) [
      | inl (claims, code, same) ↦ rw same (Advances-refl s.tables)
      | inr answered ↦ elim answered [
        | inl (code, failed) ↦ elim failed [
          | inl same ↦ rw same (Advances-refl s.tables)
          | inr (user_id, session_id, claims, (answer, ended_so)) ↦
              Ended-Advances reason user_id session_id s.tables _ _ ended_so
        ]
        | inr (user_id, session_id, claims, ended_so) ↦
            Ended-Advances reason user_id session_id s.tables _ _ ended_so
      ]
    ]

-- After any calls of `Refresh` and `Logout`, at any times and with any faults, while no counter
-- is at its end: every session is still there, its counter has not gone down, and it is not
-- active if it was not.
pub history-Advances :
    (codec : TokenCodec) (access : AccessTokens) (reason : Ident) (db : UserDatabase)
    (t u : UserTables)
    → Later codec access reason db t u
    → Advances t u
history-Advances codec access reason db t _ now_as_then = Advances-refl t
history-Advances codec access reason db t _ (called u c now script before room) =
    Advances-trans t u
      (perform codec access reason db c (record { tables = u; now = now; script = script })).tables
      (history-Advances codec access reason db t u before)
      (perform-Advances codec access reason db c (record { tables = u; now = now; script = script })
        room)
