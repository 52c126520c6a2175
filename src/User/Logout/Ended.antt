-- ===== src/User/Logout/Ended.antt =====
-- What a call of `Logout` has done when it answers.
use lets_go.Prelude.{◌≡◌, refl, ◌≢◌, ◌⊎◌, inl, inr, Option, none, some, ◌==◌, arith, Bool-cases}
use lets_go.Sql.{Session, Result, ok, err, pure}
use lets_go.Sql.Table.{find_row, update_where}
use lets_go.Sql.Outcome.{Holds, Outcome, call_then, transact-Outcome}
use lets_go.User.Codes.{Code}
use lets_go.User.Tables.{user_error_driver, Ident, Time, UserSession, UserTables, UserError}
use lets_go.User.Sessions.{UserDatabase, session_key, find_session, update_session}
use lets_go.User.Logout.{access_claims, end_session, logout_body, answer, logout_claimed, logout}

module _ (reason user_id session_id : Ident) (before : UserTables) where
  -- The sessions of a committed logout.
  pub data Ended : Code → UserTables → Type 0 where
    gone : find_row (session_key session_id) before.sessions ≡ none → Ended Code.success before
    foreign :
        (s : UserSession)
        → find_row (session_key session_id) before.sessions ≡ some s
        → s.user_id ≢ user_id
        → Ended Code.session_not_found before
    inactive :
        (s : UserSession)
        → find_row (session_key session_id) before.sessions ≡ some s
        → s.user_id ≡ user_id
        → s.status ≢ 1
        → Ended Code.success before
    ended :
        (s : UserSession) (now : Time)
        → find_row (session_key session_id) before.sessions ≡ some s
        → s.user_id ≡ user_id
        → s.status ≡ 1
        → Ended Code.success (record before {
          sessions =
              update_where
                (session_key s.id)
                (λ r. record s {
                  id = r.id;
                  created_at = r.created_at;
                  status = 0;
                  revoked_at = some now;
                  revoke_reason = some reason;
                })
                before.sessions;
        })

-- What a failure leaves: the tables as they were, or those of a logout whose answer was lost.
abbrev pub Failed : Ident → Option Ident → Option Ident → UserTables → UserTables → Type 0
Failed reason user session before after =
    (after ≡ before)
    ⊎ ((user_id : Ident) × (session_id : Ident) × (access_claims user session
          ≡ some (user_id, session_id))
        × ((code : Code) × Ended reason user_id session_id before code after))

abbrev Any : UserError → Type 0
Any e = Unit

end_session-Holds :
    (reason user_id session_id : Ident) (found : Option UserSession) (s : Session UserTables)
    → find_row (session_key session_id) s.tables.sessions ≡ found
    → Holds
        (λ code s'. Ended reason user_id session_id s.tables code s'.tables)
        Any
        (end_session reason user_id found s)
unfolding update_session
end_session-Holds reason user_id session_id none s e = gone e
end_session-Holds reason user_id session_id (some u) s e =
    elim (Bool-cases (u.user_id == user_id)) [
      | inr other ↦ rw other (foreign u e (ground arith))
      | inl own ↦ rw own (elim (Bool-cases (u.status == 1)) [
        | inr over ↦ rw over (inactive u e (ground arith) (ground arith))
        | inl active ↦ rw active (
            call_then Any UserError.driver _ (λ _. pure Code.success)
              (λ code s'. Ended reason user_id session_id s.tables code s'.tables) s tt
              λ now ms later. ended u s.now e (ground arith) (ground arith))
      ])
    ]

pub logout-Ended :
    (reason : Ident) (db : UserDatabase) (user session : Option Ident) (s : Session UserTables)
    → let (code, s') = logout reason db user session s in
      ((access_claims user session ≡ none)
        × (code ≡ Code.access_token_invalid)
        × (s'.tables ≡ s.tables))
      ⊎ (((code ≡ Code.database_error) × Failed reason user session s.tables s'.tables)
          ⊎ ((user_id : Ident) × (session_id : Ident) × (access_claims user session
                ≡ some (user_id, session_id))
              × Ended reason user_id session_id s.tables code s'.tables))
unfolding logout logout_body find_session
logout-Ended reason db user session s = go (access_claims user session) refl
  where
    Answered : Code × Session UserTables → Type 0
    Answered (code, s') =
        ((access_claims user session ≡ none)
          × (code ≡ Code.access_token_invalid)
          × (s'.tables ≡ s.tables))
        ⊎ (((code ≡ Code.database_error) × Failed reason user session s.tables s'.tables)
            ⊎ ((user_id : Ident) × (session_id : Ident) × (access_claims user session
                  ≡ some (user_id, session_id))
                × Ended reason user_id session_id s.tables code s'.tables))

    settled :
        (user_id session_id : Ident) (r : Result UserError Code × Session UserTables)
        → access_claims user session ≡ some (user_id, session_id)
        → Outcome (λ code t. Ended reason user_id session_id s.tables code t) Any s.tables r
        → Answered (answer reason r)
    settled user_id session_id (ok code, s') claims h = inr (inr (user_id, session_id, claims, h))
    settled user_id session_id (err e, s') claims h = inr (
        inl (
          refl,
          elim h.1 [
            | inl same ↦ inl same
            | inr (lost, (code, stored)) ↦ inr (user_id, session_id, claims, (code, stored))
          ],
        ))

    go :
        (claims : Option (Ident × Ident))
        → access_claims user session ≡ claims
        → Answered (logout_claimed reason db claims s)
    go none e = inl (e, refl, refl)
    go (some (user_id, session_id)) e =
        settled user_id session_id (db.transact Code (logout_body reason user_id session_id) s) e (
          transact-Outcome db (λ code t. Ended reason user_id session_id s.tables code t) Any
            (logout_body reason user_id session_id) s tt
            (call_then Any UserError.driver _ (end_session reason user_id)
              (λ code s'. Ended reason user_id session_id s.tables code s'.tables) s tt
              λ now ms later.
                end_session-Holds reason user_id session_id _ (record s { now = now; script = ms })
                  refl))
