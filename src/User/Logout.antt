-- ===== src/User/Logout.antt =====
-- internal/logic/logoutlogic.go and getAccessClaims of token.go: the end of a session.
pub mod Ended
use lets_go.Prelude.{ℕ, Bool, not, Option, none, some, ◌==◌, if◌then◌else◌}
use lets_go.Sql.{Session, Result, ok, err, ◌>>=◌, ◌>>◌, pure}
use lets_go.User.Codes.{Code}
use lets_go.User.Tables.{Ident, Time, UserSession, UserTables, UserError}
use lets_go.User.Sessions.{UserTx, UserDatabase, find_session, update_session, revoked, time_now}

abbrev pub claim_text : Option Ident → Option Ident
claim_text none = none
claim_text (some value) = if value == 0 then none else some value

-- `getAccessClaims`, of the context's values that are texts. None is an error.
abbrev pub access_claims : Option Ident → Option Ident → Option (Ident × Ident)
access_claims user session = elim (claim_text user) [
  | none ↦ none
  | some user_id ↦ elim (claim_text session) [
    | none ↦ none
    | some session_id ↦ some (user_id, session_id)
  ]
]

module _ (reason : Ident) where
  abbrev pub end_at : UserSession → Time → UserTx Code
  end_at s now = do update_session (revoked now reason s); pure Code.success

  abbrev pub end_session : Ident → Option UserSession → UserTx Code
  end_session user_id none = pure Code.success
  end_session user_id (some s) =
      if not (s.user_id == user_id)
      then pure Code.session_not_found
      else if not (s.status == 1)
      then pure Code.success
      else time_now >>= end_at s

  pub logout_body : Ident → Ident → UserTx Code
  logout_body user_id session_id = do found ← find_session session_id; end_session user_id found

  -- The response to what the transaction returned.
  abbrev pub answer : Result UserError Code × Session UserTables → Code × Session UserTables
  answer (ok code, s) = (code, s)
  answer (err e, s) = (Code.database_error, s)

  abbrev pub logout_claimed :
      UserDatabase → Option (Ident × Ident) → Session UserTables → Code × Session UserTables
  logout_claimed db none s = (Code.access_token_invalid, s)
  logout_claimed db (some (user_id, session_id)) s =
      answer (db.transact Code (logout_body user_id session_id) s)

  -- `Logout`. `reason` is the text "logout".
  unfoldable pub logout :
      UserDatabase → Option Ident → Option Ident → Session UserTables → Code × Session UserTables
  unfolding logout_body
  logout db user session s = logout_claimed db (access_claims user session) s
