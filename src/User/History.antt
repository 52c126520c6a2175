-- ===== src/User/History.antt =====
-- Histories of the sessions: any calls of `Refresh` and `Logout`, one transaction after another, at
-- any times and with any faults.
pub mod Advances
pub mod Final
use lets_go.Prelude.{ℕ, ◌-◌, ◌^◌, ◌<◌, Option, List, All}
use lets_go.Sql.{Moment, Session, Result}
use lets_go.User.Tables.{Ident, Time, Bytes, UserSession, UserTables}
use lets_go.User.Sessions.{UserDatabase}
use lets_go.User.Token.{TokenCodec}
use lets_go.User.Refresh.{AccessTokens, refresh}
use lets_go.User.Logout.{logout}

pub data UserCall : Type 0 where
  refreshes : Bytes → UserCall
  logs_out : Option Ident → Option Ident → UserCall

-- No counter is at its end: no session has been refreshed 2^64 - 1 times.
abbrev pub IsRoomy : UserTables → Type 0
IsRoomy t = All (λ (s : UserSession). s.refresh_token_counter < 2 ^ 64 - 1) t.sessions

module _ (codec : TokenCodec) (access : AccessTokens) (reason : Ident) (db : UserDatabase) where
  unfoldable pub perform : UserCall → Session UserTables → Session UserTables
  unfolding refresh logout
  perform (UserCall.refreshes token) s = (refresh codec access db token s).1
  perform (UserCall.logs_out user session) s = (logout reason db user session s).1

  -- `u` comes of `t` by calls.
  pub data Later (t : UserTables) : UserTables → Type 0 where
    now_as_then : Later t t
    called :
        (u : UserTables) (c : UserCall) (now : Time) (script : List Moment)
        → Later t u
        → IsRoomy u
        → Later t (perform c (record { tables = u; now = now; script = script })).tables
