-- ===== src/Sql/Plain.antt =====
-- Connections that keep the law, for examples: one whose commits succeed, and one that stores every
-- commit and loses its answer.
use lets_go.Prelude.{refl, inl, inr}
use lets_go.Sql.{Session, Result, ok, err}
use lets_go.Sql.Outcome.{Settled, Conn}

abbrev pub commit : {T E A : Type 0} → Session T → Result E A × Session T → Result E A × Session T
commit s (ok a, s') = (ok a, s')
commit s (err e, s') = (err e, record s' { tables = s.tables })

pub commit-Settled :
    {T E A : Type 0} (driver : E) (s : Session T) (r : Result E A × Session T)
    → Settled driver s r (commit s r)
commit-Settled driver s (ok a, s') = inl (refl, refl)
commit-Settled driver s (err e, s') = (inl refl, refl)

abbrev pub plain : (T E : Type 0) (driver : E) → Conn T E driver
plain T E driver = record {
  transact = λ A body s. commit s (body s);
  settles = λ A body s. commit-Settled driver s (body s);
}

abbrev pub commit_lost :
    {T E A : Type 0} → E → Session T → Result E A × Session T → Result E A × Session T
commit_lost driver s (ok a, s') = (err driver, s')
commit_lost driver s (err e, s') = (err e, record s' { tables = s.tables })

pub commit_lost-Settled :
    {T E A : Type 0} (driver : E) (s : Session T) (r : Result E A × Session T)
    → Settled driver s r (commit_lost driver s r)
commit_lost-Settled driver s (ok a, s') = inr (refl, inr refl)
commit_lost-Settled driver s (err e, s') = (inl refl, refl)

abbrev pub lossy : (T E : Type 0) (driver : E) → Conn T E driver
lossy T E driver = record {
  transact = λ A body s. commit_lost driver s (body s);
  settles = λ A body s. commit_lost-Settled driver s (body s);
}
