-- ===== src/Sql.antt =====
-- How both servers use their database: statements that run one after another in a transaction
-- (`sqlx.SqlConn`, `TransactCtx`), each of which the driver may refuse.
pub mod Table
pub mod Order
pub mod Sorted
pub mod Outcome
pub mod Frame
pub mod Plain
pub mod Insert
use lets_go.Prelude.{ℕ, ◌+◌, Bool, true, false, List, [], ◌∷◌}

-- What happens before one statement runs: the time that passes, and whether the driver refuses it.
pub record Moment : Type 0 where
  pub elapsed : ℕ
  pub refused : Bool

-- The state of a transaction: the tables, the server's clock `NOW(3)`, and what the environment
-- does to the next statements. An empty script is a driver that refuses nothing more.
pub record Session (T : Type 0) : Type 0 where
  pub tables : T
  pub now : ℕ
  pub script : List Moment

pub data Result (E A : Type 0) : Type 0 where
  ok : A → Result E A
  err : E → Result E A

abbrev pub Tx : Type 0 → Type 0 → Type 0 → Type 0
Tx T E A = Session T → Result E A × Session T

infixl 5 ◌>>=◌ ◌>>◌
abbrev pub ◌>>=◌ : {T E A B : Type 0} → Tx T E A → (A → Tx T E B) → Tx T E B
◌>>=◌ m f s = let (r, s') = m s in elim r [ ok a ↦ f a s' | err e ↦ (err e, s') ]

abbrev pub ◌>>◌ : {T E A B : Type 0} → Tx T E A → Tx T E B → Tx T E B
m >> k = m >>= λ _. k

-- The error of a driver, among the errors of a service.
pub record HasDriver (E : Type 0) : Type 0 where
  pub driver_error : E

module _ {T E A : Type 0} where
  abbrev pub pure : A → Tx T E A
  pure a s = (ok a, s)

  abbrev pub fail : E → Tx T E A
  fail e s = (err e, s)

  abbrev pub run_call : E → (ℕ → T → A × T) → List Moment → Session T → Result E A × Session T
  run_call driver f [] s = let (a, t) = f s.now s.tables in (ok a, record s { tables = t })
  run_call driver f (m ∷ ms) s = elim m.refused [
    | true ↦ (err driver, record s { now = s.now + m.elapsed; script = ms })
    | false ↦
        let (a, t) = f (s.now + m.elapsed) s.tables in
        (ok a, record { tables = t; now = s.now + m.elapsed; script = ms })
  ]

  -- One statement: a function of the clock and the tables, unless the driver refuses it.
  unfoldable pub call : E → (ℕ → T → A × T) → Tx T E A
  call driver f s = run_call driver f s.script s
