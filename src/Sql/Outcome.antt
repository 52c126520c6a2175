-- ===== src/Sql/Outcome.antt =====
-- How a transaction ends: with a commit that satisfies a postcondition, or with an error that
-- leaves every table as it was, unless it is the driver's and the commit was lost on the way.
use lets_go.Prelude.{ℕ, ◌+◌, ◌≤◌, ◌≡◌, refl, Bool, true, false, List, [], ◌∷◌, ◌⊎◌, inl, inr, arith}
use lets_go.Sql.{HasDriver, pure, Moment, Session, Result, ok, err, Tx, ◌>>=◌, call, run_call}

-- `TransactCtx`, which is not this repository's code. The work of a callback that returns nil is
-- committed, unless the commit itself fails; then the driver's error comes back, and the work may
-- be lost or stored (contentServer/docs/worker.md asks for both). Else all is rolled back.
abbrev pub Settled :
    {T E A : Type 0} → E → Session T → Result E A × Session T → Result E A × Session T → Type 0
Settled driver s (ok a, s') r =
    ((r.0 ≡ ok a) × (r.1.tables ≡ s'.tables))
    ⊎ ((r.0 ≡ err driver) × ((r.1.tables ≡ s.tables) ⊎ (r.1.tables ≡ s'.tables)))
Settled driver s (err e, s') r = ((r.0 ≡ err e) ⊎ (r.0 ≡ err driver)) × (r.1.tables ≡ s.tables)

pub record Conn (T E : Type 0) (driver : E) : Type 1 where
  pub transact : (A : Type 0) → Tx T E A → Tx T E A
  pub settles :
      (A : Type 0) (body : Tx T E A) (s : Session T) → Settled driver s (body s) (transact A body s)

-- A postcondition inside a transaction: what a step returns and the state then, or its error.
abbrev pub Holds :
    {T E A : Type 0} → (A → Session T → Type 0) → (E → Type 0) → Result E A × Session T → Type 0
Holds Q R (ok a, s) = Q a s
Holds Q R (err e, s) = R e

-- What an error leaves: the tables as they were; or, where it is the driver's, what a commit leaves
-- whose answer was lost.
abbrev pub Leaves : {T E A : Type 0} ⦃d : HasDriver E⦄ → (A → T → Type 0) → T → E → T → Type 0
Leaves {A = A} ⦃d⦄ Q t e u = (u ≡ t) ⊎ ((e ≡ d.driver_error) × ((a : A) × Q a u))

abbrev pub Outcome :
    {T E A : Type 0} ⦃d : HasDriver E⦄
    → (A → T → Type 0)
    → (E → Type 0)
    → T
    → Result E A × Session T
    → Type 0
Outcome Q R t (ok a, s) = Q a s.tables
Outcome Q R t (err e, s) = R e × Leaves Q t e s.tables

module _ {T E A : Type 0} (R : E → Type 0) where
  -- One statement: it runs at a later time on the same tables, or the driver's error comes back.
  pub call-Holds :
      (driver : E) (f : ℕ → T → A × T) (Q : A → Session T → Type 0) (s : Session T)
      → ((now : ℕ) (ms : List Moment)
          → s.now ≤ now
          → Q (f now s.tables).0 (record { tables = (f now s.tables).1; now = now; script = ms }))
      → R driver
      → Holds Q R (call driver f s)
  unfolding call
  call-Holds driver f Q s h r = go s.script
    where
      answer :
          (m : Moment) (ms : List Moment) (b : Bool)
          → m.refused ≡ b
          → Holds Q R (run_call driver f (m ∷ ms) s)
      answer m ms true e = rw e r
      answer m ms false e = rw e (h (s.now + m.elapsed) ms (omega arith))

      go : (ms : List Moment) → Holds Q R (run_call driver f ms s)
      go [] = h s.now s.script (omega arith)
      go (m ∷ ms) = answer m ms m.refused refl

  pub bind-Holds :
      {B : Type 0} (m : Tx T E A) (f : A → Tx T E B) (P : A → Session T → Type 0)
      (Q : B → Session T → Type 0) (s : Session T)
      → Holds P R (m s)
      → ((a : A) (s' : Session T) → P a s' → Holds Q R (f a s'))
      → Holds Q R ((m >>= f) s)
  bind-Holds {B} m f P Q s h k = go (m s) h
    where
      go :
          (r : Result E A × Session T)
          → Holds P R r
          → Holds Q R (let (a, s') = r in elim a [ ok a ↦ f a s' | err e ↦ (err e, s') ])
      go (ok a, s') h' = k a s' h'
      go (err e, s') h' = h'

-- Two postconditions of one run.
pub Holds-both :
    {T E A : Type 0} (Q Q' : A → Session T → Type 0) (R R' : E → Type 0)
    (o : Result E A × Session T)
    → Holds Q R o
    → Holds Q' R' o
    → Holds (λ a s. Q a s × Q' a s) R' o
Holds-both Q Q' R R' (ok a, s) h k = (h, k)
Holds-both Q Q' R R' (err e, s) h k = k

-- A statement and what follows it.
pub call_then :
    {T E A B : Type 0} (R : E → Type 0) (driver : E) (f : ℕ → T → A × T) (k : A → Tx T E B)
    (Q : B → Session T → Type 0) (s : Session T)
    → R driver
    → ((now : ℕ) (ms : List Moment)
        → s.now ≤ now
        → Holds Q R
            (k (f now s.tables).0 (record { tables = (f now s.tables).1; now = now; script = ms })))
    → Holds Q R ((call driver f >>= k) s)
call_then R driver f k Q s r h =
    bind-Holds R (call driver f) k (λ a s'. Holds Q R (k a s')) Q s
      (call-Holds R driver f (λ a s'. Holds Q R (k a s')) s h r) (λ a s' p. p)

pub transact-Outcome :
    {T E A : Type 0} ⦃d : HasDriver E⦄ (conn : Conn T E d.driver_error) (Q : A → T → Type 0)
    (R : E → Type 0) (body : Tx T E A) (s : Session T)
    → R d.driver_error
    → Holds (λ a s'. Q a s'.tables) R (body s)
    → Outcome Q R s.tables (conn.transact A body s)
transact-Outcome {T} {E} {A} ⦃d⦄ conn Q R body s r h =
    go (body s) (conn.transact A body s) h (conn.settles A body s)
  where
    go :
        (b : Result E A × Session T) (t : Result E A × Session T)
        → Holds (λ a s'. Q a s'.tables) R b
        → Settled d.driver_error s b t
        → Outcome Q R s.tables t
    go (ok a, s') (ok a', u) h' (inl (e, same)) = let p : a' ≡ a = cc in rw (p, same) h'
    go (ok a, s') (ok a', u) h' (inr (e, same)) = cc
    go (ok a, s') (err e', u) h' (inl (e, same)) = cc
    go (ok a, s') (err e', u) h' (inr (e, same)) =
        let p : e' ≡ d.driver_error = cc in
        (rw p r, elim same [ inl lost ↦ inl lost | inr stored ↦ inr (p, (a, rw stored h')) ])
    go (err x, s') (ok a', u) h' (e, same) = elim e [ inl p ↦ cc | inr p ↦ cc ]
    go (err x, s') (err e', u) h' (e, same) = elim e [
      | inl p ↦ let q : e' ≡ x = cc in (rw q h', inl same)
      | inr p ↦ let q : e' ≡ d.driver_error = cc in (rw q r, inl same)
    ]

pub Holds-mono :
    {T E A : Type 0} (P Q : A → Session T → Type 0) (R S : E → Type 0) (r : Result E A × Session T)
    → ((a : A) (s : Session T) → P a s → Q a s)
    → ((e : E) → R e → S e)
    → Holds P R r
    → Holds Q S r
Holds-mono P Q R S (ok a, s) f g h = f a s h
Holds-mono P Q R S (err e, s) f g h = g e h

-- One statement outside a transaction.
pub call-Outcome :
    {T E A : Type 0} ⦃d : HasDriver E⦄ (driver : E) (f : ℕ → T → A × T) (Q : A → T → Type 0)
    (R : E → Type 0) (s : Session T)
    → R driver
    → ((now : ℕ) → Q (f now s.tables).0 (f now s.tables).1)
    → Outcome Q R s.tables (call driver f s)
unfolding call
call-Outcome {T} {E} {A} driver f Q R s r h = go s.script
  where
    answer :
        (m : Moment) (ms : List Moment) (b : Bool)
        → m.refused ≡ b
        → Outcome Q R s.tables (run_call driver f (m ∷ ms) s)
    answer m ms true e = rw e (r, inl refl)
    answer m ms false e = rw e (h (s.now + m.elapsed))

    go : (ms : List Moment) → Outcome Q R s.tables (run_call driver f ms s)
    go [] = h s.now
    go (m ∷ ms) = answer m ms m.refused refl

-- What is made of a result.
pub Outcome-map :
    {T E A B : Type 0} ⦃d : HasDriver E⦄ (f : A → B) (Q : A → T → Type 0) (Q' : B → T → Type 0)
    (R : E → Type 0) (t : T) (m : Tx T E A) (s : Session T)
    → ((a : A) (u : T) → Q a u → Q' (f a) u)
    → Outcome Q R t (m s)
    → Outcome Q' R t ((m >>= λ a. pure (f a)) s)
Outcome-map {T} {E} {A} {B} f Q Q' R t m s g h = go (m s) h
  where
    go :
        (o : Result E A × Session T)
        → Outcome Q R t o
        → Outcome Q' R t (let (a, s') = o in elim a [ ok a ↦ (ok (f a), s') | err e ↦ (err e, s') ])
    go (ok a, s') p = g a s'.tables p
    go (err e, s') p = (
      p.0,
      elim p.1 [ inl same ↦ inl same | inr (lost, (a, q)) ↦ inr (lost, (f a, g a s'.tables q)) ],
    )
