-- ===== src/Sql/Frame.antt =====
-- Parts of the tables that a step leaves alone, whether it succeeds or not.
use lets_go.Prelude.{ℕ, ◌+◌, ◌≡◌, refl, ◌∙◌, Bool, true, false, List, [], ◌∷◌}
use lets_go.Sql.{Moment, Session, Result, ok, err, Tx, ◌>>=◌, call, run_call}

module _ {T E X : Type 0} (part : T → X) where
  abbrev pub Fixes : {A : Type 0} → Tx T E A → Type 0
  Fixes m = (s : Session T) → part (m s).1.tables ≡ part s.tables

  pub bind-Fixes :
      {A B : Type 0} (m : Tx T E A) (f : A → Tx T E B)
      → Fixes m
      → ((a : A) → Fixes (f a))
      → Fixes (m >>= f)
  bind-Fixes {A} {B} m f h k s = go (m s) (h s)
    where
      go :
          (r : Result E A × Session T)
          → part r.1.tables ≡ part s.tables
          → let after : Result E B × Session T =
              (let (a, s') = r in elim a [ ok a ↦ f a s' | err e ↦ (err e, s') ]) in
            part after.1.tables ≡ part s.tables
      go (ok a, s') e = k a s' ∙ e
      go (err x, s') e = e

  pub call-Fixes :
      {A : Type 0} (driver : E) (f : ℕ → T → A × T)
      → ((now : ℕ) (t : T) → part (f now t).1 ≡ part t)
      → Fixes (call driver f)
  unfolding call
  call-Fixes {A} driver f h s = go s.script
    where
      answer :
          (m : Moment) (ms : List Moment) (b : Bool)
          → m.refused ≡ b
          → part (run_call driver f (m ∷ ms) s).1.tables ≡ part s.tables
      answer m ms true e = rw e refl
      answer m ms false e = rw e (h (s.now + m.elapsed) s.tables)

      go : (ms : List Moment) → part (run_call driver f ms s).1.tables ≡ part s.tables
      go [] = h s.now s.tables
      go (m ∷ ms) = answer m ms m.refused refl
