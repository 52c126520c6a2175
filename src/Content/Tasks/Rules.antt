-- ===== src/Content/Tasks/Rules.antt =====
-- Rules for the steps that the transactions of the task repository share.
use lets_go.Prelude.{◌≡◌, refl, ◌⊎◌, inl, inr, Option, none, some, if◌then◌else◌}
use lets_go.Content.Delivery.{lift_result, or_not_found}
use lets_go.Sql.{Session, Result, ok, err, ◌>>=◌, call}
use lets_go.Sql.Outcome.{Holds, Outcome, call_then}
use lets_go.Content.Errors.{error_driver, Sentinel, Error, errors_is}
use lets_go.Content.Tables.{Tables}
use lets_go.Content.Tasks.{TaskTx, replace_error}

pub replace_error-Holds :
    {A : Type 0} (target : Sentinel) (e : Error) (m : TaskTx A) (Q : A → Session Tables → Type 0)
    (P R : Error → Type 0) (s : Session Tables)
    → ((x : Error) → P x → R (if errors_is x target then e else x))
    → Holds Q P (m s)
    → Holds Q R (replace_error target e m s)
replace_error-Holds {A} target e m Q P R s map h = go (m s) h
  where
    go :
        (r : Result Error A × Session Tables)
        → Holds Q P r
        → Holds Q R (
            let (a, s') = r in
            elim a [ ok a ↦ (ok a, s') | err x ↦ (err (if errors_is x target then e else x), s') ])
    go (ok a, s') h' = h'
    go (err x, s') h' = map x h'

-- On either ending the tables satisfy what held before and what a commit establishes.
pub Outcome-keeps :
    {A : Type 0} (P : Tables → Type 0) (R : Error → Type 0) (t : Tables)
    (r : Result Error A × Session Tables)
    → P t
    → Outcome (λ a t'. P t') R t r
    → P r.1.tables
Outcome-keeps P R t (ok a, s) h o = o
Outcome-keeps P R t (err e, s) h o = elim o.1 [
  | inl same ↦ rw same h
  | inr (lost, (a, stored)) ↦ stored
]

pub Outcome-mono :
    {A : Type 0} (P Q : A → Tables → Type 0) (R R' : Error → Type 0) (t : Tables)
    (r : Result Error A × Session Tables)
    → ((a : A) (t' : Tables) → P a t' → Q a t')
    → ((e : Error) → R e → R' e)
    → Outcome P R t r
    → Outcome Q R' t r
Outcome-mono P Q R R' t (ok a, s) f g o = f a s.tables o
Outcome-mono P Q R R' t (err e, s) f g o = (
  g e o.0,
  elim o.1 [ inl same ↦ inl same | inr (lost, (a, stored)) ↦ inr (lost, (a, f a s.tables stored)) ],
)

-- Where no commit is possible, the tables are as they were.
pub Outcome-never :
    {A : Type 0} (R : Error → Type 0) (t : Tables) (r : Result Error A × Session Tables)
    → Outcome (λ _ t'. ⊥) R t r
    → r.1.tables ≡ t
Outcome-never R t (ok a, s) o = elim o [ ]
Outcome-never R t (err e, s) o = elim o.1 [
  | inl same ↦ same
  | inr (lost, (a, never)) ↦ elim never [ ]
]

-- A read by key, with `ErrNotFound` reported as another error.
pub read-Holds :
    {A : Type 0} (R : Error → Type 0) (e : Error) (rows : Tables → Option A) (s : Session Tables)
    → R Error.driver
    → R e
    → Holds
        (λ a s'. (rows s.tables ≡ some a) × (s'.tables ≡ s.tables))
        R
        (replace_error Sentinel.not_found e
          (call Error.driver (λ now t. (rows t, t)) >>= (λ found. lift_result (or_not_found found)))
          s)
unfolding errors_is
read-Holds {A} R e rows s refused missing =
    replace_error-Holds Sentinel.not_found e
      (call Error.driver (λ now t. (rows t, t)) >>= (λ found. lift_result (or_not_found found)))
      (λ a s'. (rows s.tables ≡ some a) × (s'.tables ≡ s.tables))
      (λ x. (x ≡ Error.driver) ⊎ (x ≡ Error.sentinel Sentinel.not_found)) R s
      (λ x h. elim h [ inl d ↦ rw d refused | inr n ↦ rw n missing ])
      (call_then _ Error.driver _ (λ found. lift_result (or_not_found found)) _ s (inl refl)
        λ now ms later. go (rows s.tables) (record s { now = now; script = ms }) refl refl)
  where
    go :
        (found : Option A) (s' : Session Tables)
        → rows s.tables ≡ found
        → s'.tables ≡ s.tables
        → Holds
            (λ a s''. (rows s.tables ≡ some a) × (s''.tables ≡ s.tables))
            (λ x. (x ≡ Error.driver) ⊎ (x ≡ Error.sentinel Sentinel.not_found))
            (or_not_found found, s')
    go none s' h same = inr refl
    go (some a) s' h same = (h, same)
