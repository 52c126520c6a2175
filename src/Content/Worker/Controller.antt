-- ===== src/Content/Worker/Controller.antt =====
-- The handlers that `TaskController` of internal/event/task.go finds after `Register`.
use lets_go.Prelude.{
  ◌≡◌, ◌≢◌, refl, sym, inl, inr, true, false, some, is_none, ◌∷◌, ◌==◌, arith, Bool-cases,
}
use lets_go.Sql.{Session, ok, err}
use lets_go.Content.Errors.{Message, Error}
use lets_go.Content.Tables.{Ident, Tables}
use lets_go.Content.Tasks.{TaskContext}
use lets_go.Content.Worker.{TaskHandler, TaskController, find_handler, register, handle}

register-accepted :
    (name : Ident) (h : TaskHandler) (c c' : TaskController)
    → register name (some h) c ≡ ok c'
    → (name ≢ 0) × (c' ≡ (name, h) ∷ c)
register-accepted name h c c' e = elim (Bool-cases (name == 0)) [
  | inl empty ↦ let e' = rw empty at e in cc
  | inr named ↦
      let e' = rw named at e in
      elim (Bool-cases (is_none (find_handler c name))) [
        | inl fresh ↦
            let e'' = rw fresh at e' in
            let same : (name, h) ∷ c ≡ c' = cc in (ground arith, sym same)
        | inr taken ↦ let e'' = rw taken at e' in cc
      ]
]

-- After a registration that is accepted, tasks of that consumer go to the new handler and tasks of
-- other consumers to the handler they went to before, and no second handler of that name is
-- accepted.
pub register-handle :
    (name : Ident) (h : TaskHandler) (c c' : TaskController)
    → register name (some h) c ≡ ok c'
    → ((input : TaskContext) (s : Session Tables)
        → input.consumer_name ≡ name
        → handle c' (some input) s ≡ h input s)
      × ((input : TaskContext) (s : Session Tables)
          → input.consumer_name ≢ name
          → handle c' (some input) s ≡ handle c (some input) s)
      × ((again : TaskHandler)
          → register name (some again) c' ≡ err (Error.message Message.handler_registered))
register-handle name h c c' e =
    let (named, same) = register-accepted name h c c' e in rw same (mine, others, again named)
  where
    mine :
        (input : TaskContext) (s : Session Tables)
        → input.consumer_name ≡ name
        → handle ((name, h) ∷ c) (some input) s ≡ h input s
    mine input s same = let hit : (name == input.consumer_name) ≡ true = ground arith in rw hit refl

    others :
        (input : TaskContext) (s : Session Tables)
        → input.consumer_name ≢ name
        → handle ((name, h) ∷ c) (some input) s ≡ handle c (some input) s
    others input s apart =
        let miss : (name == input.consumer_name) ≡ false = ground arith in rw miss refl

    again :
        name ≢ 0
        → (h' : TaskHandler)
        → register name (some h') ((name, h) ∷ c) ≡ err (Error.message Message.handler_registered)
    again named h' =
        let miss : (name == 0) ≡ false = ground arith in
        let hit : (name == name) ≡ true = ground arith in rw (miss, hit) refl
