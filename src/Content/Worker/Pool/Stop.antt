-- ===== src/Content/Worker/Pool/Stop.antt =====
-- What the end of a worker promises: no send on the closed queue, no task accepted after
-- the stop, and no task left behind where the stop is not forced.
use lets_go.Prelude.{
  ℕ, ◌≤◌, ◌≡◌, refl, inl, inr, true, false, not, ◌||◌, some, [], ◌∷◌, ◌++◌, ◌==◌, arith, Bool-cases,
  ◌⊎◌, ◌-◌,
}
use lets_go.Sql.{err}
use lets_go.Content.Errors.{Sentinel, Message, Error}
use lets_go.Content.Tasks.{ClaimedTask}
use lets_go.Content.Worker.Pool.{
  Pool, new_worker, admit, send, Step, runs, admits, sends, gives_up, stops, closes, forces, takes,
  done, drained, leaves, finishes, Run, idle, then_next,
}
use lets_go.Content.Worker.Pool.Sound.{
  run-Sound, run-ran, admit-admitted, send-sent, close_queue-closed,
}

-- In every state that a new worker reaches, a submitter that was admitted and has not left can
-- send its task without a panic.
pub run-send :
    (count : ℕ) (p : Pool) (task : ClaimedTask)
    → Run count new_worker p
    → 1 ≤ p.submissions
    → send task p
      ≡ some (record p { queue = p.queue ++ (task ∷ []); submissions = p.submissions - 1 })
run-send count p task r some_one = elim (Bool-cases p.closed) [
  | inl shut ↦
      let zero = ((run-Sound count p r).waited shut).1 in
      let never : ⊥ = omega (arith, zero, some_one) in elim never [ ]
  | inr opened ↦ rw opened refl
]

next-stopping : (count : ℕ) (p q : Pool) → Step count p q → p.stopping ≡ true → q.stopping ≡ true
next-stopping count p q (runs p' e) h = rw (← (run-ran count p p' e).1) h
next-stopping count p q (admits task p' e) h = rw (← (admit-admitted task p p' e).1) h
next-stopping count p q (sends task p' some_one space e) h = rw (← send-sent task p p' e) h
next-stopping count p _ (gives_up some_one) h = h
next-stopping count p _ (stops begun first) h = refl
next-stopping count p q (closes p' stopping opened zero e) h = rw (← close_queue-closed p p' e) h
next-stopping count p _ (forces closed) h = h
next-stopping count p _ (takes task rest free e) h = h
next-stopping count p _ (done some_one) h = h
next-stopping count p _ (drained free closed empty) h = h
next-stopping count p _ (leaves free forced) h = h
next-stopping count p _ (finishes closed gone) h = h

pub run-trans : (count : ℕ) (p q r : Pool) → Run count p q → Run count q r → Run count p r
run-trans count p q _ a idle = a
run-trans count p q r a (then_next x y b step) = then_next x r (run-trans count p q x a b) step

run-stopping : (count : ℕ) (p q : Pool) → Run count p q → p.stopping ≡ true → q.stopping ≡ true
run-stopping count p _ idle h = h
run-stopping count p q (then_next x y before step) h =
    next-stopping count x q step (run-stopping count p x before h)

-- Once a worker that was new has begun to stop, a `Submit` that asks to be admitted in any later
-- state is refused: it answers that the key is missing or `ErrWorkerStopped`. A `Submit` that was
-- admitted before is not meant.
pub run_stopped-admit :
    (count : ℕ) (p q : Pool) (task : ClaimedTask)
    → Run count new_worker p
    → p.stopping ≡ true
    → Run count p q
    → (admit task q ≡ err (Error.message Message.task_key_required))
      ⊎ (admit task q ≡ err (Error.sentinel Sentinel.worker_stopped))
run_stopped-admit count p q task r stopping later =
    let shut : q.accepting ≡ false =
      (run-Sound count q (run-trans count new_worker p q r later)).shut
        (run-stopping count p q later stopping) in
    elim (Bool-cases (task.event_id == 0 || task.consumer_name == 0 || task.claim_token == 0)) [
      | inl bad ↦ rw bad (inl refl)
      | inr good ↦
          let over : (not q.running || not q.accepting) ≡ true = ground arith in
          rw (good, over) (inr refl)
    ]

-- Where a worker with a goroutine, new at first, is stopped and was not forced, no task waits in
-- its queue, none is being executed and no submitter is left.
pub run-drained :
    (count : ℕ) (p : Pool)
    → 1 ≤ count
    → Run count new_worker p
    → p.stopped ≡ true
    → p.forced ≡ false
    → (p.queue ≡ []) × (p.busy ≡ 0) × (p.submissions ≡ 0)
run-drained count p some_one r stopped gentle =
    let s = run-Sound count p r in
    let (closed, gone) = s.ended stopped in
    let begun : p.started ≡ true = elim (Bool-cases p.started) [
      | inl on ↦ on
      | inr off ↦ let k = (s.idle_first off).0 in let w = (s.waited closed).0 in cc
    ] in
    (
      (s.drains begun gentle (omega (arith, gone, some_one))).1,
      omega (arith, gone, s.workers),
      (s.waited closed).1,
    )
