-- ===== src/Content/Worker/Pool/Sound.antt =====
-- What holds in every state that the pool reaches.
use lets_go.Prelude.{
  ℕ, ◌+◌, ◌-◌, ◌≤◌, ◌<◌, ◌≡◌, ◌∙◌, refl, sym, inl, inr, true, false, not, ◌||◌, some, List, [], ◌∷◌,
  ◌++◌, length, ◌==◌, arith, Bool-cases,
}
use lets_go.Sql.{ok}
use lets_go.Content.Tasks.{ClaimedTask}
use lets_go.Content.Worker.Pool.{
  Pool, new_worker, run, admit, send, close_queue, Step, runs, admits, sends, gives_up, stops,
  closes, forces, takes, done, drained, leaves, finishes, Run, idle, then_next,
}

pub record Sound (count : ℕ) (p : Pool) : Type 0 where
  pub accepts : p.accepting ≡ true → p.running ≡ true
  pub runs_once : p.running ≡ true → p.started ≡ true
  pub idle_first : p.started ≡ false → (p.stopping ≡ false) × (p.alive ≡ 0)
  pub shut : p.stopping ≡ true → p.accepting ≡ false
  pub waited : p.closed ≡ true → (p.stopping ≡ true) × (p.submissions ≡ 0)
  pub graceful : p.forced ≡ true → p.closed ≡ true
  pub room : length p.queue ≤ count
  pub workers : (p.busy ≤ p.alive) × (p.alive ≤ count)
  pub ended : p.stopped ≡ true → (p.closed ≡ true) × (p.alive ≡ 0)
  -- Before a forced stop no goroutine returns while a task waits.
  pub drains :
      p.started ≡ true → p.forced ≡ false → p.alive < count → (p.closed ≡ true) × (p.queue ≡ [])

length-snoc : (task : ClaimedTask) (q : List ClaimedTask) → length (q ++ (task ∷ [])) ≡ length q + 1
length-snoc task [] = refl
length-snoc task (x ∷ q) = ground (arith, length-snoc task q)

new_worker-Sound : (count : ℕ) → Sound count new_worker
new_worker-Sound count = record {
  accepts = λ h. cc;
  runs_once = λ h. cc;
  idle_first = λ h. (refl, refl);
  shut = λ h. cc;
  waited = λ h. cc;
  graceful = λ h. cc;
  room = omega arith;
  workers = (omega arith, omega arith);
  ended = λ h. cc;
  drains = λ h. cc;
}

pub run-ran :
    (count : ℕ) (p p' : Pool)
    → run count p ≡ ok p'
    → (p.started ≡ false)
      × (record p { started = true; running = true; accepting = true; alive = count } ≡ p')
run-ran count p p' e = elim (Bool-cases p.started) [
  | inl again ↦ let e' = rw again at e in cc
  | inr first ↦ let e' = rw first at e in (first, cc)
]

pub admit-admitted :
    (task : ClaimedTask) (p p' : Pool)
    → admit task p ≡ ok p'
    → ((p.running ≡ true) × (p.accepting ≡ true))
      × (record p { submissions = p.submissions + 1 } ≡ p')
admit-admitted task p p' e =
    elim (Bool-cases (task.event_id == 0 || task.consumer_name == 0 || task.claim_token == 0)) [
      | inl bad ↦ let e' = rw bad at e in cc
      | inr good ↦
          let e' = rw good at e in
          elim (Bool-cases (not p.running || not p.accepting)) [
            | inl over ↦ let e'' = rw over at e' in cc
            | inr opened ↦ let e'' = rw opened at e' in ((ground arith, ground arith), cc)
          ]
    ]

pub send-sent :
    (task : ClaimedTask) (p p' : Pool)
    → send task p ≡ some p'
    → record p { queue = p.queue ++ (task ∷ []); submissions = p.submissions - 1 } ≡ p'
send-sent task p p' e = elim (Bool-cases p.closed) [
  | inl gone ↦ let e' = rw gone at e in cc
  | inr opened ↦ let e' = rw opened at e in cc
]

pub close_queue-closed : (p p' : Pool) → close_queue p ≡ some p' → record p { closed = true } ≡ p'
close_queue-closed p p' e = elim (Bool-cases p.closed) [
  | inl gone ↦ let e' = rw gone at e in cc
  | inr opened ↦ let e' = rw opened at e in cc
]

next-Sound : (count : ℕ) (p q : Pool) → Step count p q → Sound count p → Sound count q
next-Sound count p q (runs p' e) s =
    let (first, same) = run-ran count p p' e in
    rw (← same) (record {
      accepts = λ h. refl;
      runs_once = λ h. refl;
      idle_first = λ h. cc;
      shut = λ h. let k = (s.idle_first first).0 in cc;
      waited = s.waited;
      graceful = s.graceful;
      room = s.room;
      workers = (let z = (s.idle_first first).1 in omega (arith, s.workers), omega arith);
      ended = λ h. let k = (s.idle_first first).0 in let w = s.waited (s.ended h).0 in cc;
      drains = λ h f l. let never : ⊥ = omega (arith, l) in elim never [ ];
    })
next-Sound count p q (admits task p' e) s =
    let ((on, opened), same) = admit-admitted task p p' e in
    rw (← same) (record {
      accepts = s.accepts;
      runs_once = s.runs_once;
      idle_first = s.idle_first;
      shut = s.shut;
      waited = λ h. let k = s.shut (s.waited h).0 in cc;
      graceful = s.graceful;
      room = s.room;
      workers = s.workers;
      ended = s.ended;
      drains = s.drains;
    })
next-Sound count p q (sends task p' some_one space e) s = rw (← send-sent task p p' e) (record {
  accepts = s.accepts;
  runs_once = s.runs_once;
  idle_first = s.idle_first;
  shut = s.shut;
  waited =
      λ h. let k = (s.waited h).1 in let never : ⊥ = omega (arith, k, some_one) in elim never [ ];
  graceful = s.graceful;
  room = omega (arith, length-snoc task p.queue, space);
  workers = s.workers;
  ended = s.ended;
  drains = λ h f l.
      let k = (s.waited (s.drains h f l).0).1 in
      let never : ⊥ = omega (arith, k, some_one) in elim never [ ];
})
next-Sound count p _ (gives_up some_one) s = record {
  accepts = s.accepts;
  runs_once = s.runs_once;
  idle_first = s.idle_first;
  shut = s.shut;
  waited = λ h. ((s.waited h).0, let k = (s.waited h).1 in omega (arith, k));
  graceful = s.graceful;
  room = s.room;
  workers = s.workers;
  ended = s.ended;
  drains = s.drains;
}
next-Sound count p _ (stops begun first) s = record {
  accepts = λ h. cc;
  runs_once = s.runs_once;
  idle_first = λ h. cc;
  shut = λ h. refl;
  waited = λ h. (refl, (s.waited h).1);
  graceful = s.graceful;
  room = s.room;
  workers = s.workers;
  ended = s.ended;
  drains = s.drains;
}
next-Sound count p q (closes p' stopping opened zero e) s =
    rw (← close_queue-closed p p' e) (record {
      accepts = s.accepts;
      runs_once = s.runs_once;
      idle_first = s.idle_first;
      shut = s.shut;
      waited = λ h. (stopping, zero);
      graceful = λ h. refl;
      room = s.room;
      workers = s.workers;
      ended = λ h. (refl, (s.ended h).1);
      drains = λ h f l. (refl, (s.drains h f l).1);
    })
next-Sound count p _ (forces closed) s = record {
  accepts = s.accepts;
  runs_once = s.runs_once;
  idle_first = s.idle_first;
  shut = s.shut;
  waited = s.waited;
  graceful = λ h. closed;
  room = s.room;
  workers = s.workers;
  ended = s.ended;
  drains = λ h f l. cc;
}
next-Sound count p _ (takes task rest free e) s = record {
  accepts = s.accepts;
  runs_once = s.runs_once;
  idle_first = s.idle_first;
  shut = s.shut;
  waited = s.waited;
  graceful = s.graceful;
  room = let k = rw e at s.room in omega (arith, k);
  workers = (omega (arith, free), s.workers.1);
  ended = s.ended;
  drains = λ h f l. let k = sym e ∙ (s.drains h f l).1 in cc;
}
next-Sound count p _ (done some_one) s = record {
  accepts = s.accepts;
  runs_once = s.runs_once;
  idle_first = s.idle_first;
  shut = s.shut;
  waited = s.waited;
  graceful = s.graceful;
  room = s.room;
  workers = (omega (arith, s.workers), s.workers.1);
  ended = s.ended;
  drains = s.drains;
}
next-Sound count p _ (drained free closed empty) s = record {
  accepts = s.accepts;
  runs_once = s.runs_once;
  idle_first = λ h. ((s.idle_first h).0, let z = (s.idle_first h).1 in omega (arith, z));
  shut = s.shut;
  waited = s.waited;
  graceful = s.graceful;
  room = s.room;
  workers = (omega (arith, free), omega (arith, s.workers));
  ended = λ h. (closed, let z = (s.ended h).1 in omega (arith, z));
  drains = λ h f l. (closed, empty);
}
next-Sound count p _ (leaves free forced) s = record {
  accepts = s.accepts;
  runs_once = s.runs_once;
  idle_first = λ h. ((s.idle_first h).0, let z = (s.idle_first h).1 in omega (arith, z));
  shut = s.shut;
  waited = s.waited;
  graceful = s.graceful;
  room = s.room;
  workers = (omega (arith, free), omega (arith, s.workers));
  ended = λ h. ((s.ended h).0, let z = (s.ended h).1 in omega (arith, z));
  drains = λ h f l. cc;
}
next-Sound count p _ (finishes closed gone) s = record {
  accepts = λ h. cc;
  runs_once = λ h. cc;
  idle_first = s.idle_first;
  shut = λ h. refl;
  waited = s.waited;
  graceful = s.graceful;
  room = s.room;
  workers = s.workers;
  ended = λ h. (closed, gone);
  drains = s.drains;
}

-- Whatever steps the goroutines take in whatever order from a new worker: at most as many tasks
-- wait as there are goroutines, and no more goroutines execute than there are; no submitter is left
-- when the queue is closed; the worker is forced only after that; and it is stopped only when all
-- have returned, and, unless it was forced, not before the queue is empty.
pub run-Sound : (count : ℕ) (p : Pool) → Run count new_worker p → Sound count p
run-Sound count _ idle = new_worker-Sound count
run-Sound count p (then_next q r before step) = next-Sound count q r step (run-Sound count q before)
