-- ===== src/Content/Worker/Pool.antt =====
-- The life of a worker's pool and its queue: `Run`, `Submit`, `stopAcceptingAndDrain`, `work` and
-- `finish` of internal/event/worker.go. Each step is what one goroutine does between two
-- points at which others may run; the steps of all goroutines interleave as they like.
pub mod Sound
pub mod Stop
use lets_go.Prelude.{
  ℕ, ◌+◌, ◌-◌, ◌≤◌, ◌<◌, ◌≡◌, Bool, true, false, not, ◌||◌, Option, none, some, List, [], ◌∷◌, ◌++◌,
  length, ◌==◌, if◌then◌else◌,
}
use lets_go.Sql.{Result, ok, err}
use lets_go.Content.Errors.{Sentinel, Message, Error}
use lets_go.Content.Tasks.{ClaimedTask}

pub record Pool : Type 0 where
  pub started : Bool
  pub running : Bool
  pub accepting : Bool
  -- `stopSubmitting`, `queue` and `stopped` are closed.
  pub stopping : Bool
  pub closed : Bool
  pub stopped : Bool
  -- The execution context is cancelled.
  pub forced : Bool
  -- The counter of the wait group
  pub submissions : ℕ
  pub queue : List ClaimedTask
  -- The goroutines that have not returned, and those among them that execute a task
  pub alive : ℕ
  pub busy : ℕ

abbrev pub new_worker : Pool
new_worker = record {
  started = false;
  running = false;
  accepting = false;
  stopping = false;
  closed = false;
  stopped = false;
  forced = false;
  submissions = 0;
  queue = [];
  alive = 0;
  busy = 0;
}

-- `Run` up to the wait for the cancellation
abbrev pub run : ℕ → Pool → Result Error Pool
run count p =
    if p.started
    then err (Error.sentinel Sentinel.already_running)
    else ok (record p { started = true; running = true; accepting = true; alive = count })

-- `Submit` up to its `select`
abbrev pub admit : ClaimedTask → Pool → Result Error Pool
admit task p =
    if task.event_id == 0 || task.consumer_name == 0 || task.claim_token == 0
    then err (Error.message Message.task_key_required)
    else if not p.running || not p.accepting
    then err (Error.sentinel Sentinel.worker_stopped)
    else ok (record p { submissions = p.submissions + 1 })

-- `w.queue <- task`, and the deferred `Done`. A send on a closed channel panics: none.
abbrev pub send : ClaimedTask → Pool → Option Pool
send task p =
    if p.closed
    then none
    else some (record p { queue = p.queue ++ (task ∷ []); submissions = p.submissions - 1 })

-- `close(w.queue)`, which panics on a closed channel
abbrev pub close_queue : Pool → Option Pool
close_queue p = if p.closed then none else some (record p { closed = true })

-- `finish`
abbrev pub finish : Pool → Pool
finish p = record p { running = false; accepting = false; stopped = true }

pub data Step (count : ℕ) (p : Pool) : Pool → Type 0 where
  runs : (p' : Pool) → run count p ≡ ok p' → Step count p p'
  admits : (task : ClaimedTask) (p' : Pool) → admit task p ≡ ok p' → Step count p p'
  sends :
      (task : ClaimedTask) (p' : Pool)
      → 1 ≤ p.submissions
      → length p.queue < count
      → send task p ≡ some p'
      → Step count p p'
  -- The caller's context is done, or the worker stops.
  gives_up : 1 ≤ p.submissions → Step count p (record p { submissions = p.submissions - 1 })
  -- The first half of `stopAcceptingAndDrain`
  stops :
      p.started ≡ true
      → p.stopping ≡ false
      → Step count p (record p { accepting = false; stopping = true })
  -- Its second half, once `w.submissions.Wait()` returns
  closes :
      (p' : Pool)
      → p.stopping ≡ true
      → p.closed ≡ false
      → p.submissions ≡ 0
      → close_queue p ≡ some p'
      → Step count p p'
  -- `forceStop`, when the grace is over
  forces : p.closed ≡ true → Step count p (record p { forced = true })
  takes :
      (task : ClaimedTask) (rest : List ClaimedTask)
      → p.busy < p.alive
      → p.queue ≡ task ∷ rest
      → Step count p (record p { queue = rest; busy = p.busy + 1 })
  -- A task is executed, or dropped where the execution context is cancelled.
  done : 1 ≤ p.busy → Step count p (record p { busy = p.busy - 1 })
  -- A goroutine returns: the queue is closed and empty, or the execution context is cancelled.
  drained :
      p.busy < p.alive
      → p.closed ≡ true
      → p.queue ≡ []
      → Step count p (record p { alive = p.alive - 1 })
  leaves : p.busy < p.alive → p.forced ≡ true → Step count p (record p { alive = p.alive - 1 })
  finishes : p.closed ≡ true → p.alive ≡ 0 → Step count p (finish p)

pub data Run (count : ℕ) (p : Pool) : Pool → Type 0 where
  idle : Run count p p
  then_next : (q r : Pool) → Run count p q → Step count q r → Run count p r
