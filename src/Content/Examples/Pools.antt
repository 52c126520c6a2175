-- ===== src/Content/Examples/Pools.antt =====
-- A worker with one goroutine: it starts, takes in one task, stops and drains.
use lets_go.Prelude.{◌≡◌, refl, ◌⊎◌, true, false, some, [], ◌∷◌, arith}
use lets_go.Sql.{err}
use lets_go.Content.Errors.{Sentinel, Message, Error}
use lets_go.Content.Worker.Pool.{
  Pool, new_worker, admit, send, runs, admits, sends, stops, closes, takes, done, drained, finishes,
  finish, Run, idle, then_next,
}
use lets_go.Content.Worker.Pool.Sound.{Sound, run-Sound}
use lets_go.Content.Worker.Pool.Stop.{run-send, run-trans, run_stopped-admit, run-drained}
use lets_go.Content.Examples.{held}

abbrev started : Pool
started = record new_worker { started = true; running = true; accepting = true; alive = 1 }

abbrev admitted : Pool
admitted = record started { submissions = 1 }

abbrev queued : Pool
queued = record started { queue = held ∷ [] }

abbrev halting : Pool
halting = record queued { accepting = false; stopping = true }

abbrev shut : Pool
shut = record halting { closed = true }

abbrev taken : Pool
taken = record shut { queue = []; busy = 1 }

abbrev over : Pool
over = finish (record taken { busy = 0; alive = 0 })

to_admitted : Run 1 new_worker admitted
to_admitted =
    then_next started admitted (then_next new_worker started idle (runs started refl))
      (admits held admitted refl)

to_halting : Run 1 new_worker halting
to_halting =
    then_next queued halting
      (then_next admitted queued to_admitted (sends held queued (omega arith) (omega arith) refl))
      (stops refl refl)

from_halting : Run 1 halting over
from_halting =
    then_next (record taken { busy = 0; alive = 0 }) over
      (then_next (record taken { busy = 0 }) (record taken { busy = 0; alive = 0 })
        (then_next taken (record taken { busy = 0 })
          (then_next shut taken (then_next halting shut idle (closes shut refl refl refl refl))
            (takes held [] (omega arith) refl))
          (done (omega arith)))
        (drained (omega arith) refl refl))
      (finishes refl refl)

to_over : Run 1 new_worker over
to_over = run-trans 1 new_worker halting over to_halting from_halting

run-Sound_example : Sound 1 over
run-Sound_example = run-Sound 1 over to_over

run-send_example : send held admitted ≡ some queued
run-send_example = run-send 1 admitted held to_admitted (omega arith)

run_stopped-admit_example :
    (admit held over ≡ err (Error.message Message.task_key_required))
    ⊎ (admit held over ≡ err (Error.sentinel Sentinel.worker_stopped))
run_stopped-admit_example = run_stopped-admit 1 halting over held to_halting refl from_halting

run-drained_example : (over.queue ≡ []) × (over.busy ≡ 0) × (over.submissions ≡ 0)
run-drained_example = run-drained 1 over (omega arith) to_over refl refl
