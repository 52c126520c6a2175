-- ===== src/Content/Examples/Workers.antt =====
-- The theorems on the worker, at the deliveries of the parent module.
use lets_go.Prelude.{◌≡◌, refl, none, []}
use lets_go.Sql.{Session}
use lets_go.Content.Tables.{Tables}
use lets_go.Content.Delivery.Valid.{IsValid}
use lets_go.Content.Worker.{TaskHandler, run_task}
use lets_go.Content.Worker.Runs.{Worked, run_task-Worked, run_task-Panics}
use lets_go.Content.Examples.{database, session_at, rows-IsValid, held, header, describe, no_jitter}

-- It clears the cards and panics.
abbrev panicking : TaskHandler
panicking input s = (none, record s { tables = record s.tables { cards = [] } })

abbrev at_200 : Session Tables
at_200 = session_at 200

abbrev worked : Session Tables
worked = run_task database header describe no_jitter panicking held at_200

run_task-Worked_example :
    Worked database header describe no_jitter panicking held at_200.tables worked.tables
run_task-Worked_example =
    run_task-Worked database header describe no_jitter panicking held at_200 rows-IsValid

run_task-Panics_example :
    (worked.tables ≡ record at_200.tables { deliveries = worked.tables.deliveries })
    × IsValid worked.tables.deliveries
run_task-Panics_example =
    run_task-Panics database header describe no_jitter panicking held at_200 rows-IsValid
      (λ input s. refl)
