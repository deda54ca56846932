-- ===== src/Tests/Life.antt =====
-- The theorems on the life of a job, applied to a day of one job.
use vibe_printer.Prelude.{◌+◌, false, ◌*◌, ◌≤◌, refl, List, [], ◌∷◌}
use vibe_printer.Prelude.Texts.{Text, codes}
use vibe_printer.Models.{rendering}
use vibe_printer.JobTable.{select_job}
use vibe_printer.Worker.{guarded}
use vibe_printer.Worker.Outcomes.{row}
use vibe_printer.Worker.Ends.{Ended, guarded-Ended}
use vibe_printer.Worker.System.{
  Action, submit, requeue_job, poll_jobs, settle_job, restart, run, step,
}
use vibe_printer.Worker.AtMostOnce.{launches, started}
use vibe_printer.Worker.Attempts.{runs, runs_bounded}
use vibe_printer.Worker.Machine.{Moves, status}
use vibe_printer.Worker.StateMachine.{step-Moves}
use vibe_printer.Worker.Offline.{Beat, watch, recoveries, posts, no_outages, alerts_once}
use vibe_printer.Tests.{in_status, holding, to_printer, shop, settings, fine_day, worker_with}

abbrev noon : Text
noon = codes "2026-06-27T12:00:000000Z"

abbrev a_day : List Action
a_day =
    submit "a" noon noon (to_printer 1)
    ∷ poll_jobs noon
    ∷ settle_job "a" fine_day
    ∷ requeue_job "a" noon
    ∷ restart noon []
    ∷ []

runs_bounded_example : runs settings "a" a_day (started shop) ≤ 3 * launches "a" a_day
runs_bounded_example = runs_bounded settings shop a_day "a"

step-Moves_example :
    let s = run settings a_day (started shop) in
    Moves (status "a" s) (status "a" (step settings (poll_jobs noon) s))
step-Moves_example = step-Moves settings shop a_day (poll_jobs noon) "a"

guarded-Ended_example :
    Ended settings 0
      (row "a" (guarded settings fine_day "a" (worker_with (holding (in_status rendering)))))
guarded-Ended_example =
    guarded-Ended settings fine_day "a" (worker_with (holding (in_status rendering)))
      (in_status rendering) (unfold select_job in refl)

abbrev long_outage : List Beat
long_outage =
    record { now = 0; printers = record { id = 1; reachable = false } ∷ [] }
    ∷ record { now = 700; printers = record { id = 1; reachable = false } ∷ [] }
    ∷ record { now = 800; printers = record { id = 1; reachable = false } ∷ [] }
    ∷ []

alerts_once_example : posts 1 (watch 10 long_outage no_outages) ≤ recoveries 1 long_outage + 1
alerts_once_example = alerts_once 10 long_outage 1
