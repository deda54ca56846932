-- ===== src/Tests/Sending.antt =====
-- The theorems on the worker and on the print handlers, applied.
use vibe_printer.Prelude.{◌+◌, ◌≤◌, ◌≡◌, refl, String, none, some, List, [], ◌∷◌, arith}
use vibe_printer.Prelude.Texts.{Text, codes}
use vibe_printer.Models.{printing, rendering}
use vibe_printer.JobTable.{Job, StoredPayload, update_job, select_job}
use vibe_printer.Jobs
use vibe_printer.Jobs.{mark}
use vibe_printer.Worker.{WorkerState}
use vibe_printer.Worker.Outcomes.{open_count, row}
use vibe_printer.Worker.System.{
  Action, submit, requeue_job, poll_jobs, settle_job, restart, System, run, step, interrupted, has,
}
use vibe_printer.Worker.AtMostOnce.{launches, prints, started, at_most_once}
use vibe_printer.Worker.Stranded.{is_busy, stranded_after_restart}
use vibe_printer.PrintApi.{Reading}
use vibe_printer.Tests.{in_status, holding, to_printer, shop, settings, fine_day, worker_with}

abbrev noon : Text
noon = codes "2026-06-27T12:00:000000Z"

abbrev a_day : List Action
a_day =
    submit "a" noon noon (to_printer 1)
    ∷ poll_jobs noon
    ∷ settle_job "a" fine_day
    ∷ poll_jobs noon
    ∷ requeue_job "a" noon
    ∷ restart noon []
    ∷ []

at_most_once_example :
    prints settings "a" a_day (started shop)
      + open_count (row "a" (run settings a_day (started shop)).worker)
    ≤ launches "a" a_day
at_most_once_example = at_most_once settings shop a_day "a"

abbrev stuck : System
stuck = record { worker = worker_with (holding (in_status rendering)); inflight = "a" ∷ [] }

abbrev left_a : Job
left_a = record (in_status printing) { updated_at = noon }

stranded_after_restart_example :
    let actions = restart noon ("a" ∷ []) ∷ poll_jobs noon ∷ requeue_job "a" noon ∷ [] in
    (v : StoredPayload) × (row "a" (run settings actions stuck).worker
      ≡ some (record left_a { payload_json = v }))
stranded_after_restart_example =
    stranded_after_restart settings (poll_jobs noon ∷ requeue_job "a" noon ∷ []) stuck "a" left_a
      noon ("a" ∷ []) (unfold step interrupted has mark update_job in omega arith)
      (unfold step interrupted has mark update_job select_job in refl) (unfold is_busy in refl)

abbrev printing_a : WorkerState
printing_a = worker_with (holding (in_status rendering))

abbrev reading : String → Reading
reading i = record {
  job_id = i;
  created_at = noon;
  updated_at = noon;
  stored_at = noon;
  midnight = noon;
  request_hash = λ p q. "h";
  decoded_length = λ t. some 1;
  int_of = λ j. none;
}
