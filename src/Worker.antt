-- ===== src/Worker.antt =====
-- app/queue.py, class Worker: what the worker does with one claimed job. The world of a run is given by
-- functions: `probe` and `send` stand for the devices, `make_backend` for whether the backend of a printer
-- can be made, `render` for the rendering of a payload. The readings of the clock in one run are one
-- argument; `retry_at` gives the text of now plus a delay. Metrics and logging are left out; a webhook
-- that is due is kept as an `Alert`.
pub mod Backoff
pub mod Ends
pub mod Outcomes
pub mod Sends
pub mod Rendering
pub mod Labels
pub mod Offline
pub mod System
pub mod Interrupted
pub mod Keys
pub mod StoreSteps
pub mod AtMostOnce
pub mod Attempts
pub mod Machine
pub mod StateMachine
pub mod Stranded
use vibe_printer.Prelude.{
  ℕ, zero, suc, ◌+◌, ◌-◌, ◌*◌, ◌^◌, Bool, true, false, not, ◌&&◌, String, Option, none, some, List,
  [], ◌∷◌, ◌++◌, str_eq, leb, if◌then◌else◌, min,
}
use vibe_printer.Prelude.Texts.{Text}
use vibe_printer.Errors.{ApiError, Failure, api, Result, ok, err}
use vibe_printer.Models.{
  JobStatus, queued, rendering, printing, done, failed, dead, uncertain, Delivery, sent, completed,
  Payload, Kind, ContentType,
}
use vibe_printer.JobTable.{Job, LastError, of_api, of_exception, StoredPayload, full, redacted}
use vibe_printer.Jobs
use vibe_printer.Jobs.{JobStore, mark, no_fields}
use vibe_printer.Jobs.Retention.{redact_payload}
use vibe_printer.Registry.Versioned.{Row}
use vibe_printer.Registry.Config.{Printer, Registry, get_printer}
use vibe_printer.Pools.{Cursors, Target, found, unreachable, broken, resolve_target}

pub record WorkerSettings : Type 0 where
  pub max_attempts : ℕ
  pub retry_base_seconds : ℕ
  pub retry_max_seconds : ℕ
  pub store_payloads : Bool

-- app/backends/base.py `PrintPayload`: the bytes and the options of a job for a device.
pub record PrintPayload : Type 0 where
  pub kind : Kind
  pub bytes : List ℕ
  pub option_copies : Option ℕ
  pub option_media : Option String

-- How `_send` ends: a `SendResult`, or the exception class with its text. A timeout is a MidSendError.
pub data SendOutcome : Type 0 where
  send_result : (bytes_sent : ℕ) (confirmed : Bool) → SendOutcome
  mid_send_error printer_unreachable backend_error other_error : String → SendOutcome

-- A row of `print_audit`, without its hashes.
pub record PrintAudit : Type 0 where
  pub job_id : String
  pub printer_id : ℕ
  pub outcome : String
  pub bytes : ℕ

-- A webhook that `_alert` posts.
pub record Alert : Type 0 where
  pub event : String
  pub job_id : String
  pub printer_id : ℕ

pub record WorkerState : Type 0 where
  pub store : JobStore
  pub registry : Registry
  pub cursors : Cursors
  pub print_audit : List PrintAudit
  pub alerts : List Alert

-- The world of one run.
pub record World : Type 0 where
  pub now : Text
  pub retry_at : ℕ → Text
  pub probe : ℕ → Bool
  pub make_backend : Row Printer → Result (Unit {0})
  pub render : Registry → Payload → Row Printer → Result PrintPayload × Registry
  pub send : Row Printer → PrintPayload → SendOutcome
  pub sha256 : StoredPayload → String
  pub text_length : StoredPayload → ℕ

-- The delay before attempt `attempts + 1`.
unfoldable pub backoff : WorkerSettings → ℕ → ℕ
backoff p attempts = min (p.retry_base_seconds * 2 ^ (attempts - 1)) p.retry_max_seconds

abbrev pub mark_in : World → String → JobStatus → (Job → Job) → WorkerState → WorkerState
mark_in w i status fields s = record s { store = mark i w.now status fields s.store }

abbrev pub alert : String → String → ℕ → WorkerState → WorkerState
alert event i printer s = record s {
  alerts = s.alerts ++ (record { event = event; job_id = i; printer_id = printer } ∷ []);
}

abbrev pub with_error : LastError → Job → Job
with_error e j = record j { last_error = some e }

unfoldable pub retry_or_dead :
    WorkerSettings → World → Job → (printer : ℕ) → String → WorkerState → WorkerState
unfolding backoff
retry_or_dead p w job printer e s =
    let attempts = job.attempts + 1 in
    if leb p.max_attempts attempts
    then alert "job_dead" job.id printer (
        mark_in w job.id dead
          (λ j. record j { attempts = attempts; last_error = some (of_exception e) }) s)
    else mark_in w job.id queued
        (λ j. record j {
          attempts = attempts;
          last_error = some (of_exception e);
          next_attempt_at = some (w.retry_at (backoff p attempts));
        })
        s

abbrev pub audit_print : String → ℕ → String → ℕ → WorkerState → WorkerState
audit_print i printer outcome bytes s = record s {
  print_audit =
      s.print_audit
      ++ (record { job_id = i; printer_id = printer; outcome = outcome; bytes = bytes } ∷ []);
}

unfoldable pub delivery_text : Bool → String
delivery_text true = "completed"
delivery_text false = "sent"

-- After a `SendResult`: done, audited, and the payload dropped if it is not to be stored.
unfoldable pub finish :
    WorkerSettings
    → World
    → (i : String) (printer bytes : ℕ) (confirmed : Bool) → WorkerState
    → Result (Unit {0}) × WorkerState
unfolding delivery_text
finish p w i printer bytes confirmed s =
    let marked = audit_print i printer (delivery_text confirmed) bytes (
      mark_in w i done (λ j. record j { delivery = some (if confirmed then completed else sent) })
        s) in
    if p.store_payloads
    then (ok tt, marked)
    else (let (r, store') = redact_payload w.sha256 w.text_length i marked.store in
        (r, record marked { store = store' }))

-- The `try` around the send, and what follows it.
unfoldable pub after_send :
    WorkerSettings
    → World
    → Job
    → Row Printer
    → SendOutcome
    → WorkerState
    → Result (Unit {0}) × WorkerState
after_send p w job printer (send_result bytes confirmed) s =
    finish p w job.id printer.id bytes confirmed s
after_send p w job printer (mid_send_error e) s = (
  ok tt,
  alert "job_uncertain" job.id printer.id (
      audit_print job.id printer.id "uncertain" 0
        (mark_in w job.id uncertain (with_error (of_exception e)) s)),
)
after_send p w job printer (printer_unreachable e) s = (ok tt, retry_or_dead p w job printer.id e s)
after_send p w job printer (backend_error e) s = (ok tt, retry_or_dead p w job printer.id e s)
after_send p w job printer (other_error e) s = (err (Failure.other_exception e), s)

-- The `try` around `_render`, and what follows it. Only an ApiError is caught.
unfoldable pub after_render :
    WorkerSettings
    → World
    → Job
    → Row Printer
    → Result PrintPayload
    → WorkerState
    → Result (Unit {0}) × WorkerState
after_render p w job printer (err (api e)) s = (
  ok tt,
  alert "job_dead" job.id printer.id (
      mark_in w job.id dead (with_error (of_api e))
        (mark_in w job.id failed (with_error (of_api e)) s)),
)
after_render p w job printer (err other) s = (err other, s)
after_render p w job printer (ok payload) s =
    after_send p w job printer (w.send printer payload) (mark_in w job.id printing no_fields s)

-- `_render` reads the stored payload; metadata left by redaction names nothing to render.
unfoldable pub render_stored :
    World → Registry → StoredPayload → Row Printer → Result PrintPayload × Registry
render_stored w g (full payload) printer = w.render g payload printer
render_stored w g (redacted _ _) printer = (err Failure.key_error, g)

unfoldable pub after_target :
    WorkerSettings
    → World
    → Job
    → (requested : Row Printer) → Target
    → WorkerState
    → Result (Unit {0}) × WorkerState
unfolding render_stored
after_target p w job requested unreachable s =
    (ok tt, retry_or_dead p w job requested.id "no pool member is reachable" s)
after_target p w job requested (broken e) s = (err e, s)
after_target p w job requested (found printer) s =
    let (r, g) = render_stored w s.registry job.payload_json printer in
    after_render p w job printer r (record s { registry = g })

-- `make_backend`, before the rendering: its exception escapes, as an error of `_members` does.
unfoldable pub with_backend : World → Target → Target
with_backend w (found printer) = elim (w.make_backend printer) [
  | err e ↦ broken e
  | ok backend ↦ found printer
]
with_backend w t = t

unfoldable pub process :
    WorkerSettings → World → (i : String) → WorkerState → Result (Unit {0}) × WorkerState
process p w i s = elim (Jobs.get i s.store) [
  | err e ↦ (err e, s)
  | ok job ↦ elim (get_printer job.printer_id s.registry) [
    | err e ↦ (err e, s)
    | ok requested ↦
        let (target, c) = resolve_target w.probe s.registry requested s.cursors in
        after_target p w job requested (with_backend w target) (record s { cursors = c })
  ]
]

-- `last_error=str(e)`, with an ApiError kept by its code.
unfoldable pub error_text : Failure → LastError
error_text (api e) = of_api e
error_text Failure.integrity_error = of_exception "IntegrityError"
error_text Failure.key_error = of_exception "KeyError"
error_text (Failure.other_exception e) = of_exception e

-- `_guarded`: any exception that escapes marks the job failed.
unfoldable pub guarded : WorkerSettings → World → (i : String) → WorkerState → WorkerState
guarded p w i s =
    let (r, s') = process p w i s in
    elim r [ ok _ ↦ s' | err e ↦ mark_in w i failed (with_error (error_text e)) s' ]
