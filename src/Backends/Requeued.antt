-- ===== src/Backends/Requeued.antt =====
-- The worker and the backends together: what a device has received when its job is queued again.
use text.Mathlib.TextPositions.{eq_refl}
use vibe_printer.Prelude.{
  ℕ, ◌+◌, ◌<◌, ◌≡◌, refl, Bool, true, none, some, [], arith, ltb, Bool-cases, inl, inr, ◌∙◌,
  if◌then◌else◌,
}
use vibe_printer.Errors.{ok}
use vibe_printer.Json.{Json, Fields}
use vibe_printer.Models.{queued, printing, done, uncertain, completed, sent}
use vibe_printer.JobTable.{Job, of_exception}
use vibe_printer.Registry.Versioned.{Row}
use vibe_printer.Registry.Config.{Printer}
use vibe_printer.Worker.{
  WorkerSettings, PrintPayload, SendOutcome, send_result, mid_send_error, printer_unreachable,
  backend_error, other_error, WorkerState, World, after_send, finish, with_error,
}
use vibe_printer.Jobs.{set_status}
use vibe_printer.Jobs.Retention.{redact}
use vibe_printer.Worker.Outcomes.{row, select-redact_payload}
use vibe_printer.Worker.Backoff.{retry_or_dead_cases}
use vibe_printer.Worker.Ends.{row_marked}
use vibe_printer.Backends.{Backend, cups_backend, make_backend}
use vibe_printer.Backends.Cups.{
  refused, poll_job, cups_takes, cups_options, cups_send, cups_connection, submitted, poll_outcome,
}
use vibe_printer.Backends.Dispatch.{Devices, send, is_serialized, send_within}
use vibe_printer.Backends.Retries.{is_retry, send_within-is_retry, send-Clean, construct-Streams}

module _ (p : WorkerSettings) (w : World) (job : Job) (s : WorkerState) {j : Job}
    (here : row job.id s ≡ some j) where
  finish_done :
      (printer bytes : ℕ) (confirmed : Bool)
      → (x : Job) × (row job.id (finish p w job.id printer bytes confirmed s).1 ≡ some x)
        × (x.status ≡ done)
  unfolding finish
  finish_done printer bytes confirmed =
      let delivered : Job → Job =
        λ x. record x { delivery = some (if confirmed then completed else sent) } in
      let at = row_marked w job.id done delivered s j (λ x. refl) here in
      elim (Bool-cases p.store_payloads) [
        | inl keep ↦ rw keep (_, at, refl)
        | inr drop ↦ rw drop (
          redact w.sha256 w.text_length (set_status done w.now delivered j),
          select-redact_payload w job.id job.id _ ∙ rw (eq_refl job.id, at) refl,
          unfold redact in refl,
        )
      ]

  -- Only after such an outcome the job is queued.
  queued-is_retry :
      (printer : Row Printer) (o : SendOutcome) (j' : Job)
      → j.status ≡ printing
      → row job.id (after_send p w job printer o s).1 ≡ some j'
      → j'.status ≡ queued
      → is_retry o ≡ true
  unfolding after_send is_retry
  queued-is_retry printer (send_result bytes confirmed) j' was now q =
      let (x, at, ended) = finish_done printer.id bytes confirmed in
      let same : x ≡ j' = ground (arith, at, now) in absurd (ground arith)
  queued-is_retry printer (mid_send_error e) j' was now q =
      let at = row_marked w job.id uncertain (with_error (of_exception e)) s j (λ x. refl) here in
      absurd (ground (arith, at, now))
  queued-is_retry printer (printer_unreachable e) j' was now q = refl
  queued-is_retry printer (backend_error e) j' was now q = refl
  queued-is_retry printer (other_error e) j' was now q = absurd (ground (arith, here, now))

-- A job on a printer with a byte stream of its own, or a file: if the worker queues it again after a send,
-- for whatever cause, then not a byte of it has reached the device. The limit on the time of the send is
-- counted in.
pub requeued_untouched :
    (p : WorkerSettings) (w : World) (job j j' : Job) (s : WorkerState) (printer : Row Printer)
    (d : Devices) (b : Backend) (payload : PrintPayload) (limit elapsed : ℕ)
    → is_serialized printer.content.config.type ≡ true
    → make_backend d.python printer ≡ ok b
    → row job.id s ≡ some j
    → j.status ≡ printing
    → row job.id
        (after_send p w job printer (send_within limit elapsed (send d b payload).outcome) s).1
      ≡ some j'
    → j'.status ≡ queued
    → (send d b payload).delivered ≡ []
unfolding make_backend
requeued_untouched p w job j j' s printer d b payload limit elapsed serial made here was now q =
    let o = (send d b payload).outcome in
    send-Clean d b payload
      (rw made at (
        construct-Streams d.python printer.id printer.content.config.type
          printer.content.config.params serial))
      (send_within-is_retry limit elapsed o
        (queued-is_retry p w job s here printer (send_within limit elapsed o) j' was now q))

-- A submission that the spooler accepts, and then cancels or aborts.
cups_refused :
    (d : Devices) (queue media : Json) (m : Fields) (payload : PrintPayload) (cups_job k : ℕ)
    → cups_takes payload.kind ≡ true
    → d.spooler.driver ≡ true
    → d.spooler.connection ≡ none
    → d.spooler.print_file queue (cups_options d.python media m payload) payload.bytes ≡ ok cups_job
    → poll_job d.spooler cups_job ≡ some (refused, k)
    → send d (cups_backend queue media m) payload
      ≡ record { outcome = backend_error "CUPS job failed"; delivered = payload.bytes }
unfolding send cups_send cups_connection submitted poll_outcome
cups_refused d queue media m payload cups_job k takes loaded up accepted ended =
    rw (takes, loaded, up, accepted, submitted, ended, poll_outcome) refl

-- A job on a CUPS queue is another matter: with the spooler up, a payload that it takes and a loop that
-- ends in time because the spooler canceled or aborted the job, the worker queues the job again below the
-- maximum of attempts, though the spooler has been given the whole payload.
pub cups_resubmits :
    (p : WorkerSettings) (w : World) (job j : Job) (s : WorkerState) (printer : Row Printer)
    (d : Devices) (queue media : Json) (m : Fields) (payload : PrintPayload)
    (limit elapsed cups_job k : ℕ)
    → row job.id s ≡ some j
    → job.attempts + 1 < p.max_attempts
    → elapsed < limit
    → cups_takes payload.kind ≡ true
    → d.spooler.driver ≡ true
    → d.spooler.connection ≡ none
    → d.spooler.print_file queue (cups_options d.python media m payload) payload.bytes ≡ ok cups_job
    → poll_job d.spooler cups_job ≡ some (refused, k)
    → let g = send d (cups_backend queue media m) payload in
      (j' : Job) × (row job.id
          (after_send p w job printer (send_within limit elapsed g.outcome) s).1
        ≡ some j')
      × (j'.status ≡ queued)
      × (g.delivered ≡ payload.bytes)
unfolding send_within after_send
cups_resubmits p w job j s printer d queue media m payload limit elapsed cups_job k here few soon
      takes loaded up accepted ended =
    let sent = cups_refused d queue media m payload cups_job k takes loaded up accepted ended in
    let in_time : ltb elapsed limit ≡ true = ground arith in
    elim (retry_or_dead_cases p w job j printer.id "CUPS job failed" s here) [
      | inl (last, _, _, _) ↦ absurd (omega arith)
      | inr (more, at, _, _) ↦ rw (sent, in_time) (_, at, refl, refl)
    ]
