-- ===== src/Worker/Ends.antt =====
-- How a run of the worker ends for its own job: closed, or queued again for one more attempt.
use text.Mathlib.TextPositions.{eq_refl}
use vibe_printer.Prelude.{
  ℕ, suc, ◌<◌, ◌≡◌, refl, ◌⊎◌, Bool, true, false, String, Option, none, some, if◌then◌else◌, arith,
  Bool-cases, inl, inr, ◌∙◌, sym, ap,
}
use vibe_printer.Errors.{api, Result, ok, err, Result-cases}
use vibe_printer.Models.{
  JobStatus, queued, printing, done, sent, completed, failed, dead, uncertain,
}
use vibe_printer.JobTable.{Job, of_api, of_exception, select_job}
use vibe_printer.Jobs
use vibe_printer.Jobs.{JobStore, set_status, no_fields, claim, set_rendering, is_queued}
use vibe_printer.Jobs.Retention.{redact}
use vibe_printer.Registry.Versioned.{Row}
use vibe_printer.Registry.Config.{Printer, get_printer}
use vibe_printer.Pools.{Target, found, unreachable, broken, resolve_target}
use vibe_printer.Worker.{
  WorkerSettings, PrintPayload, SendOutcome, send_result, mid_send_error, printer_unreachable,
  backend_error, other_error, WorkerState, World, mark_in, retry_or_dead, finish, after_send,
  after_render, after_target, process, with_backend, guarded, with_error, error_text,
}
use vibe_printer.Worker.Outcomes.{row, row-mark_in, id-get, select-redact_payload}
use vibe_printer.Worker.Backoff.{retry_or_dead_cases}

-- The states that no task leaves.
unfoldable pub is_closed : JobStatus → Bool
is_closed done = true
is_closed failed = true
is_closed dead = true
is_closed uncertain = true
is_closed _ = false

-- The row of a job after a run: closed, or queued with one attempt more, below the maximum.
abbrev pub Ended : WorkerSettings → (attempts : ℕ) → Option Job → Type 0
Ended p attempts none = ⊥
Ended p attempts (some r) =
    (is_closed r.status ≡ true)
    ⊎ ((r.status ≡ queued) × (r.attempts ≡ suc attempts) × (suc attempts < p.max_attempts))

pub row_marked :
    (w : World) (i : String) (status : JobStatus) (fields : Job → Job) (s : WorkerState) (j : Job)
    → ((x : Job) → (fields x).id ≡ x.id)
    → row i s ≡ some j
    → row i (mark_in w i status fields s) ≡ some (set_status status w.now fields j)
row_marked w i status fields s j same here = row-mark_in w i status fields s same ∙ rw here refl

Ended-marked :
    (p : WorkerSettings) (w : World) (i : String) (status : JobStatus) (fields : Job → Job)
    (s : WorkerState) (j : Job) (attempts : ℕ)
    → ((x : Job) → (fields x).id ≡ x.id)
    → row i s ≡ some j
    → is_closed status ≡ true
    → Ended p attempts (row i (mark_in w i status fields s))
Ended-marked p w i status fields s j attempts same here closed =
    rw (row_marked w i status fields s j same here) (inl closed)

-- An exception leaves the row there, to be marked; otherwise the run has ended.
abbrev EndsAt :
    WorkerSettings → (i : String) (attempts : ℕ) → Result (Unit {0}) → WorkerState → Type 0
EndsAt p i attempts (err e) s = (x : Job) × (row i s ≡ some x)
EndsAt p i attempts (ok u) s = Ended p attempts (row i s)

module _ (p : WorkerSettings) (w : World) (job : Job) where
  abbrev Ends : Result (Unit {0}) → WorkerState → Type 0
  Ends r s = EndsAt p job.id job.attempts r s

  Ends-closed :
      (r : Result (Unit {0})) (s : WorkerState) (x : Job)
      → row job.id s ≡ some x
      → is_closed x.status ≡ true
      → Ends r s
  Ends-closed (err e) s x here closed = (x, here)
  Ends-closed (ok u) s x here closed = rw here (inl closed)

  retry_or_dead-Ended :
      (printer : ℕ) (e : String) (s : WorkerState) (j : Job)
      → row job.id s ≡ some j
      → Ended p job.attempts (row job.id (retry_or_dead p w job printer e s))
  retry_or_dead-Ended printer e s j here = elim (retry_or_dead_cases p w job j printer e s here) [
    | inl (last, at, alerts, audit) ↦ rw at (inl (unfold is_closed in refl))
    | inr (more, at, alerts, audit) ↦ rw at (inr (refl, omega arith, omega (arith, more)))
  ]

  finish-Ends :
      (printer bytes : ℕ) (confirmed : Bool) (s : WorkerState) (j : Job)
      → row job.id s ≡ some j
      → let (r, s') = finish p w job.id printer bytes confirmed s in Ends r s'
  unfolding finish
  finish-Ends printer bytes confirmed s j here =
      let delivered : Job → Job =
        λ x. record x { delivery = some (if confirmed then completed else sent) } in
      let at = row_marked w job.id done delivered s j (λ x. refl) here in
      elim (Bool-cases p.store_payloads) [
        | inl keep ↦ rw keep (rw at (inl (unfold is_closed in refl)))
        | inr drop ↦ rw drop (
            Ends-closed _ _ (redact w.sha256 w.text_length (set_status done w.now delivered j))
              (select-redact_payload w job.id job.id _ ∙ rw (eq_refl job.id, at) refl)
              (unfold is_closed redact in refl))
      ]

  after_send-Ends :
      (printer : Row Printer) (o : SendOutcome) (s : WorkerState) (j : Job)
      → row job.id s ≡ some j
      → let (r, s') = after_send p w job printer o s in Ends r s'
  unfolding after_send
  after_send-Ends printer (send_result bytes confirmed) s j here =
      finish-Ends printer.id bytes confirmed s j here
  after_send-Ends printer (mid_send_error e) s j here =
      Ended-marked p w job.id uncertain (with_error (of_exception e)) s j job.attempts (λ x. refl)
        here (unfold is_closed in refl)
  after_send-Ends printer (printer_unreachable e) s j here =
      retry_or_dead-Ended printer.id e s j here
  after_send-Ends printer (backend_error e) s j here = retry_or_dead-Ended printer.id e s j here
  after_send-Ends printer (other_error e) s j here = (j, here)

  after_render-Ends :
      (printer : Row Printer) (payload : Result PrintPayload) (s : WorkerState) (j : Job)
      → row job.id s ≡ some j
      → let (r, s') = after_render p w job printer payload s in Ends r s'
  unfolding after_render
  after_render-Ends printer (ok payload) s j here =
      after_send-Ends printer (w.send printer payload) (mark_in w job.id printing no_fields s) _
        (row_marked w job.id printing no_fields s j (λ x. refl) here)
  after_render-Ends printer (err (api e)) s j here =
      Ended-marked p w job.id dead (with_error (of_api e))
        (mark_in w job.id failed (with_error (of_api e)) s) _ job.attempts (λ x. refl)
        (row_marked w job.id failed (with_error (of_api e)) s j (λ x. refl) here)
        (unfold is_closed in refl)
  after_render-Ends printer (err _) s j here = (j, here)

  after_target-Ends :
      (requested : Row Printer) (t : Target) (s : WorkerState) (j : Job)
      → row job.id s ≡ some j
      → let (r, s') = after_target p w job requested t s in Ends r s'
  unfolding after_target
  after_target-Ends requested unreachable s j here = retry_or_dead-Ended requested.id _ s j here
  after_target-Ends requested (broken e) s j here = (j, here)
  after_target-Ends requested (found printer) s j here = after_render-Ends printer _ _ j here

row-get :
    (i : String) (st : JobStore) (j : Job) → Jobs.get i st ≡ ok j → select_job i st.jobs ≡ some j
unfolding Jobs.get
row-get i st j h = ground arith

process-Ends :
    (p : WorkerSettings) (w : World) (i : String) (s : WorkerState) (j : Job)
    → row i s ≡ some j
    → EndsAt p i j.attempts (process p w i s).0 (process p w i s).1
unfolding process
process-Ends p w i s j here = elim (Result-cases (Jobs.get i s.store)) [
  | inr (e, missing) ↦ rw (missing, process) (j, here)
  | inl (job, got) ↦
      let own : job ≡ j = ground (arith, row-get i s.store job got) in
      let key : job.id ≡ i = id-get i s.store job got in
      elim (Result-cases (get_printer job.printer_id s.registry)) [
        | inr (e, missing) ↦ rw (got, process, missing) (j, here)
        | inl (requested, known) ↦
            rw (got, process, known)
              (rw (sym key, sym own)
                (after_target-Ends p w job requested
                  (with_backend w (resolve_target w.probe s.registry requested s.cursors).0) _ job
                  (ap (λ k. select_job k s.store.jobs) key ∙ row-get i s.store job got)))
      ]
]

-- A run ends its job, whatever the devices do and whatever fails: the row that it had is closed, or
-- queued again below the maximum of attempts.
pub guarded-Ended :
    (p : WorkerSettings) (w : World) (i : String) (s : WorkerState) (j : Job)
    → row i s ≡ some j
    → Ended p j.attempts (row i (guarded p w i s))
unfolding guarded
guarded-Ended p w i s j here = elim (Result-cases (process p w i s).0) [
  | inl (u, fine) ↦ rw (fine, guarded) (rw fine at (process-Ends p w i s j here))
  | inr (e, crashed) ↦
      rw (crashed, guarded)
        (let (x, at) = rw crashed at (process-Ends p w i s j here) in
          Ended-marked p w i failed (with_error (error_text e)) (process p w i s).1 x j.attempts
            (λ y. refl) at (unfold is_closed in refl))
]
