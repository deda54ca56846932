-- ===== src/Worker/Keys.antt =====
-- The primary key of `jobs`: no run of the worker adds or removes a row.
use vibe_printer.Prelude.{
  ℕ, ◌≡◌, ◌≤◌, refl, Bool, String, none, some, List, [], ◌∷◌, str_eq, if◌then◌else◌, arith, leb,
  Bool-cases, keep, inl, inr, ◌∙◌, ◌+◌,
}
use vibe_printer.Prelude.Counting.{count_if}
use vibe_printer.Errors.{api, Result, ok, err, Result-cases}
use vibe_printer.Models.{JobStatus, done, failed, dead, queued, uncertain, printing}
use vibe_printer.JobTable.{Job, select_job, update_job, of_api}
use vibe_printer.JobTable.Laws.{count_if-update_job_same}
use vibe_printer.Jobs
use vibe_printer.Jobs.{JobStore, mark, set_status, no_fields}
use vibe_printer.Jobs.Retention.{redact_payload, redact}
use vibe_printer.Registry.Versioned.{Row}
use vibe_printer.Registry.Config.{Printer, get_printer}
use vibe_printer.Pools.{Target, found, unreachable, broken, resolve_target}
use vibe_printer.Worker.{
  WorkerSettings, PrintPayload, SendOutcome, send_result, mid_send_error, printer_unreachable,
  backend_error, other_error, WorkerState, World, mark_in, retry_or_dead, finish, after_send,
  after_render, after_target, process, with_backend, guarded, with_error, error_text,
}

-- How many rows have an id.
abbrev pub copies : String → List Job → ℕ
copies k rows = count_if (λ j. str_eq j.id k) rows

pub select_job-absent :
    (k : String) (rows : List Job) → copies k rows ≡ 0 → select_job k rows ≡ none
unfolding select_job
select_job-absent k [] h = refl
select_job-absent k (j ∷ rows) h = ground (arith, select_job-absent k rows)

pub copies-absent : (k : String) (rows : List Job) → select_job k rows ≡ none → copies k rows ≡ 0
unfolding select_job
copies-absent k [] h = refl
copies-absent k (j ∷ rows) h = ground (arith, copies-absent k rows)

-- With one row to an id, a deletion keeps the row that the id finds or removes it for good.
pub select_job-keep :
    (q : Job → Bool) (k : String) (rows : List Job)
    → copies k rows ≤ 1
    → select_job k (keep q rows)
      ≡ elim (select_job k rows) [ none ↦ none | some j ↦ (if q j then some j else none) ]
unfolding select_job
select_job-keep q k [] h = refl
select_job-keep q k (j ∷ rows) h =
    ground (arith, select_job-keep q k rows, select_job-absent k rows)

pub copies-keep :
    (q : Job → Bool) (k : String) (rows : List Job) → copies k (keep q rows) ≤ copies k rows
copies-keep q k [] = omega arith
copies-keep q k (j ∷ rows) = ground (arith, copies-keep q k rows)

pub copies-update_job :
    (i k : String) (set : Job → Job) (rows : List Job)
    → ((j : Job) → (set j).id ≡ j.id)
    → copies k (update_job i set rows) ≡ copies k rows
copies-update_job i k set rows same =
    count_if-update_job_same (λ j. str_eq j.id k) i set rows (λ j. rw (same j))

module _ (w : World) (i k : String) where
  copies-mark_in :
      (status : JobStatus) (fields : Job → Job) (s : WorkerState)
      → ((j : Job) → (fields j).id ≡ j.id)
      → copies k (mark_in w i status fields s).store.jobs ≡ copies k s.store.jobs
  unfolding mark
  copies-mark_in status fields s same =
      copies-update_job i k (set_status status w.now fields) s.store.jobs same

  copies-redact_payload :
      (st : JobStore)
      → copies k (redact_payload w.sha256 w.text_length i st).1.jobs ≡ copies k st.jobs
  unfolding redact_payload
  copies-redact_payload st = ground (
    arith,
    copies-update_job i k (redact w.sha256 w.text_length) st.jobs (λ x. unfold redact in refl),
  )

module _ (p : WorkerSettings) (w : World) (job : Job) (k : String) where
  copies-retry_or_dead :
      (printer : ℕ) (e : String) (s : WorkerState)
      → copies k (retry_or_dead p w job printer e s).store.jobs ≡ copies k s.store.jobs
  unfolding retry_or_dead
  copies-retry_or_dead printer e s = elim (Bool-cases (leb p.max_attempts (job.attempts + 1))) [
    | inl last ↦ rw last (copies-mark_in w job.id k dead _ s (λ j. refl))
    | inr more ↦ rw more (copies-mark_in w job.id k queued _ s (λ j. refl))
  ]

  copies-finish :
      (printer bytes : ℕ) (confirmed : Bool) (s : WorkerState)
      → copies k (finish p w job.id printer bytes confirmed s).1.store.jobs ≡ copies k s.store.jobs
  unfolding finish
  copies-finish printer bytes confirmed s = elim (Bool-cases p.store_payloads) [
    | inl kept ↦ rw kept (copies-mark_in w job.id k done _ s (λ j. refl))
    | inr drop ↦
        rw drop
          (copies-redact_payload w job.id k _ ∙ copies-mark_in w job.id k done _ s (λ j. refl))
  ]

  copies-after_send :
      (printer : Row Printer) (o : SendOutcome) (s : WorkerState)
      → copies k (after_send p w job printer o s).1.store.jobs ≡ copies k s.store.jobs
  unfolding after_send
  copies-after_send printer (send_result bytes confirmed) s =
      copies-finish printer.id bytes confirmed s
  copies-after_send printer (mid_send_error e) s =
      copies-mark_in w job.id k uncertain _ s (λ j. refl)
  copies-after_send printer (printer_unreachable e) s = copies-retry_or_dead printer.id e s
  copies-after_send printer (backend_error e) s = copies-retry_or_dead printer.id e s
  copies-after_send printer (other_error e) s = refl

  copies-after_render :
      (printer : Row Printer) (r : Result PrintPayload) (s : WorkerState)
      → copies k (after_render p w job printer r s).1.store.jobs ≡ copies k s.store.jobs
  unfolding after_render
  copies-after_render printer (ok payload) s =
      copies-after_send printer (w.send printer payload) (mark_in w job.id printing no_fields s)
      ∙ copies-mark_in w job.id k printing no_fields s (λ j. refl)
  copies-after_render printer (err (api e)) s =
      copies-mark_in w job.id k dead (with_error (of_api e))
        (mark_in w job.id failed (with_error (of_api e)) s) (λ j. refl)
      ∙ copies-mark_in w job.id k failed (with_error (of_api e)) s (λ j. refl)
  copies-after_render printer (err _) s = refl

  copies-after_target :
      (requested : Row Printer) (t : Target) (s : WorkerState)
      → copies k (after_target p w job requested t s).1.store.jobs ≡ copies k s.store.jobs
  unfolding after_target
  copies-after_target requested unreachable s = copies-retry_or_dead requested.id _ s
  copies-after_target requested (broken e) s = refl
  copies-after_target requested (found printer) s = copies-after_render printer _ _

copies-process :
    (p : WorkerSettings) (w : World) (i k : String) (s : WorkerState)
    → copies k (process p w i s).1.store.jobs ≡ copies k s.store.jobs
unfolding process
copies-process p w i k s = elim (Result-cases (Jobs.get i s.store)) [
  | inr (e, missing) ↦ rw (missing, process)
  | inl (job, got) ↦ elim (Result-cases (get_printer job.printer_id s.registry)) [
    | inr (e, missing) ↦ rw (got, process, missing)
    | inl (requested, known) ↦
        rw (got, process, known)
          (copies-after_target p w job k requested
            (with_backend w (resolve_target w.probe s.registry requested s.cursors).0) _)
  ]
]

pub copies-guarded :
    (p : WorkerSettings) (w : World) (i k : String) (s : WorkerState)
    → copies k (guarded p w i s).store.jobs ≡ copies k s.store.jobs
unfolding guarded
copies-guarded p w i k s = elim (Result-cases (process p w i s).0) [
  | inl (u, fine) ↦ rw (fine, guarded) (copies-process p w i k s)
  | inr (e, crashed) ↦
      rw (crashed, guarded)
        (copies-mark_in w i k failed (with_error (error_text e)) (process p w i s).1 (λ j. refl)
          ∙ copies-process p w i k s)
]
