-- ===== src/Worker/Outcomes.antt =====
-- What one run of the worker does to the rows of `jobs` and to the audit of what was sent.
use mathlib.Core.Option.{map as map_option}
use text.Mathlib.TextPositions.{eq_refl}
use vibe_printer.Prelude.{
  ℕ, ◌+◌, ◌≡◌, ◌≢◌, refl, Bool, false, String, Option, none, some, str_eq, eq_iff, if◌then◌else◌,
  arith, Bool-cases, leb, inl, inr, ◌∙◌, sym, Option-cases,
}
use vibe_printer.Prelude.Counting.{count_if, count_if-append}
use vibe_printer.Errors.{api, Result, ok, err, Result-cases}
use vibe_printer.Models.{JobStatus, queued, printing, done, failed, dead, uncertain}
use vibe_printer.JobTable.{Job, StoredPayload, of_api, select_job}
use vibe_printer.JobTable.Laws.{select-update_job, id-select_job}
use vibe_printer.Jobs
use vibe_printer.Jobs.{JobStore, mark, is_active, set_status, no_fields}
use vibe_printer.Jobs.Lifecycle.{select-mark}
use vibe_printer.Jobs.Retention.{redact_payload, redact}
use vibe_printer.Registry.Versioned.{Row}
use vibe_printer.Registry.Config.{Printer, get_printer}
use vibe_printer.Pools.{Target, found, unreachable, broken, resolve_target}
use vibe_printer.Worker.{
  WorkerSettings, PrintPayload, SendOutcome, send_result, mid_send_error, printer_unreachable,
  backend_error, other_error, WorkerState, World, mark_in, retry_or_dead, audit_print, finish,
  after_send, after_render, after_target, process, with_backend, guarded, with_error,
}

-- How often a job was sent: the audit has a row for each send that ended done or uncertain.
abbrev pub audits : String → WorkerState → ℕ
audits k s = count_if (λ a. str_eq a.job_id k) s.print_audit

-- 1 if the job is still to be sent: queued, rendering or printing.
abbrev pub open_count : Option Job → ℕ
open_count none = 0
open_count (some j) = if is_active j.status then 1 else 0

abbrev pub row : String → WorkerState → Option Job
row k s = select_job k s.store.jobs

-- A run for another job.
abbrev pub Keeps : String → WorkerState → WorkerState → Type 0
Keeps k s s' = (row k s' ≡ row k s) × (audits k s' ≡ audits k s)

pub not-str_eq : (i k : String) → i ≢ k → str_eq i k ≡ false
not-str_eq i k h = ground (arith, eq_iff i k)

pub select-redaction :
    (sha256 : StoredPayload → String) (text_length : StoredPayload → ℕ) (i k : String)
    (st : JobStore)
    → select_job k (redact_payload sha256 text_length i st).1.jobs ≡ (
        if str_eq i k
        then map_option (redact sha256 text_length) (select_job k st.jobs)
        else select_job k st.jobs)
unfolding redact_payload
select-redaction sha256 text_length i k st = elim (Option-cases (select_job i st.jobs)) [
  | inl absent ↦ ground (arith, eq_iff i k)
  | inr (j, present) ↦ ground (
    arith,
    select-update_job i (redact sha256 text_length) (λ x. unfold redact in refl) k st.jobs,
  )
]

module _ (w : World) (i : String) where
  pub mark_in-Keeps :
      (status : JobStatus) (fields : Job → Job) (k : String) (s : WorkerState)
      → ((j : Job) → (fields j).id ≡ j.id)
      → i ≢ k
      → Keeps k s (mark_in w i status fields s)
  mark_in-Keeps status fields k s same ne =
      (select-mark i w.now status fields k s.store same ∙ rw (not-str_eq i k ne), refl)

  -- The row that a mark leaves under its own id.
  pub row-mark_in :
      (status : JobStatus) (fields : Job → Job) (s : WorkerState)
      → ((j : Job) → (fields j).id ≡ j.id)
      → row i (mark_in w i status fields s) ≡ map_option (set_status status w.now fields) (row i s)
  row-mark_in status fields s same =
      select-mark i w.now status fields i s.store same ∙ rw (eq_refl i)

  pub audits-audit_print :
      (printer bytes : ℕ) (outcome k : String) (s : WorkerState)
      → audits k (audit_print i printer outcome bytes s)
        ≡ audits k s + (if str_eq i k then 1 else 0)
  audits-audit_print printer bytes outcome k s = rw count_if-append (ground arith)

  -- A mark that closes the job, or one that leaves it open.
  pub open-mark_in :
      (status : JobStatus) (fields : Job → Job) (s : WorkerState)
      → ((j : Job) → (fields j).id ≡ j.id)
      → is_active status ≡ false
      → open_count (row i (mark_in w i status fields s)) ≡ 0
  open-mark_in status fields s same closed = rw (row-mark_in status fields s same) (ground arith)

  pub select-redact_payload :
      (k : String) (st : JobStore)
      → select_job k (redact_payload w.sha256 w.text_length i st).1.jobs ≡ (
          if str_eq i k
          then map_option (redact w.sha256 w.text_length) (select_job k st.jobs)
          else select_job k st.jobs)
  select-redact_payload k st = select-redaction w.sha256 w.text_length i k st

module _ (p : WorkerSettings) (w : World) (job : Job) where
  retry_or_dead-Keeps :
      (printer : ℕ) (e k : String) (s : WorkerState)
      → job.id ≢ k
      → Keeps k s (retry_or_dead p w job printer e s)
  unfolding retry_or_dead
  retry_or_dead-Keeps printer e k s ne = elim (Bool-cases (leb p.max_attempts (job.attempts + 1))) [
    | inl last ↦ rw last (mark_in-Keeps w job.id dead _ k s (λ j. refl) ne)
    | inr more ↦ rw more (mark_in-Keeps w job.id queued _ k s (λ j. refl) ne)
  ]

  finish-Keeps :
      (printer bytes : ℕ) (confirmed : Bool) (k : String) (s : WorkerState)
      → job.id ≢ k
      → Keeps k s (finish p w job.id printer bytes confirmed s).1
  unfolding finish
  finish-Keeps printer bytes confirmed k s ne = elim (Bool-cases p.store_payloads) [
    | inl keep ↦ rw keep (
      (mark_in-Keeps w job.id done _ k s (λ j. refl) ne).0,
      audits-audit_print w job.id printer bytes _ k s ∙ rw (not-str_eq job.id k ne) (omega arith),
    )
    | inr drop ↦ rw drop (
      select-redact_payload w job.id k _
          ∙ rw (not-str_eq job.id k ne) (mark_in-Keeps w job.id done _ k s (λ j. refl) ne).0,
      audits-audit_print w job.id printer bytes _ k s ∙ rw (not-str_eq job.id k ne) (omega arith),
    )
  ]

  after_send-Keeps :
      (printer : Row Printer) (o : SendOutcome) (k : String) (s : WorkerState)
      → job.id ≢ k
      → Keeps k s (after_send p w job printer o s).1
  unfolding after_send
  after_send-Keeps printer (send_result bytes confirmed) k s ne =
      finish-Keeps printer.id bytes confirmed k s ne
  after_send-Keeps printer (mid_send_error e) k s ne = (
    (mark_in-Keeps w job.id uncertain _ k s (λ j. refl) ne).0,
    audits-audit_print w job.id printer.id 0 "uncertain" k s
        ∙ rw (not-str_eq job.id k ne) (omega arith),
  )
  after_send-Keeps printer (printer_unreachable e) k s ne = retry_or_dead-Keeps printer.id e k s ne
  after_send-Keeps printer (backend_error e) k s ne = retry_or_dead-Keeps printer.id e k s ne
  after_send-Keeps printer (other_error e) k s ne = (refl, refl)

  after_render-Keeps :
      (printer : Row Printer) (r : Result PrintPayload) (k : String) (s : WorkerState)
      → job.id ≢ k
      → Keeps k s (after_render p w job printer r s).1
  unfolding after_render
  after_render-Keeps printer (ok payload) k s ne =
      let s' = mark_in w job.id printing no_fields s in
      let (rows, sent) = after_send-Keeps printer (w.send printer payload) k s' ne in
      (rows ∙ (mark_in-Keeps w job.id printing no_fields k s (λ j. refl) ne).0, sent)
  after_render-Keeps printer (err (api e)) k s ne =
      let s' = mark_in w job.id failed (with_error (of_api e)) s in
      (
        (mark_in-Keeps w job.id dead (with_error (of_api e)) k s' (λ j. refl) ne).0
            ∙ (mark_in-Keeps w job.id failed (with_error (of_api e)) k s (λ j. refl) ne).0,
        refl,
      )
  after_render-Keeps printer (err _) k s ne = (refl, refl)

  pub after_target-Keeps :
      (requested : Row Printer) (t : Target) (k : String) (s : WorkerState)
      → job.id ≢ k
      → Keeps k s (after_target p w job requested t s).1
  unfolding after_target
  after_target-Keeps requested unreachable k s ne = retry_or_dead-Keeps requested.id _ k s ne
  after_target-Keeps requested (broken e) k s ne = (refl, refl)
  after_target-Keeps requested (found printer) k s ne = after_render-Keeps printer _ k _ ne

pub id-get : (i : String) (st : JobStore) (j : Job) → Jobs.get i st ≡ ok j → j.id ≡ i
unfolding Jobs.get
id-get i st j h = id-select_job i st.jobs j (ground arith)

process-Keeps :
    (p : WorkerSettings) (w : World) (i k : String) (s : WorkerState)
    → i ≢ k
    → Keeps k s (process p w i s).1
unfolding process
process-Keeps p w i k s ne = elim (Result-cases (Jobs.get i s.store)) [
  | inr (e, missing) ↦ rw (missing, process) (refl, refl)
  | inl (job, got) ↦ elim (Result-cases (get_printer job.printer_id s.registry)) [
    | inr (e, missing) ↦ rw (got, process, missing) (refl, refl)
    | inl (requested, known) ↦
        rw (got, process, known)
          (after_target-Keeps p w job requested
            (with_backend w (resolve_target w.probe s.registry requested s.cursors).0) k _
            (λ same. ne (sym (id-get i s.store job got) ∙ same)))
  ]
]

-- A run for one job leaves the row of every other job, and what the audit says of it, as they were.
pub guarded-Keeps :
    (p : WorkerSettings) (w : World) (i k : String) (s : WorkerState)
    → i ≢ k
    → Keeps k s (guarded p w i s)
unfolding guarded
guarded-Keeps p w i k s ne = elim (Result-cases (process p w i s).0) [
  | inl (u, fine) ↦ rw (fine, guarded) (process-Keeps p w i k s ne)
  | inr (e, crashed) ↦
      rw (crashed, guarded)
        (let (rows, sent) = process-Keeps p w i k s ne in
          ((mark_in-Keeps w i failed _ k (process p w i s).1 (λ j. refl) ne).0 ∙ rows, sent))
]
