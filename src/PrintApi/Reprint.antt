-- ===== src/PrintApi/Reprint.antt =====
-- app/api/jobs.py `reprint`: a job is queued again from its stored payload. Its row in the audit of
-- configuration changes is left out.
use vibe_printer.Prelude.{◌≡◌, refl, String, none, some, arith, inl, inr}
use vibe_printer.Errors.{Result, ok, err, raise, conflict, Result-cases}
use vibe_printer.JobTable.{Job, StoredPayload, full, redacted, select_job}
use vibe_printer.JobTable.Laws.{select_job-append}
use vibe_printer.Jobs
use vibe_printer.Jobs.{JobStore, EnqueueArgs, new_job, enqueue}
use vibe_printer.Jobs.Backpressure.{enqueue_cases}
use vibe_printer.PrintApi.{QueueSettings, Reading, Reply, plain_args, enqueue_under}

-- Metadata left by redaction cannot be printed.
unfoldable pub enqueue_again :
    QueueSettings → Reading → Job → StoredPayload → JobStore → Result Reply × JobStore
enqueue_again p r job (redacted _ _) s = (raise conflict, s)
enqueue_again p r job (full payload) s =
    enqueue_under r none ""
      (record (plain_args p job.printer_id payload) {
        format_id = job.format_id;
        template_id = job.template_id;
        resolved_version = job.resolved_version;
      })
      s

unfoldable pub reprint :
    QueueSettings → Reading → (job_id : String) → JobStore → Result Reply × JobStore
unfolding enqueue_again
reprint p r job_id s = elim (Jobs.get job_id s) [
  | err e ↦ (err e, s)
  | ok job ↦ enqueue_again p r job job.payload_json s
]

-- Without a key the store is what `enqueue` leaves.
store-enqueue_under :
    (r : Reading) (args : EnqueueArgs) (s : JobStore)
    → (enqueue_under r none "" args s).1 ≡ (enqueue r.job_id r.created_at r.updated_at args s).1
unfolding enqueue_under
store-enqueue_under r args s =
    elim (Result-cases (enqueue r.job_id r.created_at r.updated_at args s).0) [
      | inl (job, accepted) ↦ rw (accepted, enqueue_under) refl
      | inr (e, refused) ↦ rw (refused, enqueue_under) refl
    ]

row-enqueue :
    (r : Reading) (args : EnqueueArgs) (k : String) (s : JobStore) (j : Job)
    → select_job k s.jobs ≡ some j
    → select_job k (enqueue r.job_id r.created_at r.updated_at args s).1.jobs ≡ some j
row-enqueue r args k s j h = elim (enqueue_cases r.job_id r.created_at r.updated_at args s) [
  | inl (room, e) ↦
      rw (e, select_job-append k s.jobs (new_job r.job_id r.created_at r.updated_at args))
        (ground arith)
  | inr (inl (full_up, e)) ↦ rw e h
  | inr (inr (taken, e)) ↦ rw e h
]

enqueue_keeps :
    (r : Reading) (args : EnqueueArgs) (k : String) (s : JobStore) (j : Job)
    → select_job k s.jobs ≡ some j
    → select_job k (enqueue_under r none "" args s).1.jobs ≡ some j
enqueue_keeps r args k s j h = rw (store-enqueue_under r args s) (row-enqueue r args k s j h)

again_keeps :
    (p : QueueSettings) (r : Reading) (job : Job) (payload : StoredPayload) (k : String)
    (s : JobStore) (j : Job)
    → select_job k s.jobs ≡ some j
    → select_job k (enqueue_again p r job payload s).1.jobs ≡ some j
unfolding enqueue_again
again_keeps p r job (redacted d n) k s j h = h
again_keeps p r job (full payload) k s j h = enqueue_keeps r _ k s j h

-- A reprint, whether it is accepted or refused, leaves every job that is in the table as it was.
pub reprint_keeps :
    (p : QueueSettings) (r : Reading) (job_id k : String) (s : JobStore) (j : Job)
    → select_job k s.jobs ≡ some j
    → select_job k (reprint p r job_id s).1.jobs ≡ some j
unfolding reprint select_job
reprint_keeps p r job_id k s j h = elim (Result-cases (Jobs.get job_id s)) [
  | inr (e, missing) ↦ rw (missing, reprint) h
  | inl (job, got) ↦ rw (got, reprint) (again_keeps p r job job.payload_json k s j h)
]
