-- ===== src/Jobs.antt =====
-- app/queue.py, class JobStore: the methods over the tables `jobs` and `idempotency`. A method takes
-- the store and gives its result beside the new store. Clock readings (`utcnow_iso`) and the id that
-- `uuid4` gives are arguments. Timestamps are the texts that are stored and compared.
pub mod Backpressure
pub mod Lifecycle
pub mod Ready
pub mod Retention
pub mod Kept
use mathlib.Core.Option.{map as map_option}
use vibe_printer.Prelude.{
  ℕ, zero, suc, ◌+◌, Bool, true, false, not, ◌&&◌, ◌||◌, String, Option, none, some, List, [], ◌∷◌,
  ◌++◌, ◌==◌, str_eq, leb, if◌then◌else◌, keep, take, is_some,
}
use vibe_printer.Prelude.Counting.{count_if}
use vibe_printer.Prelude.Texts.{Text, text_leb}
use vibe_printer.Prelude.Int.{ℤ, pos, ltb_ℤ, leb_ℤ}
use vibe_printer.Prelude.Sort.{sort_by}
use vibe_printer.Errors.{
  ErrorCode, queue_full, not_found, conflict, api_error, Failure, api, integrity_error, Result, ok,
  err, raise,
}
use vibe_printer.Models.{
  Payload, JobStatus, queued, rendering, printing, done, failed, dead, canceled, uncertain,
}
use vibe_printer.JobTable.{Job, StoredPayload, full, redacted, select_job, update_job}

-- A row of the table `idempotency`.
pub record IdempotencyRow : Type 0 where
  pub key : String
  pub request_hash : String
  pub job_id : String
  pub created_at : Text

pub record JobStore : Type 0 where
  pub jobs : List Job
  pub idempotency : List IdempotencyRow

-- ACTIVE_STATES
unfoldable pub is_active : JobStatus → Bool
is_active queued = true
is_active rendering = true
is_active printing = true
is_active _ = false

unfoldable pub is_queued : JobStatus → Bool
is_queued queued = true
is_queued _ = false

unfoldable pub is_canceled : JobStatus → Bool
is_canceled canceled = true
is_canceled _ = false

-- The states in which a row may be pruned.
unfoldable pub is_prunable : JobStatus → Bool
is_prunable done = true
is_prunable failed = true
is_prunable dead = true
is_prunable canceled = true
is_prunable _ = false

-- What `depth`, `printer_depth` and `count_printer_jobs_since` count.
unfoldable pub depth : JobStore → ℕ
unfolding is_active
depth s = count_if (λ j. is_active j.status) s.jobs

unfoldable pub printer_depth : ℕ → JobStore → ℕ
unfolding is_active
printer_depth printer_id s =
    count_if (λ j. (j.printer_id == printer_id) && is_active j.status) s.jobs

unfoldable pub count_printer_jobs_since : ℕ → Text → JobStore → ℕ
unfolding is_canceled
count_printer_jobs_since printer_id since s =
    count_if
      (λ j.
        (j.printer_id == printer_id) && (text_leb since j.created_at && not (is_canceled j.status)))
      s.jobs

-- A missing row is a 404.
unfoldable pub found : Option Job → Result Job
found none = raise not_found
found (some j) = ok j

unfoldable pub get : String → JobStore → Result Job
unfolding found
get job_id s = found (select_job job_id s.jobs)

pub record EnqueueArgs : Type 0 where
  pub printer_id : ℕ
  pub payload : Payload
  pub format_id : Option ℕ
  pub template_id : Option ℕ
  pub resolved_version : Option ℕ
  pub idempotency_key : Option String
  pub priority : ℤ
  pub scheduled_at : Option Text
  pub global_max : ℕ
  pub per_printer_max : ℕ

-- The row that `enqueue` inserts, at two readings of the clock.
abbrev pub new_job : (job_id : String) (created_at updated_at : Text) → EnqueueArgs → Job
new_job job_id created_at updated_at a = record {
  id = job_id;
  idempotency_key = a.idempotency_key;
  printer_id = a.printer_id;
  format_id = a.format_id;
  template_id = a.template_id;
  resolved_version = a.resolved_version;
  payload_json = full a.payload;
  status = queued;
  delivery = none;
  attempts = 0;
  last_error = none;
  next_attempt_at = none;
  priority = a.priority;
  scheduled_at = a.scheduled_at;
  created_at = created_at;
  updated_at = updated_at;
}

-- Backpressure, then the INSERT, which the primary key refuses for an id that is there.
unfoldable pub enqueue :
    (job_id : String) (created_at updated_at : Text)
    → EnqueueArgs
    → JobStore
    → Result Job × JobStore
unfolding get
enqueue job_id created_at updated_at a s =
    if leb a.global_max (depth s)
    then (err (api (api_error queue_full (some 429))), s)
    else if leb a.per_printer_max (printer_depth a.printer_id s)
    then (err (api (api_error queue_full (some 429))), s)
    else if is_some (select_job job_id s.jobs)
    then (err integrity_error, s)
    else let s' = record s { jobs = s.jobs ++ (new_job job_id created_at updated_at a ∷ []) } in
      (get job_id s', s')

-- `ready`: ORDER BY priority DESC, created_at ASC LIMIT 50.
unfoldable pub reached : Text → Option Text → Bool
reached now none = true
reached now (some t) = text_leb t now

unfoldable pub is_due : Text → Job → Bool
unfolding is_queued reached
is_due now j = is_queued j.status && (reached now j.next_attempt_at && reached now j.scheduled_at)

unfoldable pub ready_before : Job → Job → Bool
ready_before a b =
    ltb_ℤ b.priority a.priority
    || (leb_ℤ b.priority a.priority && text_leb a.created_at b.created_at)

unfoldable pub ready : Text → JobStore → List Job
unfolding is_due ready_before
ready now s = take 50 (sort_by ready_before (keep (is_due now) s.jobs))

-- UPDATE jobs SET status='rendering' WHERE id=? AND status='queued'; True if a row was changed.
unfoldable pub set_rendering : Text → Job → Job
unfolding is_queued
set_rendering now j =
    if is_queued j.status then record j { status = rendering; updated_at = now } else j

unfoldable pub claim : (job_id : String) (now : Text) → JobStore → Bool × JobStore
unfolding set_rendering
claim job_id now s = (
  elim (select_job job_id s.jobs) [ none ↦ false | some j ↦ is_queued j.status ],
  record s { jobs = update_job job_id (set_rendering now) s.jobs },
)

-- `mark`: `fields` assigns the further columns.
abbrev pub set_status : JobStatus → Text → (Job → Job) → Job → Job
set_status status now fields j = record (fields j) { status = status; updated_at = now }

unfoldable pub mark : (job_id : String) (now : Text) → JobStatus → (Job → Job) → JobStore → JobStore
mark job_id now status fields s = record s {
  jobs = update_job job_id (set_status status now fields) s.jobs;
}

abbrev pub no_fields : Job → Job
no_fields j = j

-- `cancel`, `requeue` and `resolve` look at the state first.
unfoldable pub may_cancel : JobStatus → Bool
may_cancel queued = true
may_cancel failed = true
may_cancel _ = false

unfoldable pub may_requeue : JobStatus → Bool
may_requeue failed = true
may_requeue dead = true
may_requeue uncertain = true
may_requeue canceled = true
may_requeue _ = false

unfoldable pub is_uncertain : JobStatus → Bool
is_uncertain uncertain = true
is_uncertain _ = false

-- The shape of the three: read, refuse unless `allowed`, mark, read again.
unfoldable pub admin_mark :
    (allowed : JobStatus → Bool) (job_id : String) (now : Text)
    → JobStatus
    → (Job → Job)
    → JobStore
    → Result Job × JobStore
unfolding get mark
admin_mark allowed job_id now status fields s = elim (get job_id s) [
  | err e ↦ (err e, s)
  | ok job ↦
      if allowed job.status
      then (let s' = mark job_id now status fields s in (get job_id s', s'))
      else (raise conflict, s)
]

unfoldable pub cancel : (job_id : String) (now : Text) → JobStore → Result Job × JobStore
unfolding admin_mark may_cancel
cancel job_id now = admin_mark may_cancel job_id now canceled no_fields

abbrev pub reset_fields : Job → Job
reset_fields j = record j { attempts = 0; next_attempt_at = none; last_error = none }

unfoldable pub requeue : (job_id : String) (now : Text) → JobStore → Result Job × JobStore
unfolding admin_mark may_requeue
requeue job_id now = admin_mark may_requeue job_id now queued reset_fields

unfoldable pub resolve :
    (job_id : String) (now : Text) (outcome : String) → JobStore → Result Job × JobStore
unfolding admin_mark is_uncertain
resolve job_id now outcome =
    admin_mark is_uncertain job_id now (if str_eq outcome "done" then done else failed) no_fields
