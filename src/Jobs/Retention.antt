-- ===== src/Jobs/Retention.antt =====
-- app/queue.py, class JobStore: listing, idempotency keys, redaction and pruning. The cut-off times of
-- `prune` are arguments, and so are SHA-256 and the length of a stored text.
use vibe_printer.Prelude.{
  ℕ, Bool, true, false, not, ◌&&◌, String, Option, none, some, List, [], ◌∷◌, ◌++◌, str_eq,
  if◌then◌else◌, keep, take, is_some,
}
use vibe_printer.Prelude.Texts.{Text, text_leb, text_ltb}
use vibe_printer.Prelude.Sort.{sort_by}
use vibe_printer.Errors.{Result, ok, err}
use vibe_printer.Models.{JobStatus}
use vibe_printer.JobTable.{Job, StoredPayload, redacted, select_job, update_job}
use vibe_printer.Jobs.{IdempotencyRow, JobStore, get, is_prunable}

-- `list_jobs`: the newest first, of one status and older than a cursor job if asked for.
abbrev pub newest_first : Job → Job → Bool
newest_first a b = text_leb b.created_at a.created_at

-- `created_at < (SELECT created_at FROM jobs WHERE id=?)`: no row passes if the cursor is not there.
unfoldable pub older_than : Option Job → Job → Bool
unfolding text_ltb
older_than none j = false
older_than (some cursor) j = text_ltb j.created_at cursor.created_at

unfoldable pub is_listed :
    (matches : Option (JobStatus → Bool)) (before_id : Option String) → JobStore → Job → Bool
unfolding older_than
is_listed matches before_id s j =
    elim matches [ none ↦ true | some p ↦ p j.status ]
    && elim before_id [ none ↦ true | some i ↦ older_than (select_job i s.jobs) j ]

unfoldable pub list_jobs :
    (matches : Option (JobStatus → Bool)) (limit : ℕ) (before_id : Option String)
    → JobStore
    → List Job
unfolding is_listed
list_jobs matches limit before_id s =
    take limit (sort_by newest_first (keep (is_listed matches before_id s) s.jobs))

-- The row of a key, of which `key TEXT PRIMARY KEY` allows one.
unfoldable pub lookup_key : String → List IdempotencyRow → Option IdempotencyRow
lookup_key k [] = none
lookup_key k (r ∷ rows) = let rest = lookup_key k rows in if str_eq r.key k then some r else rest

unfoldable pub idempotency_lookup : String → JobStore → Option IdempotencyRow
unfolding lookup_key
idempotency_lookup k s = lookup_key k s.idempotency

-- INSERT OR IGNORE
unfoldable pub idempotency_store :
    (key request_hash job_id : String) (now : Text) → JobStore → JobStore
unfolding lookup_key
idempotency_store key request_hash job_id now s =
    if is_some (lookup_key key s.idempotency) then s else record s {
      idempotency =
          s.idempotency
          ++ (record { key = key; request_hash = request_hash; job_id = job_id; created_at = now }
              ∷ []);
    }

module _ (sha256 : StoredPayload → String) (text_length : StoredPayload → ℕ) where
  unfoldable pub redact : Job → Job
  redact j = record j {
    payload_json = redacted (sha256 j.payload_json) (text_length j.payload_json);
  }

  unfoldable pub redact_payload : (job_id : String) → JobStore → Result (Unit {0}) × JobStore
  unfolding redact get
  redact_payload job_id s = elim (get job_id s) [
    | err e ↦ (err e, s)
    | ok job ↦ (ok tt, record s { jobs = update_job job_id redact s.jobs })
  ]

-- `prune`: finished jobs from before the one cut-off, idempotency rows from before the other.
unfoldable pub is_expired : Text → Job → Bool
unfolding is_prunable text_ltb
is_expired job_cut j = text_ltb j.created_at job_cut && is_prunable j.status

unfoldable pub prune : (job_cut idem_cut : Text) → JobStore → JobStore
unfolding is_expired
prune job_cut idem_cut s = record {
  jobs = keep (λ j. not (is_expired job_cut j)) s.jobs;
  idempotency = keep (λ r. not (text_ltb r.created_at idem_cut)) s.idempotency;
}
