-- ===== src/JobTable.antt =====
-- app/queue.py: a row of the table `jobs` (app/migrations/0001_init.sql, 0002_features.sql) and the
-- statements that read and write one row by its key. The JSON text of `payload_json` is kept as the
-- value that it encodes.
pub mod Laws
use vibe_printer.Prelude.{
  ℕ, ◌+◌, Bool, true, false, String, Option, none, some, List, [], ◌∷◌, str_eq, if◌then◌else◌,
  find_first, map,
}
use vibe_printer.Prelude.Texts.{Text}
use vibe_printer.Prelude.Int.{ℤ}
use vibe_printer.Errors.{ApiError}
use vibe_printer.Models.{Payload, JobStatus, Delivery}

-- `last_error`: "code: message" of an ApiError, or the text of another exception.
pub data LastError : Type 0 where
  of_api : ApiError → LastError
  of_exception : String → LastError

-- `payload_json`: the payload, or the metadata that replaces it once it is redacted.
pub data StoredPayload : Type 0 where
  full : Payload → StoredPayload
  redacted : (sha256 : String) (bytes : ℕ) → StoredPayload

pub record Job : Type 0 where
  pub id : String
  pub idempotency_key : Option String
  pub printer_id : ℕ
  pub format_id : Option ℕ
  pub template_id : Option ℕ
  pub resolved_version : Option ℕ
  pub payload_json : StoredPayload
  pub status : JobStatus
  pub delivery : Option Delivery
  pub attempts : ℕ
  pub last_error : Option LastError
  pub next_attempt_at : Option Text
  pub priority : ℤ
  pub scheduled_at : Option Text
  pub created_at : Text
  pub updated_at : Text

-- SELECT * FROM jobs WHERE id=?
unfoldable pub select_job : String → List Job → Option Job
select_job job_id [] = none
select_job job_id (j ∷ rows) =
    let rest = select_job job_id rows in if str_eq j.id job_id then some j else rest

-- UPDATE jobs SET ... WHERE id=?
unfoldable pub update_job : String → (Job → Job) → List Job → List Job
update_job job_id set [] = []
update_job job_id set (j ∷ rows) =
    (if str_eq j.id job_id then set j else j) ∷ update_job job_id set rows
