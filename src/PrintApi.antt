-- ===== src/PrintApi.antt =====
-- app/api/print.py: the handlers that put jobs into the queue. The readings of a request (the clock, the
-- new id, the check of base64 and the hash of a payload) are one argument.
pub mod Quotas
pub mod Targets
pub mod Replay
pub mod Reprint
use vibe_printer.Prelude.{
  ℕ, zero, suc, ◌+◌, ◌/◌, ◌%◌, Bool, true, false, not, ◌&&◌, String, Option, none, some, List, [],
  ◌∷◌, ◌++◌, ◌==◌, str_eq, leb, if◌then◌else◌, is_some, or_else,
}
use vibe_printer.Prelude.Int.{pos}
use vibe_printer.Prelude.Texts.{Text, codes, text_eq, decimal}
use vibe_printer.Errors.{
  Result, ok, err, raise, api, api_error, Failure, not_found, unsupported_for_printer,
  validation_error, quota_exceeded, idempotency_conflict, forbidden, ◌>>=◌,
}
use vibe_printer.Json.{Json, obj, num, null, bool, Fields, end, field, get_field, truthy}
use vibe_printer.Models.{
  PrinterType, pool, zpl_network, cups, ipp_network, Capabilities, ContentType, pdf, postscript,
  pcl, Payload, PrintRequest, FilePrintRequest, RawPrintRequest, JobStatus,
}
use vibe_printer.JobTable.{Job}
use vibe_printer.Jobs
use vibe_printer.Jobs.{JobStore, EnqueueArgs, IdempotencyRow, enqueue, count_printer_jobs_since}
use vibe_printer.Jobs.Retention.{idempotency_lookup, idempotency_store}
use vibe_printer.Registry.Versioned
use vibe_printer.Registry.Versioned.{Row}
use vibe_printer.Registry.Config.{Printer, Registry, get_printer}
use vibe_printer.Devices.{backend_capabilities, flag_param}
pub use Quotas.{ApiState, Reading}
pub use Targets.{Resolved, base_payload}
unfoldable pub use Quotas.{
  given_id, given_json, given_key, get_number, limit_of, quotas_of, enforce_quota,
}
unfoldable pub use Targets.{
  has_type, is_zpl, is_cups, is_office, accepts_rendered_pdf, stamped, resolve_default,
  resolve_rendered, resolve_targets,
}

pub record QueueSettings : Type 0 where
  pub queue_max_depth : ℕ
  pub per_printer_max_depth : ℕ

-- {"job_id": ..., "status": ..., "idempotent_replay": ...}
pub record Reply : Type 0 where
  pub reply_job : String
  pub reply_status : JobStatus
  pub idempotent_replay : Bool

-- The job that the row of a key names.
unfoldable pub replay : IdempotencyRow → JobStore → Result Reply
replay row s = do
  job ← Jobs.get row.job_id s
  ok (record { reply_job = job.id; reply_status = job.status; idempotent_replay = true })

-- The end of the handlers: `enqueue`, then the row of the key.
unfoldable pub enqueue_under :
    Reading
    → (key : Option String) → (hash : String) → EnqueueArgs
    → JobStore
    → Result Reply × JobStore
enqueue_under r key hash args s =
    let (queued, s') = enqueue r.job_id r.created_at r.updated_at args s in
    elim queued [
      | err e ↦ (err e, s')
      | ok job ↦ (
        ok (record { reply_job = job.id; reply_status = job.status; idempotent_replay = false }),
        elim key [ none ↦ s' | some k ↦ idempotency_store k hash job.id r.stored_at s' ],
      )
    ]

-- A key that is known answers for its job, if the payload is the same; otherwise a job is queued.
unfoldable pub submit_once :
    Reading
    → (key : Option String) → (hash : String) → EnqueueArgs
    → JobStore
    → Result Reply × JobStore
unfolding enqueue_under replay
submit_once r none hash args s = enqueue_under r none hash args s
submit_once r (some k) hash args s = elim (idempotency_lookup k s) [
  | none ↦ enqueue_under r (some k) hash args s
  | some row ↦
      if str_eq row.request_hash hash then (replay row s, s) else (raise idempotency_conflict, s)
]

unfoldable pub print_job :
    QueueSettings
    → Reading
    → (idempotency_key : Option String) → PrintRequest
    → ApiState
    → Result Reply × ApiState
unfolding given_key
print_job p r idempotency_key q s =
    let (resolved, g) = resolve_targets q s.registry in
    let s' = record s { registry = g } in
    elim (resolved >>= λ t. enforce_quota r q.printer s' >>= λ _. ok t) [
      | err e ↦ (err e, s')
      | ok t ↦
          let (result, st) =
            submit_once r (given_key idempotency_key) (r.request_hash q.printer t.payload)
              (record {
                printer_id = q.printer;
                payload = t.payload;
                format_id = t.format_id;
                template_id = t.template_id;
                resolved_version = t.resolved_version;
                idempotency_key = idempotency_key;
                priority = q.priority;
                scheduled_at = q.scheduled_at;
                global_max = p.queue_max_depth;
                per_printer_max = p.per_printer_max_depth;
              })
              s.store in
          (result, record s' { store = st })
    ]

-- `enqueue` with the defaults of its keyword arguments.
abbrev pub plain_args : QueueSettings → ℕ → Payload → EnqueueArgs
plain_args p printer payload = record {
  printer_id = printer;
  payload = payload;
  format_id = none;
  template_id = none;
  resolved_version = none;
  idempotency_key = none;
  priority = pos 0;
  scheduled_at = none;
  global_max = p.queue_max_depth;
  per_printer_max = p.per_printer_max_depth;
}

abbrev pub raw_payload : RawPrintRequest → Payload
raw_payload q = record {
  raw = some q.raw_data;
  file_content = none;
  content_type = none;
  media = none;
  payload_data = null;
  copies = 1;
  overlay = none;
  template = none;
  document = none;
  format = none;
}

unfoldable pub print_raw :
    QueueSettings → Reading → RawPrintRequest → ApiState → Result Reply × ApiState
unfolding is_cups
print_raw p r q s = elim (get_printer q.printer s.registry) [
  | err e ↦ (err e, s)
  | ok printer ↦
      if is_cups printer.content.config.type
      then (raise unsupported_for_printer, s)
      else if not printer.content.config.allow_raw
      then (raise forbidden, s)
      else elim (r.decoded_length q.raw_data) [
        | none ↦ (raise validation_error, s)
        | some n ↦
            let (result, st) =
              enqueue_under r none "" (plain_args p q.printer (raw_payload q)) s.store in
            (result, record s { store = st })
      ]
]

abbrev pub file_payload : FilePrintRequest → Payload
file_payload q = record {
  raw = none;
  file_content = some q.content;
  content_type = some q.content_type;
  media = q.media;
  payload_data = null;
  copies = q.copies;
  overlay = none;
  template = none;
  document = none;
  format = none;
}

-- The document of a file request must be decodable and not empty.
unfoldable pub check_document : Option ℕ → Result (Unit {0})
check_document none = raise validation_error
check_document (some zero) = raise validation_error
check_document (some (suc n)) = ok tt

unfoldable pub check_file :
    Reading → FilePrintRequest → ApiState → Result Capabilities → Result (Unit {0})
unfolding has_type check_document
check_file r q s (err e) = err e
check_file r q s (ok c) =
    if has_type q.content_type c.document_formats
    then elim (check_document (r.decoded_length q.content)) [
      | err e ↦ err e
      | ok _ ↦ enforce_quota r q.printer s
    ]
    else raise unsupported_for_printer

unfoldable pub print_file :
    QueueSettings
    → Reading
    → (idempotency_key : Option String) → FilePrintRequest
    → ApiState
    → Result Reply × ApiState
unfolding given_key check_file
print_file p r idempotency_key q s = elim (get_printer q.printer s.registry) [
  | err e ↦ (err e, s)
  | ok printer ↦
      let (caps, g) = backend_capabilities printer s.registry in
      let s' = record s { registry = g } in
      elim (check_file r q s' caps) [
        | err e ↦ (err e, s')
        | ok _ ↦
            let (result, st) =
              submit_once r (given_key idempotency_key) (r.request_hash q.printer (file_payload q))
                (record (plain_args p q.printer (file_payload q)) {
                  priority = q.priority;
                  scheduled_at = q.scheduled_at;
                })
                s.store in
            (result, record s' { store = st })
      ]
]
