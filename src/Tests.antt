-- ===== src/Tests.antt =====
-- A small installation to try the development on, and the theorems applied to it.
mod Queue
mod Config
mod Sending
mod Guards
mod Ipp
mod Render
mod Life
mod Admin
mod Sent
mod Imports
mod Clients
mod Stamped
use vibe_printer.Prelude.{ℕ, Bool, true, false, String, Option, none, some, List, [], ◌∷◌}
use vibe_printer.Prelude.Int.{pos}
use vibe_printer.Prelude.Texts.{codes}
use vibe_printer.Errors.{ok}
use vibe_printer.Json.{Json, null, num, arr, str, cons, nil, Fields, end, field}
use vibe_printer.Models.{
  Payload, PrinterType, virtual, pool, escpos, JobStatus, queued, failed, rendering, Capabilities,
  no_capabilities,
}
use vibe_printer.JobTable.{Job}
use vibe_printer.Jobs.{JobStore, EnqueueArgs, new_job}
use vibe_printer.Registry.Versioned.{Row}
use vibe_printer.Registry.Config.{PrinterCreate, Printer, Format, Registry}
use vibe_printer.Worker.{WorkerSettings, World, WorkerState, send_result, PrintPayload}

abbrev pub receipt : Payload
receipt = record {
  raw = none;
  file_content = none;
  content_type = none;
  media = none;
  payload_data = null;
  copies = 1;
  overlay = none;
  template = none;
  document = none;
  format = some 1;
}

abbrev pub to_printer : ℕ → EnqueueArgs
to_printer p = record {
  printer_id = p;
  payload = receipt;
  format_id = some 1;
  template_id = none;
  resolved_version = some 1;
  idempotency_key = none;
  priority = pos 0;
  scheduled_at = none;
  global_max = 10;
  per_printer_max = 2;
}

abbrev pub job_a : Job
job_a =
    new_job "a" (codes "2026-06-27T10:05:000001Z") (codes "2026-06-27T10:05:000002Z") (to_printer 1)

abbrev pub in_status : JobStatus → Job
in_status s = record job_a { status = s }

abbrev pub holding : Job → JobStore
holding j = record { jobs = j ∷ []; idempotency = [] }

abbrev pub printer_of : PrinterType → Fields → Printer
printer_of t m = record {
  config = record {
    name = "front";
    type = t;
    params = m;
    default_format_id = some 1;
    default_template_id = none;
    allow_raw = false;
  };
  capabilities = none;
}

abbrev pub front : Row Printer
front = record { id = 1; version = 1; content = printer_of virtual end }

abbrev pub pool_params : Fields
pool_params =
    field "members" (arr (cons (num 1) (cons (num 9) nil)))
      (field "strategy" (str "round_robin") end)

abbrev pub all_printers : Row Printer
all_printers = record { id = 2; version = 1; content = printer_of pool pool_params }

abbrev pub slip : Format
slip = record { name = "slip"; elements = arr nil; sample_data = null }

abbrev pub shop : Registry
shop = record {
  printers = record { rows = front ∷ all_printers ∷ []; sequence = 2 };
  formats = record { rows = record { id = 1; version = 1; content = slip } ∷ []; sequence = 1 };
  templates = record { rows = []; sequence = 0 };
  overlays = record { rows = []; sequence = 0 };
  device = record { name = "till"; timezone = "UTC"; config = null; version = 1 };
}

abbrev pub settings : WorkerSettings
settings = record {
  max_attempts = 3;
  retry_base_seconds = 5;
  retry_max_seconds = 60;
  store_payloads = true;
}

-- A world where every device is up and takes what it is sent.
abbrev pub fine_day : World
fine_day = record {
  now = codes "2026-06-27T10:06:000001Z";
  retry_at = λ n. codes "2026-06-27T10:07:000001Z";
  probe = λ i. true;
  make_backend = λ printer. ok tt;
  render = λ g payload p. (
    ok (record { kind = escpos; bytes = 27 ∷ []; option_copies = none; option_media = none }),
    g,
  );
  send = λ p payload. send_result 1 true;
  sha256 = λ t. "digest";
  text_length = λ t. 2;
}

abbrev pub worker_with : JobStore → WorkerState
worker_with st = record { store = st; registry = shop; cursors = []; print_audit = []; alerts = [] }
