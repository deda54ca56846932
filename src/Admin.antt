-- ===== src/Admin.antt =====
-- app/admin.py: the handlers of the administration API that change something, each with the call of
-- app/audit.py `config_change` that follows it. The hash, the texts of `json.dumps` and `str`, readings of
-- the clock, new ids, the commands of CUPS and the page that reportlab draws are arguments.
pub mod Printing
pub mod Operations
pub mod Calls
pub mod Entries
pub mod Logged
pub mod Remote
pub mod Secret
pub mod Importing
pub mod Unaudited
use vibe_printer.Prelude.{
  ℕ, ◌+◌, Bool, true, false, not, String, Option, none, some, List, [], ◌∷◌, str_eq, if◌then◌else◌,
}
use vibe_printer.Prelude.Texts.{Text}
use vibe_printer.Prelude.Int.{pos}
use vibe_printer.Errors.{
  Failure, Result, ok, err, raise, unsupported_for_printer, validation_error, printer_unreachable,
}
use vibe_printer.Json.{
  Json, null, bool, num, str, arr, obj, nil, cons, Fields, end, field, get_field, set_field, truthy,
}
use vibe_printer.Json.Values.{get_or}
use vibe_printer.Models.{Payload, PrinterType, cups, ipp_network, Capabilities, pdf}
use vibe_printer.JobTable.{Job, StoredPayload}
use vibe_printer.Jobs
use vibe_printer.Jobs.{JobStore, enqueue}
use vibe_printer.Jobs.Retention.{redact_payload, prune}
use vibe_printer.Registry.Versioned.{Row}
use vibe_printer.Registry.Config.{
  PrinterCreate, Printer, Format, Template, Overlay, Device, Registry, get_printer, create_printer,
  update_printer, delete_printer, update_printer_params, create_format, update_format,
  delete_format, create_template, update_template, delete_template, create_overlay, update_overlay,
  delete_overlay, update_device,
}
use vibe_printer.Devices.{backend_capabilities}
use vibe_printer.PrintApi.{QueueSettings, plain_args}
use vibe_printer.Audit.{ConfigChange, PrintOutcome, AuditTable, record_entry, prune_audit}

pub record AdminState : Type 0 where
  pub registry : Registry
  pub store : JobStore
  pub config_audit : AuditTable ConfigChange
  pub print_audit : AuditTable PrintOutcome

-- What one request reads: its sender and the outside world.
pub record Request : Type 0 where
  pub real_ip : Option String
  pub now : Text
  pub job_id : String
  pub str_of : ℕ → String
  pub sha256 : Text → Text
  pub dumps : ConfigChange → Text → Text
  pub print_dumps : PrintOutcome → Text → Text
  pub payload_hash : StoredPayload → String
  pub payload_length : StoredPayload → ℕ
  pub test_page : Text → String
  pub text_now : String
  pub provision : Row Printer → (device_uri make_model : Json) → Result (Unit {0})

-- `ctx.audit.config_change(...)`, without a diff.
abbrev pub change :
    Request → (entity : String) (entity_id : Option String) (action : String) → ConfigChange
change q entity entity_id action = record {
  actor = none;
  real_ip = q.real_ip;
  entity = entity;
  entity_id = entity_id;
  action = action;
  diff = none;
}

unfoldable pub config_change : Request → ConfigChange → AdminState → AdminState
config_change q c s = record s {
  config_audit = record_entry q.sha256 q.dumps c q.now s.config_audit;
}

-- A call of the registry, and the audit once it has returned.
unfoldable pub registry_then :
    {A : Type 0}
    → Request
    → Result A × Registry
    → (A → ConfigChange)
    → AdminState
    → Result A × AdminState
unfolding config_change
registry_then q (err e, g) c s = (err e, record s { registry = g })
registry_then q (ok a, g) c s = (ok a, config_change q (c a) (record s { registry = g }))

module _ (q : Request) where
  abbrev of_row : {C : Type 0} → (entity action : String) → Row C → ConfigChange
  of_row entity action r = change q entity (some (q.str_of r.id)) action

  abbrev of_id : {A : Type 0} → (entity : String) (i : ℕ) (action : String) → A → ConfigChange
  of_id entity i action a = change q entity (some (q.str_of i)) action

  unfoldable pub admin_update_device :
      (name timezone : String) (config : Json) (version : ℕ)
      → AdminState
      → Result Device × AdminState
  unfolding registry_then
  admin_update_device name timezone config version s =
      registry_then q (update_device name timezone config version s.registry)
        (λ d. change q "device" none "update") s

  unfoldable pub admin_create_printer :
      PrinterCreate → AdminState → Result (Row Printer) × AdminState
  unfolding registry_then
  admin_create_printer p s =
      registry_then q (create_printer p s.registry) (of_row "printer" "create") s

  unfoldable pub admin_update_printer :
      (i version : ℕ) → PrinterCreate → AdminState → Result (Row Printer) × AdminState
  unfolding registry_then
  admin_update_printer i version p s =
      registry_then q (update_printer i version p s.registry) (of_id "printer" i "update") s

  unfoldable pub admin_delete_printer : ℕ → AdminState → Result (Unit {0}) × AdminState
  unfolding registry_then
  admin_delete_printer i s =
      registry_then q (delete_printer i s.registry) (of_id "printer" i "delete") s

  unfoldable pub admin_create_format : Format → AdminState → Result (Row Format) × AdminState
  unfolding registry_then
  admin_create_format f s =
      registry_then q (create_format f s.registry) (of_row "format" "create") s

  unfoldable pub admin_update_format :
      (i version : ℕ) → Format → AdminState → Result (Row Format) × AdminState
  unfolding registry_then
  admin_update_format i version f s =
      registry_then q (update_format i version f s.registry) (of_id "format" i "update") s

  unfoldable pub admin_delete_format : ℕ → AdminState → Result (Unit {0}) × AdminState
  unfolding registry_then
  admin_delete_format i s =
      registry_then q (delete_format i s.registry) (of_id "format" i "delete") s

  unfoldable pub admin_create_template : Template → AdminState → Result (Row Template) × AdminState
  unfolding registry_then
  admin_create_template t s =
      registry_then q (create_template t s.registry) (of_row "template" "create") s

  unfoldable pub admin_update_template :
      (i version : ℕ) → Template → AdminState → Result (Row Template) × AdminState
  unfolding registry_then
  admin_update_template i version t s =
      registry_then q (update_template i version t s.registry) (of_id "template" i "update") s

  unfoldable pub admin_delete_template : ℕ → AdminState → Result (Unit {0}) × AdminState
  unfolding registry_then
  admin_delete_template i s =
      registry_then q (delete_template i s.registry) (of_id "template" i "delete") s

  unfoldable pub admin_create_overlay : Overlay → AdminState → Result (Row Overlay) × AdminState
  unfolding registry_then
  admin_create_overlay o s =
      registry_then q (create_overlay o s.registry) (of_row "overlay" "create") s

  unfoldable pub admin_update_overlay :
      (i version : ℕ) → Overlay → AdminState → Result (Row Overlay) × AdminState
  unfolding registry_then
  admin_update_overlay i version o s =
      registry_then q (update_overlay i version o s.registry) (of_id "overlay" i "update") s

  unfoldable pub admin_delete_overlay : ℕ → AdminState → Result (Unit {0}) × AdminState
  unfolding registry_then
  admin_delete_overlay i s =
      registry_then q (delete_overlay i s.registry) (of_id "overlay" i "delete") s
