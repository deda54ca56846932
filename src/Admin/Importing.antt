-- ===== src/Admin/Importing.antt =====
-- app/admin.py: import_config and provision, the two handlers that import a configuration. `read_yaml` stands
-- for the YAML parser and the request models.
use vibe_printer.Prelude.{true, false, String, none, some, if◌then◌else◌}
use vibe_printer.Errors.{Failure, Result, ok, err, ◌>>=◌}
use vibe_printer.Json.{Json, null, bool, str, obj, Fields, set_field, truthy}
use vibe_printer.Json.Values.{get_or, type_error}
use vibe_printer.Registry.Config.{Device, Registry, update_device}
use vibe_printer.Registry.Yaml.{Document, Plan, import_yaml}
use vibe_printer.Audit.{ConfigChange}
use vibe_printer.Admin.{AdminState, Request, change, config_change}

module _ (q : Request) (read_yaml : Json → Result Document) (diff_of : Plan → String) where
  -- The audit of an import carries its plan.
  abbrev import_change : Plan → ConfigChange
  import_change p = record (change q "config" none "import") { diff = some (diff_of p) }

  unfoldable pub import_config : (body : Fields) → AdminState → Result Plan × AdminState
  unfolding import_yaml config_change
  import_config body s =
      let dry_run = truthy (get_or "dry_run" (bool true) body) in
      let (r, g) = import_yaml (read_yaml (get_or "yaml" (str "") body)) dry_run s.registry in
      elim r [
        | err e ↦ (err e, record s { registry = g })
        | ok p ↦ (
          ok p,
          if dry_run
              then record s { registry = g }
              else config_change q (import_change p) (record s { registry = g }),
        )
      ]

  -- A field of `DeviceUpdate` that is a text.
  unfoldable pub text_field : Json → Result String
  text_field (str t) = ok t
  text_field v = err (Failure.other_exception "ValidationError")

  -- `dict(dev["config"])` with the mark of a device that is set up.
  unfoldable pub provisioned : Json → Result Json
  provisioned (obj m) = ok (obj (set_field "provisioned" (bool true) m))
  provisioned v = err type_error

  unfoldable pub update_provisioned : (body : Fields) → Registry → Result Device × Registry
  unfolding text_field provisioned get_or
  update_provisioned body g =
      let fields : Result (String × String × Json) = (do
        config ← provisioned g.device.config
        name ← text_field (get_or "name" (str g.device.name) body)
        timezone ← text_field (get_or "timezone" (str g.device.timezone) body)
        ok (name, timezone, config)) in
      elim fields [ err e ↦ (err e, g) | ok f ↦ update_device f.0 f.1 f.2 g.device.version g ]

  -- `if body.get("yaml")`: an import that is not a dry run.
  unfoldable pub import_given : (body : Fields) → Registry → Result (Unit {0}) × Registry
  import_given body g =
      let yaml = get_or "yaml" null body in
      let (r, h) = import_yaml (read_yaml yaml) false g in
      if truthy yaml then (elim r [ err e ↦ (err e, h) | ok p ↦ (ok tt, h) ]) else (ok tt, g)

  unfoldable pub provision : (body : Fields) → AdminState → Result Device × AdminState
  unfolding update_provisioned import_given config_change
  provision body s =
      let (r, g) = update_provisioned body s.registry in
      elim r [
        | err e ↦ (err e, record s { registry = g })
        | ok d ↦
            let (i, h) = import_given body g in
            elim i [
              | err e ↦ (err e, record s { registry = h })
              | ok u ↦ (
                ok h.device,
                config_change q (change q "device" none "provision") (record s { registry = h }),
              )
            ]
      ]
