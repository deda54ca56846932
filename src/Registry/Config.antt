-- ===== src/Registry/Config.antt =====
-- The class Registry: printers with their foreign keys, formats, templates, overlays, the device row.
use vibe_printer.Prelude.{
  ℕ, ◌+◌, Bool, true, ◌&&◌, String, Option, none, some, List, [], ◌∷◌, ◌==◌, if◌then◌else◌, is_some,
  map,
}
use vibe_printer.Errors.{
  conflict, unknown_printer, not_found, integrity_error, Result, ok, err, raise,
}
use vibe_printer.Json.{Json, Fields, field, end, set_field}
use vibe_printer.Models.{PrinterType, Capabilities}
use vibe_printer.Registry.Versioned
use vibe_printer.Registry.Versioned.{Row, Table, select_row}

-- The body of a create or update request for a printer.
pub record PrinterCreate : Type 0 where
  pub name : String
  pub type : PrinterType
  pub params : Fields
  pub default_format_id : Option ℕ
  pub default_template_id : Option ℕ
  pub allow_raw : Bool

-- The columns of a printer: what a request sets, and the cached capabilities.
pub record Printer : Type 0 where
  pub config : PrinterCreate
  pub open config use *
  pub capabilities : Option Capabilities

pub record Format : Type 0 where
  pub name : String
  pub elements : Json
  pub sample_data : Json

pub record Template : Type 0 where
  pub name : String
  pub html : String
  pub css : String
  pub page_setup : Json
  pub sample_data : Json

pub record Overlay : Type 0 where
  pub name : String
  pub base_asset : String
  pub fields : Json
  pub sample_data : Json

pub record Device : Type 0 where
  pub name : String
  pub timezone : String
  pub config : Json
  pub version : ℕ

pub record Registry : Type 0 where
  pub printers : Table Printer
  pub formats : Table Format
  pub templates : Table Template
  pub overlays : Table Overlay
  pub device : Device

-- A key that is null, or the id of a row.
unfoldable pub refers : {C : Type 0} → Table C → Option ℕ → Bool
refers t none = true
refers t (some i) = is_some (select_row i t.rows)

-- The foreign keys of a row of `printers`: REFERENCES formats(id), REFERENCES pdf_templates(id).
unfoldable pub keys_hold : Registry → PrinterCreate → Bool
unfolding refers
keys_hold g p = refers g.formats p.default_format_id && refers g.templates p.default_template_id

unfoldable pub get_printer : ℕ → Registry → Result (Row Printer)
get_printer i g = Versioned.get unknown_printer i g.printers

unfoldable pub create_printer : PrinterCreate → Registry → Result (Row Printer) × Registry
unfolding keys_hold
create_printer p g =
    if keys_hold g p
    then (let (result, t) =
          Versioned.create unknown_printer (record { config = p; capabilities = none })
            g.printers in
        (result, record g { printers = t }))
    else (err integrity_error, g)

-- A stale version is refused before the UPDATE meets the foreign keys. The cached capabilities go.
unfoldable pub update_printer :
    (i supplied : ℕ) → PrinterCreate → Registry → Result (Row Printer) × Registry
unfolding keys_hold
update_printer i supplied p g =
    let (result, t) =
      Versioned.update unknown_printer i supplied (record { config = p; capabilities = none })
        g.printers in
    elim result [
      | err e ↦ (err e, g)
      | ok r ↦ if keys_hold g p then (ok r, record g { printers = t }) else (err integrity_error, g)
    ]

-- UPDATE printers SET ... WHERE id=?, with no new version.
unfoldable pub patch_rows : ℕ → (Printer → Printer) → List (Row Printer) → List (Row Printer)
patch_rows i set [] = []
patch_rows i set (r ∷ rows) =
    (if r.id == i then record r { content = set r.content } else r) ∷ patch_rows i set rows

unfoldable pub set_capabilities : ℕ → Capabilities → Registry → Registry
unfolding patch_rows
set_capabilities i caps g = record g {
  printers = record g.printers {
    rows = patch_rows i (λ p. record p { capabilities = some caps }) g.printers.rows;
  };
}

-- `params.update(patch)`
unfoldable pub merge_fields : Fields → Fields → Fields
unfolding set_field
merge_fields m end = m
merge_fields m (field k v patch) = merge_fields (set_field k v m) patch

abbrev pub patch_params : Fields → Printer → Printer
patch_params patch p = record p {
  config = record p.config { params = merge_fields p.config.params patch };
}

unfoldable pub update_printer_params : ℕ → Fields → Registry → Result (Unit {0}) × Registry
unfolding patch_rows
update_printer_params i patch g = elim (get_printer i g) [
  | err e ↦ (err e, g)
  | ok r ↦ (
    ok tt,
    record g {
      printers = record g.printers { rows = patch_rows i (patch_params patch) g.printers.rows };
    },
  )
]

-- With the last printer gone the AUTOINCREMENT counter starts again.
unfoldable pub restart_ids : {C : Type 0} → Table C → Table C
restart_ids t = elim t.rows [ [] ↦ record t { sequence = 0 } | r ∷ rows ↦ t ]

unfoldable pub delete_printer : ℕ → Registry → Result (Unit {0}) × Registry
unfolding restart_ids
delete_printer i g =
    let (result, t) = Versioned.delete unknown_printer i g.printers in
    elim result [ err e ↦ (err e, g) | ok _ ↦ (ok tt, record g { printers = restart_ids t }) ]

-- ON DELETE SET NULL
unfoldable pub unlink : ℕ → Option ℕ → Option ℕ
unlink i none = none
unlink i (some k) = if k == i then none else some k

abbrev pub unlink_format : ℕ → Row Printer → Row Printer
unlink_format i r = record r {
  content = record r.content {
    config = record r.content.config {
      default_format_id = unlink i r.content.config.default_format_id;
    };
  };
}

abbrev pub unlink_template : ℕ → Row Printer → Row Printer
unlink_template i r = record r {
  content = record r.content {
    config = record r.content.config {
      default_template_id = unlink i r.content.config.default_template_id;
    };
  };
}

unfoldable pub create_format : Format → Registry → Result (Row Format) × Registry
create_format f g =
    let (result, t) = Versioned.create not_found f g.formats in (result, record g { formats = t })

unfoldable pub update_format : (i supplied : ℕ) → Format → Registry → Result (Row Format) × Registry
update_format i supplied f g =
    let (result, t) = Versioned.update not_found i supplied f g.formats in
    (result, record g { formats = t })

unfoldable pub delete_format : ℕ → Registry → Result (Unit {0}) × Registry
unfolding unlink
delete_format i g =
    let (result, t) = Versioned.delete not_found i g.formats in
    elim result [
      | err e ↦ (err e, g)
      | ok _ ↦ (
        ok tt,
        record g {
          printers = record g.printers { rows = map (unlink_format i) g.printers.rows };
          formats = t;
        },
      )
    ]

unfoldable pub create_template : Template → Registry → Result (Row Template) × Registry
create_template f g =
    let (result, t) = Versioned.create not_found f g.templates in
    (result, record g { templates = t })

unfoldable pub update_template :
    (i supplied : ℕ) → Template → Registry → Result (Row Template) × Registry
update_template i supplied f g =
    let (result, t) = Versioned.update not_found i supplied f g.templates in
    (result, record g { templates = t })

unfoldable pub delete_template : ℕ → Registry → Result (Unit {0}) × Registry
unfolding unlink
delete_template i g =
    let (result, t) = Versioned.delete not_found i g.templates in
    elim result [
      | err e ↦ (err e, g)
      | ok _ ↦ (
        ok tt,
        record g {
          printers = record g.printers { rows = map (unlink_template i) g.printers.rows };
          templates = t;
        },
      )
    ]

unfoldable pub create_overlay : Overlay → Registry → Result (Row Overlay) × Registry
create_overlay o g =
    let (result, t) = Versioned.create not_found o g.overlays in (result, record g { overlays = t })

unfoldable pub update_overlay :
    (i supplied : ℕ) → Overlay → Registry → Result (Row Overlay) × Registry
update_overlay i supplied o g =
    let (result, t) = Versioned.update not_found i supplied o g.overlays in
    (result, record g { overlays = t })

unfoldable pub delete_overlay : ℕ → Registry → Result (Unit {0}) × Registry
delete_overlay i g =
    let (result, t) = Versioned.delete not_found i g.overlays in (result, record g { overlays = t })

-- The single row of `device_settings`.
unfoldable pub update_device :
    (name timezone : String) (config : Json) (supplied : ℕ) → Registry → Result Device × Registry
update_device name timezone config supplied g =
    if g.device.version == supplied
    then (let d : Device = record {
      name = name;
      timezone = timezone;
      config = config;
      version = g.device.version + 1;
    } in
        (ok d, record g { device = d }))
    else (raise conflict, g)
