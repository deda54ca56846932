-- ===== src/PrintApi/Targets.antt =====
-- app/api/print.py: `_resolve_targets`, what a request is printed with and on which printer.
use vibe_printer.Prelude.{
  ℕ, Bool, true, false, ◌&&◌, Option, none, some, List, [], ◌∷◌, if◌then◌else◌, is_some, or_else,
}
use vibe_printer.Errors.{
  Result, ok, err, raise, not_found, unsupported_for_printer, validation_error, ◌>>=◌,
}
use vibe_printer.Models.{
  PrinterType, zpl_network, cups, ipp_network, ContentType, pdf, postscript, pcl, Payload,
  PrintRequest,
}
use vibe_printer.Registry.Versioned
use vibe_printer.Registry.Versioned.{Row}
use vibe_printer.Registry.Config.{Printer, Registry, get_printer}
use vibe_printer.Devices.{backend_capabilities, flag_param}
use vibe_printer.PrintApi.Quotas.{given_id, given_json}

unfoldable pub has_type : ContentType → List ContentType → Bool
has_type t [] = false
has_type pdf (pdf ∷ ts) = true
has_type postscript (postscript ∷ ts) = true
has_type pcl (pcl ∷ ts) = true
has_type t (u ∷ ts) = has_type t ts

unfoldable pub is_zpl : PrinterType → Bool
is_zpl zpl_network = true
is_zpl _ = false

unfoldable pub is_cups : PrinterType → Bool
is_cups cups = true
is_cups _ = false

unfoldable pub is_office : PrinterType → Bool
is_office cups = true
is_office ipp_network = true
is_office _ = false

-- `_accepts_rendered_pdf`
unfoldable pub accepts_rendered_pdf : Row Printer → Registry → Result Bool × Registry
unfolding has_type is_zpl
accepts_rendered_pdf p g =
    if is_zpl p.content.config.type && flag_param "raster" false p.content.config.params
    then (ok true, g)
    else (let (c, g') = backend_capabilities p g in
        (elim c [ err e ↦ err e | ok caps ↦ ok (has_type pdf caps.document_formats) ], g'))

-- What `_resolve_targets` returns.
pub record Resolved : Type 0 where
  pub payload : Payload
  pub format_id : Option ℕ
  pub template_id : Option ℕ
  pub resolved_version : Option ℕ

abbrev pub base_payload : PrintRequest → Payload
base_payload q = record {
  raw = none;
  file_content = none;
  content_type = none;
  media = none;
  payload_data = q.request_data;
  copies = q.copies;
  overlay = none;
  template = none;
  document = none;
  format = none;
}

-- The version of a template, an overlay or a format, or a 404.
unfoldable pub stamped :
    {C : Type 0} → Option ℕ → Versioned.Table C → (ℕ → Option ℕ → Resolved) → Result Resolved
stamped none t make = raise validation_error
stamped (some i) t make = do row ← Versioned.get not_found i t; ok (make i (some row.version))

-- The last part of `_resolve_targets`: a printer without an overlay or a template in the request.
unfoldable pub resolve_default : Registry → Row Printer → PrintRequest → Result Resolved
unfolding is_office given_json given_id stamped
resolve_default g p q =
    if is_office p.content.config.type
    then (if is_some (given_json q.document)
        then raise unsupported_for_printer
        else if is_some (given_id q.format)
        then raise unsupported_for_printer
        else stamped (given_id p.content.config.default_template_id) g.templates (λ i v. record {
          payload = record (base_payload q) { template = some i };
          format_id = none;
          template_id = some i;
          resolved_version = v;
        }))
    else elim (given_json q.document) [
      | some d ↦ ok (record {
        payload = record (base_payload q) { document = some d };
        format_id = none;
        template_id = none;
        resolved_version = none;
      })
      | none ↦
          stamped (or_else (given_id q.format) (given_id p.content.config.default_format_id))
            g.formats
            (λ i v. record {
              payload = record (base_payload q) { format = some i };
              format_id = some i;
              template_id = none;
              resolved_version = v;
            })
    ]

-- A rendered PDF that the printer must accept.
unfoldable pub resolve_rendered :
    Row Printer → Registry → (Registry → Result Resolved) → Result Resolved × Registry
unfolding accepts_rendered_pdf
resolve_rendered p g make =
    let (accepted, g') = accepts_rendered_pdf p g in
    (
      elim accepted [
        | err e ↦ err e
        | ok false ↦ raise unsupported_for_printer
        | ok true ↦ make g'
      ],
      g',
    )

-- `_resolve_targets`. Asking for capabilities may cache them in the registry.
unfoldable pub resolve_targets : PrintRequest → Registry → Result Resolved × Registry
unfolding resolve_rendered given_id
resolve_targets q g = elim (get_printer q.printer g) [
  | err e ↦ (err e, g)
  | ok p ↦ elim (given_id q.overlay) [
    | some o ↦ resolve_rendered p g (λ g'. stamped (some o) g'.overlays (λ i v. record {
      payload = record (base_payload q) { overlay = some i };
      format_id = none;
      template_id = none;
      resolved_version = v;
    }))
    | none ↦ elim (given_id q.template) [
      | some t ↦ resolve_rendered p g (λ g'. stamped (some t) g'.templates (λ i v. record {
        payload = record (base_payload q) { template = some i };
        format_id = none;
        template_id = some i;
        resolved_version = v;
      }))
      | none ↦ (resolve_default g p q, g)
    ]
  ]
]
