-- ===== src/Worker/Rendering.antt =====
-- app/queue.py, class Worker: `_render`, which turns the payload of a job into the bytes for a device, and
-- what it calls of app/render.py and app/templating.py. The PDF library, the rasterizers, the driver's
-- encoder and base64 are arguments, and which files are in the asset folder.
use vibe_printer.Prelude.{
  ℕ, zero, suc, Bool, false, String, Option, none, some, List, [], ◌++◌, if◌then◌else◌,
}
use vibe_printer.Prelude.Texts.{Text, codes}
use vibe_printer.Errors.{Failure, Result, ok, err, raise, render_error}
use vibe_printer.Json.{Json, obj, Fields}
use vibe_printer.Json.Values.{Python}
use vibe_printer.Models.{
  PrinterType, zpl_network, star_network, Capabilities, Payload, Kind, ContentType, pdf, postscript,
  pcl,
}
use vibe_printer.Registry.Versioned
use vibe_printer.Registry.Versioned.{Row}
use vibe_printer.Registry.Config.{Printer, Registry, Template, Overlay}
use vibe_printer.Errors.{not_found}
use vibe_printer.Devices.{flag_param, backend_capabilities}
use vibe_printer.PrintApi.{given_id, given_json, given_key}
use vibe_printer.Templating.{Jinja, html, render_str, pdf_context, page_css, merge_format}
use vibe_printer.Render.Zpl.{render_zpl}
use vibe_printer.Render.Star.{render_star}
use vibe_printer.Render.Escpos.{Command, render_escpos}
use vibe_printer.Worker.{PrintPayload}

pub record Libraries : Type 0 where
  pub py : Python
  pub jinja : Jinja
  pub b64decode : String → Result (List ℕ)
  pub utf_8 : Text → List ℕ
  pub encode : (params : Fields) → Text → List ℕ
  pub driver : (params : Fields) → List Command → Result (List ℕ)
  pub asset_exists : Json → Bool
  pub base_exists : String → Bool
  pub stamp : (base_asset : String) → (fields given : Json) → Result (List ℕ)
  pub write_pdf : (body : String) → (page : Text) → (css : String) → Result (List ℕ)
  pub pdf_to_zpl_raster : (sheet : List ℕ) → (params : Fields) → Result (List ℕ)
  pub render_zpl_raster :
      (elements : List Fields) → (params : Fields) → Capabilities → Result (List ℕ)

-- data * copies
unfoldable pub repeat : ℕ → List ℕ → List ℕ
repeat zero bytes = []
repeat (suc n) bytes = bytes ++ repeat n bytes

abbrev pub plain : Kind → List ℕ → PrintPayload
plain kind bytes = record { kind = kind; bytes = bytes; option_copies = none; option_media = none }

abbrev pub with_copies : Kind → List ℕ → ℕ → Option String → PrintPayload
with_copies kind bytes copies media = record {
  kind = kind;
  bytes = bytes;
  option_copies = some copies;
  option_media = media;
}

abbrev pub of_document : Option ContentType → Kind
of_document (some postscript) = Kind.postscript
of_document (some pcl) = Kind.pcl
of_document (some pdf) = Kind.pdf
of_document none = Kind.pdf

-- The kind of raw bytes and of rendered elements.
unfoldable pub native_kind : PrinterType → Kind
native_kind zpl_network = Kind.zpl
native_kind star_network = Kind.star
native_kind _ = Kind.escpos

unfoldable pub is_raster_label : Row Printer → Bool
unfolding flag_param
is_raster_label printer = elim printer.content.config.type [
  | zpl_network ↦ flag_param "raster" false printer.content.config.params
  | _ ↦ false
]

module _ (lib : Libraries) where
  -- `render_pdf`. A page setup that is no dict has no `get`.
  unfoldable pub render_pdf : Template → (given : Json) → Result (List ℕ)
  unfolding render_str pdf_context page_css
  render_pdf template given =
      elim (render_str lib.jinja html (codes template.html) (pdf_context given)) [
        | err e ↦ err e
        | ok body ↦ elim template.page_setup [
          | obj setup ↦ lib.write_pdf body (page_css lib.py setup) template.css
          | _ ↦ err (Failure.other_exception "AttributeError")
        ]
      ]

  -- `_pdf_payload`
  unfoldable pub pdf_payload : Row Printer → (sheet : List ℕ) → (copies : ℕ) → Result PrintPayload
  unfolding is_raster_label repeat
  pdf_payload printer sheet copies =
      if is_raster_label printer
      then elim (lib.pdf_to_zpl_raster sheet printer.content.config.params) [
        | err e ↦ err e
        | ok bytes ↦ ok (plain Kind.zpl (repeat copies bytes))
      ]
      else ok (with_copies Kind.pdf sheet copies none)

  unfoldable pub overlay_payload :
      Row Printer → Overlay → (given : Json) → (copies : ℕ) → Result PrintPayload
  unfolding pdf_payload
  overlay_payload printer overlay given copies =
      if lib.base_exists overlay.base_asset
      then elim (lib.stamp overlay.base_asset overlay.fields given) [
        | err e ↦ err e
        | ok sheet ↦ pdf_payload printer sheet copies
      ]
      else raise render_error

  -- The bytes of elements for a printer's family, once.
  unfoldable pub element_bytes : Row Printer → Capabilities → List Fields → Result (List ℕ)
  unfolding is_raster_label render_zpl render_star render_escpos
  element_bytes printer caps elements =
      let params = printer.content.config.params in
      elim printer.content.config.type [
        | zpl_network ↦
            if is_raster_label printer
            then lib.render_zpl_raster elements params caps
            else elim (render_zpl lib.py elements params caps) [
              | err e ↦ err e
              | ok label ↦ ok (lib.utf_8 label)
            ]
        | star_network ↦ render_star lib.py (lib.encode params) elements params caps
        | _ ↦ elim (render_escpos lib.py lib.asset_exists elements params caps) [
          | err e ↦ err e
          | ok commands ↦ lib.driver params commands
        ]
      ]

  -- `payload["document"]`, or the elements of the stored format; without either there is no such key.
  unfoldable pub document_of : Registry → Payload → Result Json
  unfolding given_json
  document_of g payload = elim (given_json payload.document) [
    | some document ↦ ok document
    | none ↦ elim payload.format [
      | none ↦ err Failure.key_error
      | some i ↦ elim (Versioned.get not_found i g.formats) [
        | err e ↦ err e
        | ok f ↦ ok f.content.elements
      ]
    ]
  ]

  unfoldable pub element_payload :
      Registry → Payload → Row Printer → Capabilities → Result PrintPayload
  unfolding document_of merge_format element_bytes native_kind repeat
  element_payload g payload printer caps = elim (document_of g payload) [
    | err e ↦ err e
    | ok document ↦ elim (merge_format lib.py lib.jinja document payload.payload_data) [
      | err e ↦ err e
      | ok elements ↦ elim (element_bytes printer caps elements) [
        | err e ↦ err e
        | ok bytes ↦
            ok (plain (native_kind printer.content.config.type) (repeat payload.copies bytes))
      ]
    ]
  ]

  -- From the templates on: a PDF template, or elements, for which the capabilities are read first.
  unfoldable pub template_payload :
      Registry → Payload → Row Printer → Result PrintPayload × Registry
  unfolding given_id render_pdf pdf_payload backend_capabilities element_payload
  template_payload g payload printer = elim (given_id payload.template) [
    | some i ↦ elim (Versioned.get not_found i g.templates) [
      | err e ↦ (err e, g)
      | ok template ↦ elim (render_pdf template.content payload.payload_data) [
        | err e ↦ (err e, g)
        | ok sheet ↦ (pdf_payload printer sheet payload.copies, g)
      ]
    ]
    | none ↦
        let (caps, g') = backend_capabilities printer g in
        elim caps [ err e ↦ (err e, g') | ok c ↦ (element_payload g' payload printer c, g') ]
  ]

  -- `_render`: raw bytes, a finished document, an overlay, a template, or elements, in this order.
  unfoldable pub render_job : Registry → Payload → Row Printer → Result PrintPayload × Registry
  unfolding given_key given_id native_kind repeat overlay_payload template_payload
  render_job g payload printer = elim (given_key payload.raw) [
    | some text ↦ elim (lib.b64decode text) [
      | err e ↦ (err e, g)
      | ok bytes ↦
          (ok (plain (native_kind printer.content.config.type) (repeat payload.copies bytes)), g)
    ]
    | none ↦ elim (given_key payload.file_content) [
      | some text ↦ elim (lib.b64decode text) [
        | err e ↦ (err e, g)
        | ok bytes ↦ (
          ok (
              with_copies (of_document payload.content_type) bytes payload.copies
                (given_key payload.media)),
          g,
        )
      ]
      | none ↦ elim (given_id payload.overlay) [
        | some i ↦ elim (Versioned.get not_found i g.overlays) [
          | err e ↦ (err e, g)
          | ok overlay ↦
              (overlay_payload printer overlay.content payload.payload_data payload.copies, g)
        ]
        | none ↦ template_payload g payload printer
      ]
    ]
  ]
