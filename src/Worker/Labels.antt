-- ===== src/Worker/Labels.antt =====
-- From the payload of a job to the bytes for a label printer: what `_render` makes of a document.
use vibe_printer.Prelude.{ℕ, ◌+◌, ◌≡◌, refl, ◌∙◌, sym, inl, inr, false, none, some, List, arith}
use vibe_printer.Prelude.Texts.{Text}
use vibe_printer.Errors.{ok, err, Result-cases}
use vibe_printer.Json.{Json, obj, arr, nil, Fields}
use vibe_printer.Json.Values.{get_or, iterate}
use vibe_printer.Models.{zpl_network, Capabilities, Payload, Kind}
use vibe_printer.Registry.Versioned.{Row}
use vibe_printer.Registry.Config.{Printer, Registry}
use vibe_printer.Devices.{number_param, flag_param, backend_capabilities}
use vibe_printer.PrintApi.{given_id, given_json, given_key}
use vibe_printer.Templating.{merge_format}
use vibe_printer.Render.Zpl.{render_zpl}
use vibe_printer.Render.Commands.{commands}
use vibe_printer.Render.Noninterference.{has_table, fixed_costs, render_zpl-noninterference}
use vibe_printer.Worker.{PrintPayload}
use vibe_printer.Worker.Rendering.{
  Libraries, plain, repeat, native_kind, is_raster_label, element_bytes, document_of,
  element_payload, template_payload, render_job,
}

-- A label that the document determines but for its texts.
abbrev pub IsLabel : Libraries → (copies expected : ℕ) → PrintPayload → Type 0
IsLabel lib copies expected sent =
    (label : Text) × (sent ≡ plain Kind.zpl (repeat copies (lib.utf_8 label)))
    × (commands label ≡ expected)

module _ (lib : Libraries) (printer : Row Printer) (doc : Fields) (elements : List Json)
    (columns : ℕ) (is_zpl : printer.content.config.type ≡ zpl_network)
    (native : flag_param "raster" false printer.content.config.params ≡ false)
    (listed : iterate (get_or "elements" (arr nil) doc) ≡ ok elements)
    (no_table : has_table elements ≡ false)
    (cols : number_param "columns" 64 printer.content.config.params ≡ some columns) where
  not_raster : is_raster_label printer ≡ false
  unfolding is_raster_label
  not_raster = rw (is_raster_label, is_zpl) native

  element_bytes-label :
      (caps : Capabilities) (out : List Fields) (given : Json) (bytes : List ℕ)
      → merge_format lib.py lib.jinja (obj doc) given ≡ ok out
      → element_bytes lib printer caps out ≡ ok bytes
      → (label : Text) × (bytes ≡ lib.utf_8 label) × (commands label ≡ 3 + fixed_costs elements)
  unfolding element_bytes
  element_bytes-label caps out given bytes merged h =
      elim (Result-cases (render_zpl lib.py out printer.content.config.params caps)) [
        | inr (e, bad) ↦
            let made : element_bytes lib printer caps out ≡ err e =
              rw (element_bytes, is_zpl, not_raster, bad) refl in
            absurd (ground (arith, made))
        | inl (label, good) ↦
            let made : element_bytes lib printer caps out ≡ ok (lib.utf_8 label) =
              rw (element_bytes, is_zpl, not_raster, good) refl in
            (
              label,
              ground (arith, made),
              render_zpl-noninterference lib.py lib.jinja doc elements printer.content.config.params
                  caps columns given out label listed no_table cols merged good,
            )
      ]

  zpl_kind : native_kind printer.content.config.type ≡ Kind.zpl
  unfolding native_kind
  zpl_kind = rw is_zpl refl

  element_payload-IsLabel :
      (g : Registry) (payload : Payload) (caps : Capabilities) (sent : PrintPayload)
      → document_of lib g payload ≡ ok (obj doc)
      → element_payload lib g payload printer caps ≡ ok sent
      → IsLabel lib payload.copies (3 + fixed_costs elements) sent
  unfolding element_payload
  element_payload-IsLabel g payload caps sent found h =
      elim (Result-cases (merge_format lib.py lib.jinja (obj doc) payload.payload_data)) [
        | inr (e, bad) ↦
            let made : element_payload lib g payload printer caps ≡ err e =
              rw (element_payload, found, bad) refl in
            absurd (ground (arith, made))
        | inl (out, merged) ↦ elim (Result-cases (element_bytes lib printer caps out)) [
          | inr (e, bad) ↦
              let made : element_payload lib g payload printer caps ≡ err e =
                rw (element_payload, found, merged, bad) refl in
              absurd (ground (arith, made))
          | inl (bytes, good) ↦
              let (label, as_bytes, count) =
                element_bytes-label caps out payload.payload_data bytes merged good in
              let made : element_payload lib g payload printer caps
                  ≡ ok (
                      plain (native_kind printer.content.config.type)
                        (repeat payload.copies bytes)) =
                rw (element_payload, found, merged, good) refl in
              let same : sent
                  ≡ plain (native_kind printer.content.config.type) (repeat payload.copies bytes) =
                ground (arith, made) in
              (label, same ∙ rw (zpl_kind, as_bytes) refl, count)
        ]
      ]

  template_payload-IsLabel :
      (g : Registry) (payload : Payload) (sent : PrintPayload)
      → given_id payload.template ≡ none
      → given_json payload.document ≡ some (obj doc)
      → (template_payload lib g payload printer).0 ≡ ok sent
      → IsLabel lib payload.copies (3 + fixed_costs elements) sent
  unfolding template_payload document_of
  template_payload-IsLabel g payload sent no_template has_document h =
      elim (Result-cases (backend_capabilities printer g).0) [
        | inr (e, bad) ↦
            let made : (template_payload lib g payload printer).0 ≡ err e =
              rw (template_payload, no_template, bad) refl in
            absurd (ground (arith, made))
        | inl (caps, known) ↦
            let g' = (backend_capabilities printer g).1 in
            let made : (template_payload lib g payload printer).0
                ≡ element_payload lib g' payload printer caps =
              rw (template_payload, no_template, known) refl in
            element_payload-IsLabel g' payload caps sent (rw (document_of, has_document) refl)
              (sym made ∙ h)
      ]

-- What the worker sends to a label printer for a document without tables: the label once for each
-- copy, as ZPL, and the label has as many command characters as the document alone determines. No text
-- of the request's data becomes a command, from the stored payload to the bytes.
pub render_job-IsLabel :
    (lib : Libraries) (g : Registry) (payload : Payload) (printer : Row Printer) (doc : Fields)
    (elements : List Json) (columns : ℕ) (sent : PrintPayload)
    → printer.content.config.type ≡ zpl_network
    → flag_param "raster" false printer.content.config.params ≡ false
    → number_param "columns" 64 printer.content.config.params ≡ some columns
    → given_key payload.raw ≡ none
    → given_key payload.file_content ≡ none
    → given_id payload.overlay ≡ none
    → given_id payload.template ≡ none
    → given_json payload.document ≡ some (obj doc)
    → iterate (get_or "elements" (arr nil) doc) ≡ ok elements
    → has_table elements ≡ false
    → (render_job lib g payload printer).0 ≡ ok sent
    → IsLabel lib payload.copies (3 + fixed_costs elements) sent
unfolding render_job
render_job-IsLabel lib g payload printer doc elements columns sent is_zpl native cols no_raw no_file
      no_overlay no_template has_document listed no_table h =
    let made : (render_job lib g payload printer).0 ≡ (template_payload lib g payload printer).0 =
      rw (render_job, no_raw, no_file, no_overlay) refl in
    template_payload-IsLabel lib printer doc elements columns is_zpl native listed no_table cols g
      payload sent no_template has_document (sym made ∙ h)
