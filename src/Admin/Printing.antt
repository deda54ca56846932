-- ===== src/Admin/Printing.antt =====
-- app/admin.py: the handlers that print or reach a printer (`test_print`, `open_drawer`, `provision_queue`).
use vibe_printer.Prelude.{ℕ, Bool, true, false, not, String, none, some, if◌then◌else◌}
use vibe_printer.Errors.{Result, ok, err, raise, unsupported_for_printer, validation_error}
use vibe_printer.Json.{
  Json, null, bool, num, str, arr, obj, nil, cons, Fields, end, field, get_field, set_field, truthy,
}
use vibe_printer.Json.Values.{get_or}
use vibe_printer.Models.{Payload, PrinterType, cups, ipp_network, pdf}
use vibe_printer.JobTable.{Job}
use vibe_printer.Jobs
use vibe_printer.Jobs.{JobStore, enqueue}
use vibe_printer.Registry.Config.{get_printer, update_printer_params}
use vibe_printer.Devices.{backend_capabilities}
use vibe_printer.PrintApi.{QueueSettings, plain_args}
use vibe_printer.Admin.{AdminState, Request, change, config_change, registry_then}

abbrev pub is_type_cups : PrinterType → Bool
is_type_cups cups = true
is_type_cups _ = false

abbrev pub is_office : PrinterType → Bool
is_office cups = true
is_office ipp_network = true
is_office _ = false

abbrev pub blank_payload : Payload
blank_payload = record {
  raw = none;
  file_content = none;
  content_type = none;
  media = none;
  payload_data = null;
  copies = 1;
  overlay = none;
  template = none;
  document = none;
  format = none;
}

abbrev pub element : String → Fields → Json
element t rest = obj (field "type" (str t) rest)

-- `pulse[k] = body[k]` for the keys that the body has a value for.
unfoldable pub copy_key : String → (body pulse : Fields) → Fields
unfolding get_field set_field
copy_key k body pulse = elim (get_field k body) [
  | none ↦ pulse
  | some null ↦ pulse
  | some v ↦ set_field k v pulse
]

unfoldable pub pulse_of : (body : Fields) → Fields
unfolding copy_key
pulse_of body =
    copy_key "off_ms" body
      (copy_key "on_ms" body (copy_key "pin" body (field "type" (str "pulse") end)))

abbrev pub document_payload : (elements : Json) → (given : Json) → Payload
document_payload elements given = record blank_payload {
  document = some (obj (field "elements" elements end));
  payload_data = given;
}

module _ (settings : QueueSettings) (q : Request) where
  -- `ctx.jobs.enqueue`, at two readings of the clock that are one here.
  unfoldable pub enqueue_for : (printer : ℕ) → Payload → AdminState → Result Job × AdminState
  enqueue_for printer payload s =
      let (r, st) =
        Jobs.enqueue q.job_id q.now q.now (plain_args settings printer payload) s.store in
      (r, record s { store = st })

  unfoldable pub test_print : (i : ℕ) → AdminState → Result Job × AdminState
  unfolding enqueue_for
  test_print i s = elim (get_printer i s.registry) [
    | err e ↦ (err e, s)
    | ok printer ↦
        if is_office printer.content.config.type
        then enqueue_for i
            (record blank_payload {
              file_content = some (q.test_page q.now);
              content_type = some pdf;
            })
            s
        else enqueue_for i
            (document_payload
              (arr (
                cons
                  (element "text" (
                    field "value" (str "vibe-print test")
                      (field "align" (str "center") (field "bold" (bool true) end))))
                  (cons
                    (element "text"
                      (field "value" (str "{{ data.ts }}") (field "align" (str "center") end)))
                    (cons (element "feed" (field "lines" (num 1) end))
                      (cons (element "cut" end) nil)))))
              (obj (field "ts" (str q.text_now) end)))
            s
  ]

  unfoldable pub open_drawer : (i : ℕ) → (body : Fields) → AdminState → Result Job × AdminState
  unfolding backend_capabilities pulse_of enqueue_for config_change
  open_drawer i body s = elim (get_printer i s.registry) [
    | err e ↦ (err e, s)
    | ok printer ↦
        let (caps, g) = backend_capabilities printer s.registry in
        let s' = record s { registry = g } in
        elim caps [
          | err e ↦ (err e, s')
          | ok c ↦
              if c.pulse
              then (let (r, s'') =
                    enqueue_for i
                      (document_payload (arr (cons (obj (pulse_of body)) nil)) (obj end)) s' in
                  elim r [
                    | err e ↦ (err e, s'')
                    | ok job ↦ (
                      ok job,
                      config_change q (change q "printer" (some (q.str_of i)) "open_drawer") s'',
                    )
                  ])
              else (raise unsupported_for_printer, s')
        ]
  ]

  unfoldable pub provision_queue :
      (i : ℕ) → (body : Fields) → AdminState → Result (Unit {0}) × AdminState
  unfolding get_or truthy config_change
  provision_queue i body s = elim (get_printer i s.registry) [
    | err e ↦ (err e, s)
    | ok printer ↦
        let device_uri = get_or "device_uri" null body in
        let make_model = get_or "make_model" (str "everywhere") body in
        if not (is_type_cups printer.content.config.type)
        then (raise unsupported_for_printer, s)
        else if not (truthy device_uri)
        then (raise validation_error, s)
        else elim (q.provision printer device_uri make_model) [
          | err e ↦ (err e, s)
          | ok _ ↦
              registry_then q
                (update_printer_params i
                  (field "device_uri" device_uri (field "make_model" make_model end)) s.registry)
                (λ u. change q "printer" (some (q.str_of i)) "provision_queue") s
        ]
  ]
