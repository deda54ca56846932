-- ===== src/Tests/Render.antt =====
-- The theorems on rendering and templates, applied to a small document.
use vibe_printer.Errors.{ok}
use vibe_printer.Prelude.{some, ℕ, ◌+◌, ◌≡◌, refl, Bool, true, false, String, none, List, [], ◌∷◌}
use vibe_printer.Prelude.Texts.{Text, codes, decimal}
use vibe_printer.Json.{Json, num, str, arr, obj, nil, cons, Fields, end, field}
use vibe_printer.Json.Values.{Python, get_or, iterate}
use vibe_printer.Models.{Capabilities, no_capabilities}
use vibe_printer.Devices.{number_param}
use vibe_printer.Templating.{Jinja, output, merge_format, url_fetcher}
use vibe_printer.Templating.Fetch.{IsSafe, url_fetcher-IsSafe}
use vibe_printer.Render.Layout.{type_of}
use vibe_printer.Render.Raster.{image_bytes, hex}
use vibe_printer.Render.Pixels.{read_rows, unhex, read_rows-hex}
use vibe_printer.Render.Zpl.{zpl_element, zpl_elements, render_zpl}
use vibe_printer.Render.Escpos.{render_escpos}
use vibe_printer.Render.Commands.{commands}
use vibe_printer.Render.Injection.{costs, render_zpl-commands}
use vibe_printer.Render.Support.{Outcome}
use vibe_printer.Render.Validated.{render_escpos-validated}
use vibe_printer.Models.Params.{PrinterParams, of_virtual, dump}
use vibe_printer.Render.Noninterference.{fixed_costs}
use vibe_printer.Models.{Payload, Kind, zpl_network}
use vibe_printer.Json.{truthy}
use vibe_printer.Registry.Versioned.{Row}
use vibe_printer.Registry.Config.{Printer}
use vibe_printer.Devices.{
  flag_param, zpl_network_capabilities, device_capabilities, backend_capabilities,
}
use vibe_printer.Pools.{is_pool}
use vibe_printer.PrintApi.{given_id, given_json, given_key}
use vibe_printer.Worker.Rendering.{Libraries, plain, repeat, render_job}
use vibe_printer.Worker.Labels.{IsLabel, render_job-IsLabel}
use vibe_printer.Tests.{printer_of, receipt, shop}

abbrev python : Python
python = record { int_of_text = λ s. none; repr_of = λ v. [] }

-- A Jinja that leaves out the variables.
abbrev jinja : Jinja
jinja e template variables = output "^FS^XZ"

abbrev label : Fields
label = field "type" (str "text") (field "value" (str "~JR") end)

abbrev code : Fields
code = field "type" (str "qr") (field "value" (str "a^b") end)

abbrev able : Capabilities
able = record no_capabilities { qr = true }

abbrev dots : List (List Bool)
dots = (true ∷ false ∷ true ∷ []) ∷ (false ∷ true ∷ true ∷ []) ∷ []

read_rows-hex_example : read_rows 1 3 2 (unhex (hex (image_bytes 1 dots))) ≡ dots
read_rows-hex_example = read_rows-hex 3 dots (refl, (refl, tt))

abbrev list_items : Json
list_items = arr (cons (arr (cons (str "tea") (cons (num 2) nil))) nil)

abbrev table : Fields
table =
    field "type" (str "table")
      (field "cols" (arr (cons (num 4) (cons (num 2) nil))) (field "rows" list_items end))

abbrev tea_line : Text
tea_line = codes "tea  2 "

abbrev both : List Fields
both = label ∷ code ∷ []

abbrev printed : Text
printed = codes "^XA\n^CI28\n^FO20,20^A0N,24,24^FD JR^FS\n^FO20,52^BQN,2,6^FDLA,a b^FS\n^XZ\n"

render_zpl-commands_example : commands printed ≡ 3 + costs python 64 both
unfolding zpl_elements zpl_element decimal
render_zpl-commands_example =
    render_zpl-commands python both end able 64 printed (unfold number_param in refl)
      (unfold render_zpl in refl)

abbrev till : PrinterParams
till = of_virtual (record { columns = 48; paper_width_dots = 576 })

render_escpos-validated_example :
    (columns : ℕ) × (dots : ℕ) × Outcome python
      (λ asset. false)
      columns
      dots
      no_capabilities
      both
      (render_escpos python (λ asset. false) both (dump till) no_capabilities)
render_escpos-validated_example =
    render_escpos-validated python (λ asset. false) till no_capabilities both

abbrev asset_folder : List String
asset_folder = "data" ∷ "assets" ∷ []

abbrev as_file : Text → Text × Text
as_file url = (codes "file", url)

abbrev as_logo : Text → List String
as_logo path = "data" ∷ "assets" ∷ "logo.png" ∷ []

url_fetcher-IsSafe_example :
    IsSafe asset_folder (codes "file") (url_fetcher as_file as_logo asset_folder (codes "logo.png"))
url_fetcher-IsSafe_example =
    url_fetcher-IsSafe as_file as_logo asset_folder (codes "logo.png") (λ e. cc)

abbrev document : Fields
document = field "elements" (arr (cons (obj label) (cons (obj code) nil))) end

abbrev merged_label : Fields
merged_label = field "type" (str "text") (field "value" (str "^FS^XZ") end)

abbrev merged_code : Fields
merged_code = field "type" (str "qr") (field "value" (str "^FS^XZ") end)

abbrev filled : Text
filled = codes "^XA\n^CI28\n^FO20,20^A0N,24,24^FD FS XZ^FS\n^FO20,52^BQN,2,6^FDLA, FS XZ^FS\n^XZ\n"

abbrev libraries : Libraries
libraries = record {
  py = python;
  jinja = jinja;
  b64decode = λ s. ok [];
  utf_8 = λ t. t;
  encode = λ params t. t;
  driver = λ params commands. ok [];
  asset_exists = λ v. false;
  base_exists = λ name. false;
  stamp = λ base fields given. ok [];
  write_pdf = λ body page css. ok [];
  pdf_to_zpl_raster = λ sheet params. ok [];
  render_zpl_raster = λ elements params caps. ok [];
}

abbrev zebra : Row Printer
zebra = record { id = 5; version = 1; content = printer_of zpl_network end }

abbrev two_labels : Payload
two_labels = record receipt {
  raw = none;
  file_content = none;
  overlay = none;
  template = none;
  document = some (obj document);
  copies = 2;
}

render_job-IsLabel_example :
    IsLabel libraries 2
      (3 + fixed_costs (obj label ∷ obj code ∷ []))
      (plain Kind.zpl (repeat 2 filled))
unfolding type_of zpl_elements zpl_element decimal is_pool zpl_network_capabilities
render_job-IsLabel_example =
    render_job-IsLabel libraries shop two_labels zebra document (obj label ∷ obj code ∷ []) 64
      (plain Kind.zpl (repeat 2 filled)) refl (unfold flag_param in refl)
      (unfold number_param in refl) (unfold given_key in refl) (unfold given_key in refl)
      (unfold given_id in refl) (unfold given_id in refl) (unfold given_json truthy in refl)
      (unfold get_or iterate in refl) refl
      (unfold render_job merge_format render_zpl backend_capabilities device_capabilities in refl)
