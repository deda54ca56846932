-- ===== src/Render/Noninterference.antt =====
-- What the data of a request cannot change in a label.
use vibe_printer.Prelude.{
  ℕ, ◌+◌, ◌≡◌, refl, Bool, true, false, some, List, [], ◌∷◌, str_eq, arith, if◌then◌else◌,
}
use vibe_printer.Prelude.Texts.{Text}
use vibe_printer.Errors.{ok}
use vibe_printer.Json.{Json, arr, obj, nil, Fields, get_field}
use vibe_printer.Json.Values.{Python, get_or, iterate}
use vibe_printer.Models.{Capabilities}
use vibe_printer.Devices.{number_param}
use vibe_printer.Templating.{Jinja, merge_format}
use vibe_printer.Templating.Merge.{Alike, merge_format-Alike}
use vibe_printer.Render.Layout.{type_of}
use vibe_printer.Render.Zpl.{render_zpl}
use vibe_printer.Render.Commands.{commands}
use vibe_printer.Render.Injection.{cost, costs, render_zpl-commands}

-- No element of the document is a table.
abbrev pub has_table : List Json → Bool
has_table [] = false
has_table (obj el ∷ elements) = if str_eq (type_of el) "table" then true else has_table elements
has_table (_ ∷ elements) = has_table elements

-- What the elements of a document cost before they are merged.
abbrev pub fixed_cost : Json → ℕ
fixed_cost (obj el) =
    let t = type_of el in
    if str_eq t "text"
    then 4
    else if str_eq t "rule"
    then 3
    else if str_eq t "qr"
    then 4
    else if str_eq t "barcode"
    then 4
    else 0
fixed_cost _ = 0

abbrev pub fixed_costs : List Json → ℕ
fixed_costs [] = 0
fixed_costs (v ∷ elements) = fixed_cost v + fixed_costs elements

type_of-Alike : (el m : Fields) → get_field "type" m ≡ get_field "type" el → type_of m ≡ type_of el
unfolding type_of
type_of-Alike el m e = rw (type_of, e) refl

cost-fixed_cost :
    (py : Python) (columns : ℕ) (el m : Fields)
    → str_eq (type_of el) "table" ≡ false
    → type_of m ≡ type_of el
    → cost py columns m ≡ fixed_cost (obj el)
cost-fixed_cost py columns el m other e = ground arith

costs-fixed_costs :
    (py : Python) (columns : ℕ) (elements : List Json) (out : List Fields)
    → has_table elements ≡ false
    → Alike "type" elements out
    → costs py columns out ≡ fixed_costs elements
costs-fixed_costs py columns [] [] none_is h = refl
costs-fixed_costs py columns (obj el ∷ elements) (m ∷ out) none_is h =
    let first = cost-fixed_cost py columns el m (ground arith) (type_of-Alike el m h.0) in
    let rest = costs-fixed_costs py columns elements out (ground arith) h.1 in
    omega (arith, first, rest)
costs-fixed_costs py columns [] (m ∷ out) none_is h = elim h [ ]
costs-fixed_costs py columns (v ∷ elements) [] none_is h = elim h [ ]
costs-fixed_costs py columns (v ∷ elements) (m ∷ out) none_is h = elim h [ ]

-- The data of a request cannot change the commands of a label: for a document without tables, any data
-- that merge into a label give one with the same number of command characters, which the document
-- alone determines.
pub render_zpl-noninterference :
    (py : Python) (jinja : Jinja) (doc : Fields) (elements : List Json) (params : Fields)
    (caps : Capabilities) (columns : ℕ) (given : Json) (out : List Fields) (label : Text)
    → iterate (get_or "elements" (arr nil) doc) ≡ ok elements
    → has_table elements ≡ false
    → number_param "columns" 64 params ≡ some columns
    → merge_format py jinja (obj doc) given ≡ ok out
    → render_zpl py out params caps ≡ ok label
    → commands label ≡ 3 + fixed_costs elements
render_zpl-noninterference py jinja doc elements params caps columns given out label listed plain
      cols merged h =
    omega (
      arith,
      render_zpl-commands py out params caps columns label cols h,
      costs-fixed_costs py columns elements out plain
          (merge_format-Alike py jinja given "type" doc elements out refl listed merged),
    )
