-- ===== src/Render/Injection.antt =====
-- The command characters of a label, counted by its elements.
use vibe_printer.Prelude.{
  false, ℕ, ◌+◌, ◌*◌, ◌≡◌, some, List, [], ◌∷◌, ◌++◌, str_eq, if◌then◌else◌, length, arith,
  Bool-cases, Option-cases, inl, inr,
}
use vibe_printer.Prelude.Texts.{Text, codes, decimal}
use vibe_printer.Errors.{ok, err, Result-cases}
use vibe_printer.Json.{num, str, Fields}
use vibe_printer.Json.Values.{Python, text_of, int_of, get_or}
use vibe_printer.Models.{Capabilities}
use vibe_printer.Devices.{number_param}
use vibe_printer.Render.Layout.{table_lines, type_of}
use vibe_printer.Render.Zpl.{
  zpl_escape, scale_of, minus_text, text_field, font, zpl_element, zpl_elements, end_lines,
  render_zpl, supports_code,
}
use vibe_printer.Render.Commands.{
  commands, commands-text_field, commands-font, commands-end_lines, commands-line,
  commands-table_fields, commands-rule, commands-qr,
}

-- How many command characters an element of the type costs: what its texts hold does not count.
abbrev pub cost : Python → (columns : ℕ) → Fields → ℕ
cost py columns el =
    let t = type_of el in
    if str_eq t "text"
    then 4
    else if str_eq t "rule"
    then 3
    else if str_eq t "table"
    then elim (table_lines py el columns) [ err e ↦ 0 | ok lines ↦ 4 * length lines ]
    else if str_eq t "qr"
    then 4
    else if str_eq t "barcode"
    then 4
    else 0

abbrev pub costs : Python → (columns : ℕ) → List Fields → ℕ
costs py columns [] = 0
costs py columns (el ∷ elements) = cost py columns el + costs py columns elements

-- An element that holds a code, or moves the height only.
commands-zpl_code :
    (py : Python) (width columns : ℕ) (caps : Capabilities) (el : Fields) (y : ℕ)
    (lines : List Text) (y' : ℕ)
    → str_eq (type_of el) "text" ≡ false
    → str_eq (type_of el) "rule" ≡ false
    → str_eq (type_of el) "table" ≡ false
    → zpl_element py width columns caps el y ≡ ok (lines, y')
    → commands (end_lines lines) ≡ cost py columns el
unfolding zpl_element end_lines
commands-zpl_code py width columns caps el y lines y' e r b h =
    let t = type_of el in
    let value = text_of py (get_or "value" (str "") el) in
    elim (Bool-cases (str_eq t "qr")) [
      | inl q ↦ elim (Bool-cases caps.qr) [
        | inl able ↦ elim (Result-cases (int_of py (get_or "size" (num 6) el))) [
          | inr (f, bad) ↦ ground arith
          | inl (size, good) ↦ ground (
            arith,
            commands-line
                (codes "^FO20,"
                  ++ (decimal y
                      ++ (codes "^BQN,2,"
                          ++ (decimal size
                              ++ (codes "^FDLA," ++ (zpl_escape value ++ codes "^FS"))))))
                [],
            commands-qr y size value,
          )
        ]
        | inr unable ↦ ground arith
      ]
      | inr q ↦ elim (Bool-cases (str_eq t "barcode")) [
        | inl c ↦ elim (Bool-cases (supports_code caps (get_or "format" (str "CODE128") el))) [
          | inl able ↦ ground (
            arith,
            commands-line (text_field y (codes "^BCN,90,Y,N,N") value) [],
            commands-text_field y (codes "^BCN,90,Y,N,N") value,
          )
          | inr unable ↦ ground arith
        ]
        | inr c ↦ elim (Bool-cases (str_eq t "feed")) [
          | inl f ↦ elim (Result-cases (int_of py (get_or "lines" (num 1) el))) [
            | inr (bad, _) ↦ ground arith
            | inl (n, good) ↦ ground arith
          ]
          | inr f ↦ ground arith
        ]
      ]
    ]

commands-zpl_element :
    (py : Python) (width columns : ℕ) (caps : Capabilities) (el : Fields) (y : ℕ)
    (lines : List Text) (y' : ℕ)
    → zpl_element py width columns caps el y ≡ ok (lines, y')
    → commands (end_lines lines) ≡ cost py columns el
unfolding zpl_element end_lines
commands-zpl_element py width columns caps el y lines y' h =
    let t = type_of el in
    let value = text_of py (get_or "value" (str "") el) in
    elim (Bool-cases (str_eq t "text")) [
      | inl e ↦ elim (Result-cases (scale_of py el)) [
        | inr (f, bad) ↦ ground arith
        | inl (scale, good) ↦ ground (
          arith,
          commands-line (text_field y (font (24 * scale)) value) [],
          commands-text_field y (font (24 * scale)) value,
          commands-font (24 * scale),
        )
      ]
      | inr e ↦ elim (Bool-cases (str_eq t "rule")) [
        | inl r ↦ ground (
          arith,
          commands-line
              (codes "^FO20,"
                ++ (decimal y ++ (codes "^GB" ++ (minus_text width 40 ++ codes ",2,2^FS"))))
              [],
          commands-rule y width,
        )
        | inr r ↦ elim (Bool-cases (str_eq t "table")) [
          | inl b ↦ elim (Result-cases (table_lines py el columns)) [
            | inr (f, bad) ↦ ground arith
            | inl (rows, good) ↦ ground (arith, commands-table_fields y rows)
          ]
          | inr b ↦ commands-zpl_code py width columns caps el y lines y' e r b h
        ]
      ]
    ]

commands-zpl_elements :
    (py : Python) (width columns : ℕ) (caps : Capabilities) (elements : List Fields) (y : ℕ)
    (lines : List Text)
    → zpl_elements py width columns caps elements y ≡ ok lines
    → commands (end_lines lines) ≡ costs py columns elements
unfolding zpl_elements end_lines
commands-zpl_elements py width columns caps [] y lines h = ground arith
commands-zpl_elements py width columns caps (el ∷ elements) y lines h =
    elim (Result-cases (zpl_element py width columns caps el y)) [
      | inr (f, bad) ↦ ground arith
      | inl ((first, y'), good) ↦
          elim (Result-cases (zpl_elements py width columns caps elements y')) [
            | inr (f, bad) ↦ ground arith
            | inl (rest, fine) ↦ ground (
              arith,
              commands-end_lines first rest,
              commands-zpl_element py width columns caps el y first y' good,
              commands-zpl_elements py width columns caps elements y' rest fine,
            )
          ]
    ]

-- A label that `render_zpl` builds holds exactly as many command characters (^ and ~) as its elements
-- cost by their types and their tables' lines, and three for the frame: whatever the texts, the
-- barcodes and the cells hold, none of it reaches the printer as a command.
pub render_zpl-commands :
    (py : Python) (elements : List Fields) (params : Fields) (caps : Capabilities) (columns : ℕ)
    (label : Text)
    → number_param "columns" 64 params ≡ some columns
    → render_zpl py elements params caps ≡ ok label
    → commands label ≡ 3 + costs py columns elements
unfolding render_zpl end_lines
render_zpl-commands py elements params caps columns label cols h =
    elim (Option-cases (number_param "label_width_dots" 812 params)) [
      | inl bad ↦ ground arith
      | inr (width, good) ↦ elim (Result-cases (zpl_elements py width columns caps elements 20)) [
        | inr (f, bad) ↦ ground arith
        | inl (lines, fine) ↦ ground (
          arith,
          commands-end_lines lines (codes "^XZ" ∷ []),
          commands-zpl_elements py width columns caps elements 20 lines fine,
        )
      ]
    ]
