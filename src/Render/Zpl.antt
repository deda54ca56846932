-- ===== src/Render/Zpl.antt =====
-- app/render.py `render_zpl`: elements become ZPL II, line by line, each field at its own height `y`.
use vibe_printer.Prelude.{
  ℕ, ◌+◌, ◌-◌, ◌*◌, Bool, false, ◌||◌, none, some, List, [], ◌∷◌, ◌++◌, str_eq, if◌then◌else◌,
  length, ltb, ◌==◌,
}
use vibe_printer.Prelude.Texts.{Text, codes, decimal}
use vibe_printer.Errors.{Result, ok, err, raise, unsupported_for_printer, validation_error}
use vibe_printer.Json.{Json, num, str, arr, nil, cons, Fields}
use vibe_printer.Json.Values.{Python, type_error, text_of, int_of, get_or}
use vibe_printer.Models.{Capabilities}
use vibe_printer.Pools.{has_format}
use vibe_printer.Devices.{number_param}
use vibe_printer.Render.Layout.{table_lines, type_of}

-- `_zpl_escape`: the two characters that start a command become blanks.
unfoldable pub escape_char : ℕ → ℕ
escape_char c = if c == b'^' then b' ' else if c == b'~' then b' ' else c

unfoldable pub zpl_escape : Text → Text
unfolding escape_char
zpl_escape [] = []
zpl_escape (c ∷ t) = escape_char c ∷ zpl_escape t

-- `int(size[1]) if isinstance(size, list) and len(size) > 1 else 1`, and the same of `size[0]`.
unfoldable pub scale_of : Python → Fields → Result ℕ
unfolding get_or int_of
scale_of py el = elim (get_or "size" (arr nil) el) [
  | arr (cons w (cons h rest)) ↦ int_of py h
  | _ ↦ ok 1
]

-- f"{m - n}"
unfoldable pub minus_text : ℕ → ℕ → Text
minus_text m n = if ltb m n then b'-' ∷ decimal (n - m) else decimal (m - n)

-- ^FO20,{y} and a command, ^FD and the escaped text, ^FS.
unfoldable pub text_field : (y : ℕ) → (command value : Text) → Text
unfolding zpl_escape
text_field y command value =
    codes "^FO20," ++ (decimal y ++ (command ++ (codes "^FD" ++ (zpl_escape value ++ codes "^FS"))))

unfoldable pub font : ℕ → Text
font h = codes "^A0N," ++ (decimal h ++ (codes "," ++ decimal h))

unfoldable pub table_fields : (y : ℕ) → List Text → List Text
unfolding text_field
table_fields y [] = []
table_fields y (line ∷ lines) = text_field y (codes "^A0N,24,24") line ∷ table_fields (y + 28) lines

-- `fmt in caps.barcode`
unfoldable pub supports_code : Capabilities → Json → Bool
unfolding has_format
supports_code caps (str s) = has_format s caps.barcode
supports_code caps _ = false

-- The lines of one element, and the height after it.
unfoldable pub zpl_element :
    Python → (width columns : ℕ) → Capabilities → Fields → (y : ℕ) → Result (List Text × ℕ)
unfolding type_of text_of get_or scale_of font text_field table_fields minus_text supports_code
zpl_element py width columns caps el y =
    let t = type_of el in
    let value = text_of py (get_or "value" (str "") el) in
    if str_eq t "text"
    then elim (scale_of py el) [
      | err e ↦ err e
      | ok scale ↦ ok (text_field y (font (24 * scale)) value ∷ [], y + (24 * scale + 8))
    ]
    else if str_eq t "rule"
    then ok (
      (codes "^FO20," ++ (decimal y ++ (codes "^GB" ++ (minus_text width 40 ++ codes ",2,2^FS"))))
          ∷ [],
      y + 14,
    )
    else if str_eq t "table"
    then elim (table_lines py el columns) [
      | err e ↦ err e
      | ok lines ↦ ok (table_fields y lines, y + 28 * length lines)
    ]
    else if str_eq t "qr"
    then (if caps.qr
        then elim (int_of py (get_or "size" (num 6) el)) [
          | err e ↦ err e
          | ok size ↦ ok (
            (codes "^FO20,"
                  ++ (decimal y
                      ++ (codes "^BQN,2,"
                          ++ (decimal size
                              ++ (codes "^FDLA," ++ (zpl_escape value ++ codes "^FS"))))))
                ∷ [],
            y + 140,
          )
        ]
        else raise unsupported_for_printer)
    else if str_eq t "barcode"
    then (if supports_code caps (get_or "format" (str "CODE128") el)
        then ok (text_field y (codes "^BCN,90,Y,N,N") value ∷ [], y + 130)
        else raise unsupported_for_printer)
    else if str_eq t "feed"
    then elim (int_of py (get_or "lines" (num 1) el)) [ err e ↦ err e | ok n ↦ ok ([], y + 24 * n) ]
    else if str_eq t "cut" || (str_eq t "pulse" || str_eq t "image")
    then ok ([], y)
    else raise validation_error

unfoldable pub zpl_elements :
    Python → (width columns : ℕ) → Capabilities → List Fields → (y : ℕ) → Result (List Text)
zpl_elements py width columns caps [] y = ok []
zpl_elements py width columns caps (el ∷ elements) y =
    elim (zpl_element py width columns caps el y) [
      | err e ↦ err e
      | ok (lines, y') ↦ elim (zpl_elements py width columns caps elements y') [
        | err e ↦ err e
        | ok rest ↦ ok (lines ++ rest)
      ]
    ]

-- "\n".join(lines) + "\n"
unfoldable pub end_lines : List Text → Text
end_lines [] = []
end_lines (line ∷ lines) = line ++ (b'\n' ∷ end_lines lines)

unfoldable pub render_zpl : Python → List Fields → (params : Fields) → Capabilities → Result Text
unfolding end_lines number_param
render_zpl py elements params caps = elim (number_param "label_width_dots" 812 params) [
  | none ↦ err type_error
  | some width ↦ elim (number_param "columns" 64 params) [
    | none ↦ err type_error
    | some columns ↦ elim (zpl_elements py width columns caps elements 20) [
      | err e ↦ err e
      | ok lines ↦ ok (end_lines (codes "^XA" ∷ codes "^CI28" ∷ (lines ++ codes "^XZ" ∷ [])))
    ]
  ]
]
