-- ===== src/Render/Star.antt =====
-- app/render.py `render_star`: elements become Star Line Mode commands, in bytes. `encode` is Python's
-- `str.encode` with the encoding of the printer and "replace".
use vibe_printer.Prelude.{
  ℕ, false, ◌||◌, none, some, List, [], ◌∷◌, ◌++◌, str_eq, if◌then◌else◌, replicate, ◌==◌,
}
use vibe_printer.Prelude.Texts.{Text}
use vibe_printer.Errors.{Result, ok, err, raise, validation_error}
use vibe_printer.Json.{Json, num, str, bool, arr, obj, Fields, truthy}
use vibe_printer.Json.Values.{Python, type_error, text_of, int_of, get_or}
use vibe_printer.Models.{Capabilities}
use vibe_printer.Devices.{number_param}
use vibe_printer.Render.Layout.{table_lines, type_of}

abbrev pub esc : ℕ
esc = 27

-- align_map.get(align, 0): a list or a dict is no key.
unfoldable pub align_code : Json → Result ℕ
align_code (str s) = if str_eq s "center" then ok 1 else if str_eq s "right" then ok 2 else ok 0
align_code (arr xs) = err type_error
align_code (obj m) = err type_error
align_code _ = ok 0

module _ (py : Python) (encode : Text → List ℕ) where
  unfoldable pub star_lines : List Text → List ℕ
  star_lines [] = []
  star_lines (line ∷ lines) = encode line ++ (b'\n' ∷ star_lines lines)

  unfoldable pub star_element : (columns : ℕ) → Capabilities → Fields → Result (List ℕ)
  unfolding type_of text_of get_or int_of align_code star_lines
  star_element columns caps el =
      let t = type_of el in
      let value = text_of py (get_or "value" (str "") el) in
      let bold = truthy (get_or "bold" (bool false) el) in
      if str_eq t "text"
      then elim (align_code (get_or "align" (str "left") el)) [
        | err e ↦ err e
        | ok align ↦ ok (
            esc
            ∷ 29
            ∷ 97
            ∷ align
            ∷ ((if bold then esc ∷ b'E' ∷ [] else [])
                ++ (encode value ++ (b'\n' ∷ (if bold then esc ∷ b'F' ∷ [] else [])))))
      ]
      else if str_eq t "rule"
      then ok (encode (replicate columns b'-') ++ b'\n' ∷ [])
      else if str_eq t "table"
      then elim (table_lines py el columns) [ err e ↦ err e | ok lines ↦ ok (star_lines lines) ]
      else if str_eq t "feed"
      then elim (int_of py (get_or "lines" (num 1) el)) [
        | err e ↦ err e
        | ok n ↦ ok (replicate n b'\n')
      ]
      else if str_eq t "cut"
      then ok (if caps.cut then esc ∷ b'd' ∷ 3 ∷ [] else [])
      else if str_eq t "pulse"
      then (if caps.pulse
          then elim (int_of py (get_or "pin" (num 2) el)) [
            | err e ↦ err e
            | ok pin ↦ ok ((if pin == 2 then 7 else 26) ∷ [])
          ]
          else ok [])
      else if str_eq t "qr" || (str_eq t "barcode" || str_eq t "image")
      then ok []
      else raise validation_error

  unfoldable pub star_elements : (columns : ℕ) → Capabilities → List Fields → Result (List ℕ)
  star_elements columns caps [] = ok []
  star_elements columns caps (el ∷ elements) = elim (star_element columns caps el) [
    | err e ↦ err e
    | ok bytes ↦ elim (star_elements columns caps elements) [
      | err e ↦ err e
      | ok rest ↦ ok (bytes ++ rest)
    ]
  ]

  unfoldable pub render_star : List Fields → (params : Fields) → Capabilities → Result (List ℕ)
  unfolding number_param
  render_star elements params caps = elim (number_param "columns" 48 params) [
    | none ↦ err type_error
    | some columns ↦ elim (star_elements columns caps elements) [
      | err e ↦ err e
      | ok bytes ↦ ok (esc ∷ b'@' ∷ bytes)
    ]
  ]
