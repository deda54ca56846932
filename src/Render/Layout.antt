-- ===== src/Render/Layout.antt =====
-- app/render.py `_fit`, `_table_lines`, `_as_text_lines`: text in columns.
use vibe_printer.Prelude.{
  ℕ, suc, ◌-◌, ◌/◌, true, false, String, some, List, [], ◌∷◌, ◌++◌, str_eq, if◌then◌else◌, length,
  take, replicate, ◌==◌,
}
use vibe_printer.Prelude.Texts.{Text, codes}
use vibe_printer.Errors.{Result, ok, err}
use vibe_printer.Json.{Json, bool, num, str, arr, nil, Fields, get_field}
use vibe_printer.Json.Values.{
  Python, type_error, text_of, int_of, get_or, iterate, item_or, is_text,
}

abbrev pub spaces : ℕ → Text
spaces n = replicate n b' '

unfoldable pub fit : Text → (width : ℕ) → (align : Json) → Text
unfolding is_text
fit text width align =
    let shown = take width text in
    let pad = width - length shown in
    let left = pad / 2 in
    if is_text align "right"
    then spaces pad ++ shown
    else if is_text align "center"
    then spaces left ++ (shown ++ spaces (pad - left))
    else shown ++ spaces pad

-- A column's width: slicing and padding want an integer.
unfoldable pub width_of : Json → Result ℕ
width_of (num n) = ok n
width_of (bool true) = ok 1
width_of (bool false) = ok 0
width_of _ = err type_error

-- `cells` of a row: a cell for each column, from `i` on. Columns without an alignment are left-aligned.
unfoldable pub cells_of :
    Python → (cols : List Json) → (aligns row : Json) → (i : ℕ) → Result (List Text)
unfolding item_or text_of width_of fit
cells_of py [] aligns row i = ok []
cells_of py (col ∷ cols) aligns row i = elim (item_or row i (str "")) [
  | err e ↦ err e
  | ok value ↦ elim (item_or aligns i (str "left")) [
    | err e ↦ err e
    | ok align ↦ elim (width_of col) [
      | err e ↦ err e
      | ok width ↦ elim (cells_of py cols aligns row (suc i)) [
        | err e ↦ err e
        | ok cells ↦ ok (fit (text_of py value) width align ∷ cells)
      ]
    ]
  ]
]

-- " ".join(cells)
unfoldable pub join_cells : List Text → Text
join_cells [] = []
join_cells (c ∷ []) = c
join_cells (c ∷ d ∷ cells) = c ++ (b' ' ∷ join_cells (d ∷ cells))

unfoldable pub rows_of :
    Python → (cols : List Json) → (aligns : Json) → (columns : ℕ) → List Json → Result (List Text)
unfolding cells_of join_cells
rows_of py cols aligns columns [] = ok []
rows_of py cols aligns columns (row ∷ rows) = elim (cells_of py cols aligns row 0) [
  | err e ↦ err e
  | ok cells ↦ elim (rows_of py cols aligns columns rows) [
    | err e ↦ err e
    | ok lines ↦ ok (take columns (join_cells cells) ∷ lines)
  ]
]

-- `_table_lines`. Without `align` every column is left-aligned.
unfoldable pub table_lines : Python → Fields → (columns : ℕ) → Result (List Text)
unfolding get_or iterate rows_of
table_lines py el columns = elim (iterate (get_or "cols" (arr nil) el)) [
  | err e ↦ err e
  | ok cols ↦ elim (iterate (get_or "rows" (arr nil) el)) [
    | err e ↦ err e
    | ok rows ↦ rows_of py cols (get_or "align" (arr nil) el) columns rows
  ]
]

-- value.split("\n")
unfoldable pub split_lines : Text → List Text
split_lines [] = [] ∷ []
split_lines (c ∷ t) = elim (split_lines t) [
  | [] ↦ (c ∷ []) ∷ []
  | line ∷ lines ↦ if c == b'\n' then [] ∷ line ∷ lines else (c ∷ line) ∷ lines
]

unfoldable pub fit_all : (columns : ℕ) → (align : Json) → List Text → List Text
unfolding fit
fit_all columns align [] = []
fit_all columns align (line ∷ lines) = fit line columns align ∷ fit_all columns align lines

-- f"[{label}: {value}]", centred.
unfoldable pub tag_line : (label value : Text) → (columns : ℕ) → Text
unfolding fit
tag_line label value columns =
    fit (b'[' ∷ (label ++ (b':' ∷ (b' ' ∷ (value ++ (b']' ∷ [])))))) columns (str "center")

-- The type of an element: `el.get("type")`, of which only texts are known.
unfoldable pub type_of : Fields → String
unfolding get_field
type_of el = elim (get_field "type" el) [ some (str t) ↦ t | _ ↦ "" ]

-- The lines of one element in the preview; an element of another type has none.
unfoldable pub element_lines : Python → Fields → (columns : ℕ) → Result (List Text)
unfolding type_of get_or text_of split_lines fit_all tag_line int_of
element_lines py el columns =
    let t = type_of el in
    let value = text_of py (get_or "value" (str "") el) in
    if str_eq t "text"
    then ok (fit_all columns (get_or "align" (str "left") el) (split_lines value))
    else if str_eq t "rule"
    then ok (replicate columns b'-' ∷ [])
    else if str_eq t "table"
    then table_lines py el columns
    else if str_eq t "qr"
    then ok (tag_line (codes "QR") value columns ∷ [])
    else if str_eq t "barcode"
    then ok (tag_line (text_of py (get_or "format" (str "CODE128") el)) value columns ∷ [])
    else if str_eq t "image"
    then ok (tag_line (codes "image") (text_of py (get_or "asset" (str "") el)) columns ∷ [])
    else if str_eq t "feed"
    then elim (int_of py (get_or "lines" (num 1) el)) [ err e ↦ err e | ok n ↦ ok (replicate n []) ]
    else if str_eq t "cut"
    then ok (replicate columns b'-' ∷ [])
    else if str_eq t "pulse"
    then ok (codes "[cash drawer]" ∷ [])
    else ok []

-- `_as_text_lines`
unfoldable pub as_text_lines : Python → List Fields → (columns : ℕ) → Result (List Text)
unfolding element_lines
as_text_lines py [] columns = ok []
as_text_lines py (el ∷ elements) columns = elim (element_lines py el columns) [
  | err e ↦ err e
  | ok lines ↦ elim (as_text_lines py elements columns) [
    | err e ↦ err e
    | ok rest ↦ ok (lines ++ rest)
  ]
]
