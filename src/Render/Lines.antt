-- ===== src/Render/Lines.antt =====
-- How wide the lines of a table and of a preview are.
use vibe_printer.Prelude.{
  ℕ, suc, ◌+◌, ◌-◌, ◌/◌, ◌≤◌, ◌≡◌, refl, true, List, [], ◌∷◌, ◌++◌, length, length-append,
  length-take, length-replicate, take, min, arith, All, Bool-cases, inl, inr, ◌∙◌, ap, sym,
}
use vibe_printer.Prelude.Texts.{Text}
use vibe_printer.Errors.{ok, Result-cases}
use vibe_printer.Json.{Json, null, bool, num, str, arr, nil, Fields}
use vibe_printer.Json.Values.{Python, text_of, get_or, iterate, item_or, is_text}
use vibe_printer.Render.Layout.{spaces, fit, width_of, cells_of, join_cells, rows_of, table_lines}

-- A fitted text fills its width exactly.
fit-length : (text : Text) (width : ℕ) (align : Json) → length (fit text width align) ≡ width
unfolding fit
fit-length text width align =
    let shown = take width text in
    let pad = width - length shown in
    let short : length shown ≤ width = omega (arith, length-take width text) in
    elim (Bool-cases (is_text align "right")) [
      | inl right ↦
          rw (right, length-append (spaces pad) shown, length-replicate {A = ℕ} pad b' ')
            (omega (arith, short))
      | inr other ↦ elim (Bool-cases (is_text align "center")) [
        | inl centre ↦
            rw
              (
                other,
                centre,
                length-append (spaces (pad / 2)) (shown ++ spaces (pad - pad / 2)),
                length-append shown (spaces (pad - pad / 2)),
                length-replicate {A = ℕ} (pad / 2) b' ',
                length-replicate {A = ℕ} (pad - pad / 2) b' ',
              )
              (omega (arith, short))
        | inr left ↦
            rw (other, left, length-append shown (spaces pad), length-replicate {A = ℕ} pad b' ')
              (omega (arith, short))
      ]
    ]

-- The width of a column, and of a line with a blank between columns.
abbrev pub column_width : Json → ℕ
column_width (num n) = n
column_width (bool true) = 1
column_width _ = 0

abbrev pub line_width : List Json → ℕ
line_width [] = 0
line_width (col ∷ []) = column_width col
line_width (col ∷ next ∷ cols) = column_width col + suc (line_width (next ∷ cols))

width_of-column_width : (col : Json) (w : ℕ) → width_of col ≡ ok w → w ≡ column_width col
unfolding width_of
width_of-column_width null w h = cc
width_of-column_width _ w h = ground arith

-- The cells of a row, one to a column, each as wide as its column.
abbrev Fills : List Json → List Text → Type 0
Fills [] [] = Unit
Fills [] (cell ∷ cells) = ⊥
Fills (col ∷ cols) [] = ⊥
Fills (col ∷ cols) (cell ∷ cells) = (length cell ≡ column_width col) × Fills cols cells

cells_of-Fills :
    (py : Python) (cols : List Json) (aligns row : Json) (i : ℕ) (cells : List Text)
    → cells_of py cols aligns row i ≡ ok cells
    → Fills cols cells
unfolding cells_of
cells_of-Fills py [] aligns row i cells h = let e : cells ≡ [] = ground arith in rw e tt
cells_of-Fills py (col ∷ cols) aligns row i cells h = elim (Result-cases (item_or row i (str ""))) [
  | inr (e, bad) ↦ ground arith
  | inl (value, at) ↦ elim (Result-cases (item_or aligns i (str "left"))) [
    | inr (e, bad) ↦ ground arith
    | inl (align, aligned) ↦ elim (Result-cases (width_of col)) [
      | inr (e, bad) ↦ ground arith
      | inl (width, wide) ↦ elim (Result-cases (cells_of py cols aligns row (suc i))) [
        | inr (e, bad) ↦ ground arith
        | inl (rest, others) ↦
            let cell = fit (text_of py value) width align in
            let e : cells ≡ cell ∷ rest = ground arith in
            rw e (
              fit-length (text_of py value) width align ∙ width_of-column_width col width wide,
              cells_of-Fills py cols aligns row (suc i) rest others,
            )
      ]
    ]
  ]
]

join_cells-length :
    (cols : List Json) (cells : List Text)
    → Fills cols cells
    → length (join_cells cells) ≡ line_width cols
unfolding join_cells
join_cells-length [] [] h = refl
join_cells-length [] (cell ∷ cells) h = elim h [ ]
join_cells-length (col ∷ cols) [] h = elim h [ ]
join_cells-length (col ∷ []) (cell ∷ []) h = h.0
join_cells-length (col ∷ []) (cell ∷ other ∷ cells) h = elim h.1 [ ]
join_cells-length (col ∷ next ∷ cols) (cell ∷ []) h = elim h.1 [ ]
join_cells-length (col ∷ next ∷ cols) (cell ∷ other ∷ cells) h =
    rw
      (
        length-append cell (b' ' ∷ join_cells (other ∷ cells)),
        h.0,
        join_cells-length (next ∷ cols) (other ∷ cells) h.1,
      )
      refl

rows_of-length :
    (py : Python) (cols : List Json) (aligns : Json) (columns : ℕ) (rows : List Json)
    (lines : List Text)
    → rows_of py cols aligns columns rows ≡ ok lines
    → All (λ line. length line ≡ min columns (line_width cols)) lines × (length lines ≡ length rows)
unfolding rows_of
rows_of-length py cols aligns columns [] lines h =
    let e : lines ≡ [] = ground arith in rw e (tt, refl)
rows_of-length py cols aligns columns (row ∷ rows) lines h =
    elim (Result-cases (cells_of py cols aligns row 0)) [
      | inr (e, bad) ↦ ground arith
      | inl (cells, good) ↦ elim (Result-cases (rows_of py cols aligns columns rows)) [
        | inr (e, bad) ↦ ground arith
        | inl (rest, others) ↦
            let line = take columns (join_cells cells) in
            let e : lines ≡ line ∷ rest = ground arith in
            let (widths, count) = rows_of-length py cols aligns columns rows rest others in
            let width =
              join_cells-length cols cells (cells_of-Fills py cols aligns row 0 cells good) in
            rw e ((rw (length-take columns (join_cells cells), width) refl, widths), ap suc count)
      ]
    ]

-- The lines of a table, if it can be laid out, are as many as its rows and all equally wide: the widths
-- of the columns with a blank between each two, cut off at the width of the paper.
pub table_lines-length :
    (py : Python) (el : Fields) (columns : ℕ) (cols rows : List Json) (lines : List Text)
    → iterate (get_or "cols" (arr nil) el) ≡ ok cols
    → iterate (get_or "rows" (arr nil) el) ≡ ok rows
    → table_lines py el columns ≡ ok lines
    → All (λ line. length line ≡ min columns (line_width cols)) lines × (length lines ≡ length rows)
unfolding table_lines
table_lines-length py el columns cols rows lines c r h =
    let aligns = get_or "align" (arr nil) el in
    let e : table_lines py el columns ≡ rows_of py cols aligns columns rows =
      rw (c, table_lines, r) refl in
    rows_of-length py cols aligns columns rows lines (sym e ∙ h)
