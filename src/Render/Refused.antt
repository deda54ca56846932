-- ===== src/Render/Refused.antt =====
-- Where `unsupported_for_printer` comes from in app/render.py.
use vibe_printer.Prelude.{
  ℕ, suc, ◌≡◌, refl, inl, inr, Bool, true, false, ◌||◌, ◌&&◌, not, List, [], ◌∷◌, str_eq, arith,
  Option-cases,
}
use vibe_printer.Errors.{Failure, api, Result, ok, err, Result-cases, unsupported_for_printer}
use vibe_printer.Json.{Json, null, num, str, bool, arr, obj, nil, cons, Fields}
use vibe_printer.Json.Values.{Python, int_of, get_or, iterate, item_or}
use vibe_printer.Models.{Capabilities}
use vibe_printer.Render.Layout.{width_of, cells_of, rows_of, table_lines, type_of}
use vibe_printer.Render.Zpl.{scale_of, supports_code}
use vibe_printer.Render.Escpos.{qr_model, qr_options, drawer_kick, width_scale}

-- The error by which a client learns that the printer is the wrong one.
abbrev pub is_unsupported : Failure → Bool
is_unsupported (api e) = elim e.code [ unsupported_for_printer ↦ true | _ ↦ false ]
is_unsupported _ = false

abbrev pub refused {ℓ} : {A : Type ℓ} → Result A → Bool
refused (ok a) = false
refused (err e) = is_unsupported e

-- What an element needs and the printer lacks.
abbrev pub lacks : Capabilities → Fields → Bool
lacks caps el =
    (str_eq (type_of el) "qr" && not caps.qr)
    || ((str_eq (type_of el) "barcode"
          && not (supports_code caps (get_or "format" (str "CODE128") el)))
        || (str_eq (type_of el) "image" && not caps.raster))

pub refused-int_of : (py : Python) (v : Json) → refused (int_of py v) ≡ false
unfolding int_of
refused-int_of py null = refl
refused-int_of py (bool true) = refl
refused-int_of py (bool false) = refl
refused-int_of py (num n) = refl
refused-int_of py (str s) = elim (Option-cases (py.int_of_text s)) [
  | inl e ↦ ground arith
  | inr (n, e) ↦ ground arith
]
refused-int_of py (arr xs) = refl
refused-int_of py (obj m) = refl

pub refused-width_of : (v : Json) → refused (width_of v) ≡ false
unfolding width_of
refused-width_of (bool true) = refl
refused-width_of (bool false) = refl
refused-width_of null = refl
refused-width_of (num n) = refl
refused-width_of (str s) = refl
refused-width_of (arr xs) = refl
refused-width_of (obj m) = refl

pub refused-item_or : (v : Json) (i : ℕ) (d : Json) → refused (item_or v i d) ≡ false
unfolding item_or
refused-item_or (obj m) i d = ground arith
refused-item_or null i d = refl
refused-item_or (bool b) i d = refl
refused-item_or (num n) i d = refl
refused-item_or (str s) i d = refl
refused-item_or (arr xs) i d = refl

pub refused-iterate : (v : Json) → refused (iterate v) ≡ false
unfolding iterate
refused-iterate null = refl
refused-iterate (bool b) = refl
refused-iterate (num n) = refl
refused-iterate (str s) = refl
refused-iterate (arr xs) = refl
refused-iterate (obj m) = refl

pub refused-cells_of :
    (py : Python) (cols : List Json) (aligns row : Json) (i : ℕ)
    → refused (cells_of py cols aligns row i) ≡ false
unfolding cells_of
refused-cells_of py [] aligns row i = refl
refused-cells_of py (col ∷ cols) aligns row i = ground (
  arith,
  refused-item_or row i (str ""),
  refused-item_or aligns i (str "left"),
  refused-width_of col,
  refused-cells_of py cols aligns row (suc i),
)

pub refused-rows_of :
    (py : Python) (cols : List Json) (aligns : Json) (columns : ℕ) (rows : List Json)
    → refused (rows_of py cols aligns columns rows) ≡ false
unfolding rows_of
refused-rows_of py cols aligns columns [] = refl
refused-rows_of py cols aligns columns (row ∷ rows) =
    ground
      (arith, refused-cells_of py cols aligns row 0, refused-rows_of py cols aligns columns rows)

pub refused-table_lines :
    (py : Python) (el : Fields) (columns : ℕ) → refused (table_lines py el columns) ≡ false
unfolding table_lines
refused-table_lines py el columns = elim (Result-cases (iterate (get_or "cols" (arr nil) el))) [
  | inr (e, bad) ↦ ground (arith, refused-iterate (get_or "cols" (arr nil) el))
  | inl (cols, good) ↦ elim (Result-cases (iterate (get_or "rows" (arr nil) el))) [
    | inr (e, bad) ↦ ground (arith, refused-iterate (get_or "rows" (arr nil) el))
    | inl (rows, fine) ↦
        ground (arith, refused-rows_of py cols (get_or "align" (arr nil) el) columns rows)
  ]
]

pub refused-qr_model : (v : Json) → refused (qr_model v) ≡ false
unfolding qr_model
refused-qr_model (bool true) = refl
refused-qr_model (bool false) = refl
refused-qr_model null = refl
refused-qr_model (num n) = refl
refused-qr_model (str s) = refl
refused-qr_model (arr xs) = refl
refused-qr_model (obj m) = refl

pub refused-qr_options : (py : Python) (el : Fields) → refused (qr_options py el) ≡ false
unfolding qr_options
refused-qr_options py el =
    ground (
      arith,
      refused-int_of py (get_or "size" (num 6) el),
      refused-qr_model (get_or "model" null el),
    )

pub refused-drawer_kick : (py : Python) (el : Fields) → refused (drawer_kick py el) ≡ false
unfolding drawer_kick
refused-drawer_kick py el = ground (
  arith,
  refused-int_of py (get_or "pin" (num 2) el),
  refused-int_of py (get_or "on_ms" (num 100) el),
  refused-int_of py (get_or "off_ms" (num 200) el),
)

pub refused-scale_at :
    (py : Python) (el : Fields) (v : Json)
    → get_or "size" (arr nil) el ≡ v
    → refused (scale_of py el) ≡ false
unfolding scale_of
refused-scale_at py el (arr (cons w (cons h rest))) e = ground (arith, refused-int_of py h)
refused-scale_at py el (arr (cons w nil)) e = ground arith
refused-scale_at py el (arr nil) e = ground arith
refused-scale_at py el null e = ground arith
refused-scale_at py el (bool b) e = ground arith
refused-scale_at py el (num n) e = ground arith
refused-scale_at py el (str s) e = ground arith
refused-scale_at py el (obj m) e = ground arith

pub refused-width_at :
    (py : Python) (el : Fields) (v : Json)
    → get_or "size" (arr (cons (num 1) (cons (num 1) nil))) el ≡ v
    → refused (width_scale py el) ≡ false
unfolding width_scale
refused-width_at py el (arr (cons w rest)) e = ground (arith, refused-int_of py w)
refused-width_at py el (arr nil) e = ground arith
refused-width_at py el null e = ground arith
refused-width_at py el (bool b) e = ground arith
refused-width_at py el (num n) e = ground arith
refused-width_at py el (str s) e = ground arith
refused-width_at py el (obj m) e = ground arith

-- A call after another one is refused only where one of them is.
pub refused-then :
    {A B : Type 0} (r : Result A) (f : A → Result B)
    → refused r ≡ false
    → ((a : A) → refused (f a) ≡ false)
    → refused (elim r [ err e ↦ err e | ok a ↦ f a ]) ≡ false
refused-then (err e) f h k = h
refused-then (ok a) f h k = k a

pub refused-scale : (py : Python) (el : Fields) → refused (scale_of py el) ≡ false
refused-scale py el = refused-scale_at py el (get_or "size" (arr nil) el) refl

pub refused-width : (py : Python) (el : Fields) → refused (width_scale py el) ≡ false
refused-width py el =
    refused-width_at py el (get_or "size" (arr (cons (num 1) (cons (num 1) nil))) el) refl
