-- ===== src/Render/Escpos.antt =====
-- app/render.py `render_escpos`: elements become calls of the python-escpos driver, which makes the bytes.
-- `exists` tells which assets are in the asset folder; what an image looks like is the driver's matter.
use vibe_printer.Prelude.{
  ℕ, ◌-◌, ◌/◌, Bool, true, false, ◌&&◌, not, Option, none, some, List, [], ◌∷◌, ◌++◌, str_eq,
  if◌then◌else◌, replicate, ◌==◌, min, max, map, leb,
}
use vibe_printer.Prelude.Texts.{Text, codes, text_eq}
use vibe_printer.Errors.{
  Failure, Result, ok, err, raise, validation_error, unsupported_for_printer, render_error,
}
use vibe_printer.Json.{Json, null, num, str, bool, arr, obj, nil, cons, Fields, truthy}
use vibe_printer.Json.Values.{Python, type_error, text_of, int_of, get_or, is_text}
use vibe_printer.Models.{Capabilities}
use vibe_printer.Devices.{number_param}
use vibe_printer.Render.Layout.{table_lines, type_of}
use vibe_printer.Render.Zpl.{scale_of, supports_code}

-- `_qr_kwargs`: what is not given to the driver is left to its defaults.
pub record QrOptions : Type 0 where
  pub size : ℕ
  pub native : Bool
  pub center : Bool
  pub ec : Option ℕ
  pub model : Option ℕ

-- s.upper(), of which only the letters of the four levels matter.
unfoldable pub upper : Text → Text
upper [] = []
upper (c ∷ t) = (if leb b'a' c && leb c b'z' then c - 32 else c) ∷ upper t

-- `_QR_EC`
unfoldable pub qr_level : Text → Option ℕ
qr_level t =
    if text_eq t (codes "L")
    then some 0
    else if text_eq t (codes "M")
    then some 1
    else if text_eq t (codes "Q")
    then some 2
    else if text_eq t (codes "H")
    then some 3
    else none

-- `_QR_MODEL`, where True is 1; a list or a dict is no key.
unfoldable pub qr_model : Json → Result (Option ℕ)
qr_model (num n) = ok (if n == 1 then some 1 else if n == 2 then some 2 else none)
qr_model (str s) = ok (if str_eq s "1" then some 1 else if str_eq s "2" then some 2 else none)
qr_model (bool true) = ok (some 1)
qr_model (arr xs) = err type_error
qr_model (obj m) = err type_error
qr_model _ = ok none

-- max(1, min(high, n))
abbrev pub clamp : (high n : ℕ) → ℕ
clamp high n = max 1 (min high n)

unfoldable pub qr_options : Python → Fields → Result QrOptions
unfolding get_or int_of truthy text_of upper qr_level qr_model
qr_options py el = elim (int_of py (get_or "size" (num 6) el)) [
  | err e ↦ err e
  | ok size ↦ elim (qr_model (get_or "model" null el)) [
    | err e ↦ err e
    | ok model ↦ ok (record {
      size = clamp 16 size;
      native = truthy (get_or "native" (bool false) el);
      center = truthy (get_or "center" (bool false) el);
      ec = qr_level (upper (text_of py (get_or "ec" (str "") el)));
      model = model;
    })
  ]
]

-- `_drawer_kick`: ESC p m t1 t2.
unfoldable pub drawer_kick : Python → Fields → Result (List ℕ)
unfolding int_of get_or
drawer_kick py el = elim (int_of py (get_or "pin" (num 2) el)) [
  | err e ↦ err e
  | ok pin ↦ elim (int_of py (get_or "on_ms" (num 100) el)) [
    | err e ↦ err e
    | ok on ↦ elim (int_of py (get_or "off_ms" (num 200) el)) [
      | err e ↦ err e
      | ok off ↦
          ok (
            27 ∷ b'p' ∷ (if pin == 2 then 0 else 1) ∷ clamp 255 (on / 2) ∷ clamp 255 (off / 2) ∷ [])
    ]
  ]
]

-- The calls of the driver.
pub data Command : Type 0 where
  set_style : (align : Json) (bold : Bool) (width height : ℕ) → Command
  reset_style : Command
  text_line : Text → Command
  qr_code : Text → QrOptions → Command
  barcode : (code : Text) (format : Json) → Command
  image : (asset : Json) (paper_width_dots : ℕ) → Command
  raw : List ℕ → Command
  feed : ℕ → Command
  cut_paper : Command

-- `int(size[0]) if isinstance(size, list) else 1`: an empty list has no item 0.
unfoldable pub width_scale : Python → Fields → Result ℕ
unfolding get_or int_of
width_scale py el = elim (get_or "size" (arr (cons (num 1) (cons (num 1) nil))) el) [
  | arr nil ↦ err (Failure.other_exception "IndexError")
  | arr (cons w rest) ↦ int_of py w
  | _ ↦ ok 1
]

-- A CODE128 code without a selector of its code set gets "{B".
unfoldable pub barcode_text : Json → Text → Text
unfolding is_text
barcode_text format [] = if is_text format "CODE128" then codes "{B" else []
barcode_text format (c ∷ t) =
    if is_text format "CODE128" && not (c == b'{') then codes "{B" ++ (c ∷ t) else c ∷ t

module _ (py : Python) (exists : Json → Bool) where
  unfoldable pub escpos_element :
      (columns paper_width_dots : ℕ) → Capabilities → Fields → Result (List Command)
  unfolding type_of text_of get_or width_scale scale_of qr_options supports_code barcode_text
      drawer_kick
  escpos_element columns paper_width_dots caps el =
      let t = type_of el in
      let value = text_of py (get_or "value" (str "") el) in
      if str_eq t "text"
      then elim (width_scale py el) [
        | err e ↦ err e
        | ok width ↦ elim (scale_of py el) [
          | err e ↦ err e
          | ok height ↦ ok (
              set_style (get_or "align" (str "left") el) (truthy (get_or "bold" (bool false) el))
                width height
              ∷ text_line value
              ∷ reset_style
              ∷ [])
        ]
      ]
      else if str_eq t "rule"
      then ok (text_line (replicate columns b'-') ∷ [])
      else if str_eq t "table"
      then elim (table_lines py el columns) [ err e ↦ err e | ok lines ↦ ok (map text_line lines) ]
      else if str_eq t "qr"
      then (if caps.qr
          then elim (qr_options py el) [
            | err e ↦ err e
            | ok options ↦ ok (qr_code value options ∷ [])
          ]
          else raise unsupported_for_printer)
      else if str_eq t "barcode"
      then (let format = get_or "format" (str "CODE128") el in
          if supports_code caps format
          then ok (barcode (barcode_text format value) format ∷ [])
          else raise unsupported_for_printer)
      else if str_eq t "image"
      then (let asset = get_or "asset" (str "") el in
          if caps.raster
          then (if exists asset then ok (image asset paper_width_dots ∷ []) else raise render_error)
          else raise unsupported_for_printer)
      else if str_eq t "pulse"
      then (if caps.pulse
          then elim (drawer_kick py el) [ err e ↦ err e | ok bytes ↦ ok (raw bytes ∷ []) ]
          else ok [])
      else if str_eq t "feed"
      then elim (int_of py (get_or "lines" (num 1) el)) [ err e ↦ err e | ok n ↦ ok (feed n ∷ []) ]
      else if str_eq t "cut"
      then ok (if caps.cut then cut_paper ∷ [] else [])
      else raise validation_error

  unfoldable pub escpos_elements :
      (columns paper_width_dots : ℕ) → Capabilities → List Fields → Result (List Command)
  escpos_elements columns paper_width_dots caps [] = ok []
  escpos_elements columns paper_width_dots caps (el ∷ elements) =
      elim (escpos_element columns paper_width_dots caps el) [
        | err e ↦ err e
        | ok commands ↦ elim (escpos_elements columns paper_width_dots caps elements) [
          | err e ↦ err e
          | ok rest ↦ ok (commands ++ rest)
        ]
      ]

  unfoldable pub render_escpos :
      List Fields → (params : Fields) → Capabilities → Result (List Command)
  unfolding number_param
  render_escpos elements params caps = elim (number_param "columns" 48 params) [
    | none ↦ err type_error
    | some columns ↦ elim (number_param "paper_width_dots" 576 params) [
      | none ↦ err type_error
      | some dots ↦ escpos_elements columns dots caps elements
    ]
  ]
