-- ===== src/Render/Validated.antt =====
-- Rendering for the printers that the registry can hold: their params are the dump of validated ones.
use vibe_printer.Prelude.{ℕ, ◌≡◌, refl, Bool, Option, none, some, List}
use vibe_printer.Json.{Json, Fields}
use vibe_printer.Json.Values.{Python}
use vibe_printer.Models.{Capabilities}
use vibe_printer.Models.Params.{PrinterParams, dump}
use vibe_printer.Models.Params.Sizes.{IsNumber, dump-IsNumber}
use vibe_printer.Devices.{number_param}
use vibe_printer.Render.Escpos.{render_escpos}
use vibe_printer.Render.Support.{Outcome, render_escpos-Outcome}

number_of : (o : Option ℕ) → IsNumber o → (n : ℕ) × (o ≡ some n)
number_of none h = cc
number_of (some n) h = (n, refl)

-- `render_escpos`, for the stored params of any validated printer, never fails over the params: either
-- every element makes its commands and needs nothing that the printer lacks, or the rendering fails as
-- its first failing element does, after elements that succeed, and the error is
-- `unsupported_for_printer` exactly if that element needs what the printer lacks (a QR code, a format
-- of barcode, images).
pub render_escpos-validated :
    (py : Python) (exists : Json → Bool) (m : PrinterParams) (caps : Capabilities)
    (elements : List Fields)
    → (columns : ℕ) × (dots : ℕ) × Outcome py exists columns dots caps elements
        (render_escpos py exists elements (dump m) caps)
render_escpos-validated py exists m caps elements =
    let (c, d, l) = dump-IsNumber m 48 576 812 in
    let (columns, is_columns) = number_of (number_param "columns" 48 (dump m)) c in
    let (dots, is_dots) = number_of (number_param "paper_width_dots" 576 (dump m)) d in
    (
      columns,
      dots,
      render_escpos-Outcome py exists columns dots (dump m) caps elements is_columns is_dots,
    )
