-- ===== src/Models/Params/Sizes.antt =====
-- The sizes that rendering and the capabilities read from stored params.
use vibe_printer.Prelude.{ℕ, ◌≡◌, refl, true, Option, is_some}
use vibe_printer.Devices.{number_param}
use vibe_printer.Models.Params.{
  PrinterParams, of_escpos_network, of_escpos_usb, of_cups, of_ipp_network, of_virtual,
  of_zpl_network, of_star_network, of_pool, dump,
}

-- A number, whatever the default is.
abbrev pub IsNumber : Option ℕ → Type 0
IsNumber o = is_some o ≡ true

-- In params that pydantic has validated, each size that a renderer reads is a whole number, or it is
-- missing and the renderer's default counts: the columns, the width of the paper, and the width of the
-- label. So no renderer fails over the params of its printer.
pub dump-IsNumber :
    (m : PrinterParams) (columns paper_width label_width : ℕ)
    → IsNumber (number_param "columns" columns (dump m))
      × IsNumber (number_param "paper_width_dots" paper_width (dump m))
      × IsNumber (number_param "label_width_dots" label_width (dump m))
unfolding number_param dump
dump-IsNumber (of_escpos_network m) columns paper_width label_width = (refl, refl, refl)
dump-IsNumber (of_escpos_usb m) columns paper_width label_width = (refl, refl, refl)
dump-IsNumber (of_cups m) columns paper_width label_width = (refl, refl, refl)
dump-IsNumber (of_ipp_network m) columns paper_width label_width = (refl, refl, refl)
dump-IsNumber (of_virtual m) columns paper_width label_width = (refl, refl, refl)
dump-IsNumber (of_zpl_network m) columns paper_width label_width = (refl, refl, refl)
dump-IsNumber (of_star_network m) columns paper_width label_width = (refl, refl, refl)
dump-IsNumber (of_pool m) columns paper_width label_width = (refl, refl, refl)
