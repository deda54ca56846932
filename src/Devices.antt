-- ===== src/Devices.antt =====
-- app/backends/*.py `capabilities`, app/backends/factory.py, app/context.py `backend_capabilities`: what a
-- printer can do, by its type and its params.
use vibe_printer.Prelude.{
  ℕ, Bool, true, false, String, Option, none, some, List, [], ◌∷◌, if◌then◌else◌,
}
use vibe_printer.Errors.{Result, ok, err, raise, validation_error}
use vibe_printer.Json.{num, Fields, get_field, truthy}
use vibe_printer.Models.{
  PrinterType, escpos_network, escpos_usb, cups, ipp_network, virtual, zpl_network, star_network,
  pool, Capabilities, no_capabilities, pdf, postscript, pcl,
}
use vibe_printer.Registry.Versioned.{Row}
use vibe_printer.Registry.Config.{Printer, Registry, set_capabilities}
use vibe_printer.Pools.{is_pool, members, intersect}

-- `params.get(k, default)` for a number, and the truth of `params.get(k, default)`.
unfoldable pub number_param : String → ℕ → Fields → Option ℕ
unfolding get_field
number_param k default m = elim (get_field k m) [
  | none ↦ some default
  | some (num n) ↦ some n
  | some _ ↦ none
]

unfoldable pub flag_param : String → Bool → Fields → Bool
unfolding get_field truthy
flag_param k default m = elim (get_field k m) [ none ↦ default | some v ↦ truthy v ]

unfoldable pub escpos_network_capabilities : Fields → Capabilities
unfolding number_param flag_param
escpos_network_capabilities m = record no_capabilities {
  cut = flag_param "cut" true m;
  qr = true;
  barcode = "CODE128" ∷ "EAN13" ∷ "CODE39" ∷ "UPC-A" ∷ [];
  raster = true;
  pulse = true;
  columns = number_param "columns" 48 m;
  paper_width_dots = number_param "paper_width_dots" 576 m;
}

unfoldable pub escpos_usb_capabilities : Fields → Capabilities
unfolding number_param flag_param
escpos_usb_capabilities m = record no_capabilities {
  cut = flag_param "cut" true m;
  qr = true;
  barcode = "CODE128" ∷ "EAN13" ∷ "CODE39" ∷ [];
  raster = true;
  pulse = true;
  columns = number_param "columns" 48 m;
  paper_width_dots = number_param "paper_width_dots" 576 m;
}

unfoldable pub cups_capabilities : Fields → Capabilities
unfolding number_param flag_param
cups_capabilities m = record no_capabilities {
  raster = true;
  pdf = true;
  document_formats = pdf ∷ postscript ∷ pcl ∷ [];
}

unfoldable pub ipp_network_capabilities : Fields → Capabilities
unfolding number_param flag_param
ipp_network_capabilities m = record no_capabilities {
  raster = true;
  pdf = true;
  document_formats = pdf ∷ [];
}

unfoldable pub virtual_capabilities : Fields → Capabilities
unfolding number_param flag_param
virtual_capabilities m = record {
  cut = true;
  qr = true;
  barcode = "CODE128" ∷ "EAN13" ∷ "CODE39" ∷ [];
  raster = true;
  pulse = true;
  pdf = true;
  document_formats = pdf ∷ postscript ∷ pcl ∷ [];
  columns = number_param "columns" 48 m;
  paper_width_dots = number_param "paper_width_dots" 576 m;
}

unfoldable pub zpl_network_capabilities : Fields → Capabilities
unfolding number_param flag_param
zpl_network_capabilities m = record no_capabilities {
  qr = true;
  barcode = "CODE128" ∷ "CODE39" ∷ "EAN13" ∷ [];
  raster = flag_param "raster" false m;
  columns = number_param "columns" 64 m;
  paper_width_dots = number_param "label_width_dots" 812 m;
}

unfoldable pub star_network_capabilities : Fields → Capabilities
unfolding number_param flag_param
star_network_capabilities m = record no_capabilities {
  cut = true;
  pulse = true;
  columns = number_param "columns" 48 m;
}

-- The capabilities of a device. `make_backend` knows no pool.
unfoldable pub device_capabilities : PrinterType → Fields → Result Capabilities
device_capabilities escpos_network m = ok (escpos_network_capabilities m)
device_capabilities escpos_usb m = ok (escpos_usb_capabilities m)
device_capabilities cups m = ok (cups_capabilities m)
device_capabilities ipp_network m = ok (ipp_network_capabilities m)
device_capabilities virtual m = ok (virtual_capabilities m)
device_capabilities zpl_network m = ok (zpl_network_capabilities m)
device_capabilities star_network m = ok (star_network_capabilities m)
device_capabilities pool m = raise validation_error

-- The cached capabilities, or those of the device, which are then cached.
unfoldable pub own_capabilities : Row Printer → Registry → Result Capabilities × Registry
unfolding device_capabilities
own_capabilities p g = elim p.content.capabilities [
  | some c ↦ (ok c, g)
  | none ↦ elim (device_capabilities p.content.config.type p.content.config.params) [
    | err e ↦ (err e, g)
    | ok c ↦ (ok c, set_capabilities p.id c g)
  ]
]

unfoldable pub all_capabilities :
    List (Row Printer) → Registry → Result (List Capabilities) × Registry
unfolding own_capabilities
all_capabilities [] g = (ok [], g)
all_capabilities (m ∷ ms) g =
    let (c, g₁) = own_capabilities m g in
    elim c [
      | err e ↦ (err e, g₁)
      | ok c' ↦
          let (cs, g₂) = all_capabilities ms g₁ in
          elim cs [ err e ↦ (err e, g₂) | ok cs' ↦ (ok (c' ∷ cs'), g₂) ]
    ]

-- `aggregate_capabilities`
unfoldable pub aggregate : Row Printer → Registry → Result Capabilities × Registry
unfolding all_capabilities
aggregate p g = elim (members g p) [
  | err e ↦ (err e, g)
  | ok ms ↦
      let (cs, g') = all_capabilities ms g in
      elim cs [ err e ↦ (err e, g') | ok cs' ↦ (ok (intersect cs'), g') ]
]

unfoldable pub backend_capabilities : Row Printer → Registry → Result Capabilities × Registry
unfolding aggregate own_capabilities
backend_capabilities p g = elim p.content.capabilities [
  | some c ↦ (ok c, g)
  | none ↦ if is_pool p.content.config.type then aggregate p g else own_capabilities p g
]
