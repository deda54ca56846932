-- ===== src/Backends/Built.antt =====
-- The backend that `make_backend` builds for params that pydantic has validated.
use vibe_printer.Prelude.{
  ℕ, ◌≡◌, refl, Option, none, some, str_eq, Bool-cases, Option-cases, inl, inr, if◌then◌else◌,
}
use vibe_printer.Prelude.Texts.{Text, codes}
use vibe_printer.Errors.{ok, raise, validation_error}
use vibe_printer.Json.{str, get_field, truthy}
use vibe_printer.Json.Values.{Python, int_of, text_of, get_or}
use vibe_printer.Models.Params.{
  PrinterParams, of_escpos_network, of_escpos_usb, of_cups, of_ipp_network, of_virtual,
  of_zpl_network, of_star_network, of_pool, IppNetworkParams, params_type, opt, dump,
}
use vibe_printer.Backends.{
  Backend, virtual_backend, escpos_network_backend, escpos_usb_backend, cups_backend,
  ipp_network_backend, zpl_network_backend, star_network_backend, required, host_port, build_uri,
  uri_of, construct,
}

-- The URI of an IPP printer: the one given, unless it is empty, or one made of its parts.
unfoldable pub ipp_uri : IppNetworkParams → Text
ipp_uri m =
    let parts = build_uri (codes m.host) m.port (codes m.uri_path) m.tls in
    elim m.uri [ none ↦ parts | some uri ↦ if str_eq uri "" then parts else codes uri ]

-- The backend of each type, from the params.
unfoldable pub expected : (printer_id : ℕ) → PrinterParams → Option Backend
unfolding ipp_uri
expected i (of_escpos_network m) = some (escpos_network_backend (str m.host) m.port)
expected i (of_escpos_usb m) = some (escpos_usb_backend m.vendor_id m.product_id (opt m.serial))
expected i (of_cups m) = some (cups_backend (str m.queue) (opt m.media) (dump (of_cups m)))
expected i (of_ipp_network m) = some (ipp_network_backend (ipp_uri m) (dump (of_ipp_network m)))
expected i (of_virtual m) = some (virtual_backend i)
expected i (of_zpl_network m) = some (zpl_network_backend (str m.host) m.port)
expected i (of_star_network m) = some (star_network_backend (str m.host) m.port)
expected i (of_pool m) = none

uri_of-dump :
    (py : Python) (m : IppNetworkParams) → uri_of py (dump (of_ipp_network m)) ≡ ok (ipp_uri m)
unfolding uri_of dump get_field get_or required int_of truthy text_of opt ipp_uri
uri_of-dump py m = elim (Option-cases m.uri) [
  | inl without ↦ rw without refl
  | inr (uri, given) ↦ elim (Bool-cases (str_eq uri "")) [
    | inl blank ↦ rw (given, blank) refl
    | inr text ↦ rw (given, text) refl
  ]
]

-- For validated params `make_backend` builds the backend of their type from exactly these params, and
-- refuses a pool with a validation error.
pub construct-dump :
    (py : Python) (i : ℕ) (p : PrinterParams)
    → construct py i (params_type p) (dump p)
      ≡ (elim (expected i p) [ none ↦ raise validation_error | some b ↦ ok b ])
unfolding construct host_port required dump get_field get_or int_of params_type expected opt
construct-dump py i (of_escpos_network m) = refl
construct-dump py i (of_escpos_usb m) = refl
construct-dump py i (of_cups m) = refl
construct-dump py i (of_ipp_network m) = rw (uri_of-dump py m) refl
construct-dump py i (of_virtual m) = refl
construct-dump py i (of_zpl_network m) = refl
construct-dump py i (of_star_network m) = refl
construct-dump py i (of_pool m) = refl
