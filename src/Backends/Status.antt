-- ===== src/Backends/Status.antt =====
-- app/backends/*.py: `status`, the trays of a CUPS queue and of an IPP printer, and `provision_queue`. The
-- devices answer by functions, as in a send.
use vibe_printer.Prelude.{
  ℕ, Bool, true, false, String, Option, none, some, List, [], ◌∷◌, map, ltb, if◌then◌else◌,
}
use vibe_printer.Prelude.Texts.{Text, codes}
use vibe_printer.Errors.{Failure, Result, ok, err, ◌>>=◌}
use vibe_printer.Json.{Json, truthy, null, str, arr, Fields, get_field, obj, nil}
use vibe_printer.Json.Values.{Python, text_of, get_or, list_of}
use vibe_printer.Ipp.{values_of, build, ipp_status, parse_attributes}
use vibe_printer.Worker.{SendOutcome, printer_unreachable}
use vibe_printer.Backends.{
  Backend, virtual_backend, escpos_network_backend, escpos_usb_backend, cups_backend,
  ipp_network_backend, zpl_network_backend, star_network_backend, UsbOpen, no_driver, no_device,
  opened,
}
use vibe_printer.Backends.Cups.{cups_connection}
use vibe_printer.Backends.IppSend.{Posted, no_connection, cut_off, answered, http_url, is_success}
use vibe_printer.Backends.Dispatch.{Devices}

pub record Status : Type 0 where
  pub reachable : Bool
  pub state : Json
  pub errors : Json

abbrev pub idle : Status
idle = record { reachable = true; state = str "idle"; errors = arr nil }

abbrev pub down : String → Status
down state = record { reachable = false; state = str state; errors = arr nil }

-- An open connection is idle, an OSError is offline. The text of the error is left out.
unfoldable pub connected_status : Option String → Status
connected_status none = idle
connected_status (some e) = down "offline"

unfoldable pub usb_status : UsbOpen → Status
usb_status opened = idle
usb_status (no_device e) = down "offline"
usb_status no_driver = down "unknown"

-- `printers.get(self.queue)`, and what is kept of it.
unfoldable pub queue_status : (queue : Json) → (printers : Fields) → Status
unfolding get_or
queue_status (str q) printers = elim (get_field q printers) [
  | some (obj info) ↦ record {
    reachable = true;
    state = get_or "printer-state-message" (str "idle") info;
    errors = get_or "printer-state-reasons" (arr nil) info;
  }
  | _ ↦ down "unknown"
]
queue_status _ printers = down "unknown"

-- An exception of `getPrinters` is not caught.
unfoldable pub cups_status : Option SendOutcome → Result Fields → (queue : Json) → Result Status
unfolding queue_status
cups_status (some e) printers queue = ok (down "offline")
cups_status none printers queue = do found ← printers; ok (queue_status queue found)

-- `get_printer_attributes`, under the `except` clauses of `status`.
unfoldable pub answer_status : Option ℕ → Status
answer_status none = down "unknown"
answer_status (some code) = if ltb code 256 then idle else down "unknown"

unfoldable pub posted_status : Posted → Status
unfolding answer_status is_success
posted_status (no_connection e) = down "offline"
posted_status (cut_off n e) = down "offline"
posted_status (answered status content) =
    if is_success status then answer_status (ipp_status content) else down "offline"

unfoldable pub ipp_status_of : (Text → Text → Posted) → (uri : Text) → Status
unfolding posted_status
ipp_status_of post uri = elim (build 11 uri [] []) [
  | none ↦ down "unknown"
  | some request ↦ posted_status (post (http_url uri) request)
]

-- `backend.status()`; `printers` is what `getPrinters` returns.
unfoldable pub status : Devices → (printers : Result Fields) → Backend → Result Status
unfolding connected_status usb_status cups_status ipp_status_of
status d printers (virtual_backend i) = ok idle
status d printers (escpos_network_backend host port) =
    ok (connected_status (d.network.connect_soon host port))
status d printers (escpos_usb_backend v p serial) = ok (usb_status (d.usb.open_device v p serial))
status d printers (cups_backend queue media m) =
    cups_status (cups_connection d.spooler) printers queue
status d printers (ipp_network_backend uri m) = ok (ipp_status_of d.post uri)
status d printers (zpl_network_backend host port) =
    ok (connected_status (d.network.connect_soon host port))
status d printers (star_network_backend host port) =
    ok (connected_status (d.network.connect_soon host port))

-- What a call raises: the class of the exception.
abbrev pub raises {ℓ} : {A : Type ℓ} → String → Result A
raises e = err (Failure.other_exception e)

-- The trays of a printer: output bins and media sources.
pub record Trays : Type 0 where
  pub output_bins : List Text
  pub input_trays : List Text

unfoldable pub trays_answer : Posted → Result Trays
unfolding values_of is_success
trays_answer (no_connection e) = raises "ConnectError"
trays_answer (cut_off n e) = raises "HTTPError"
trays_answer (answered status content) =
    if is_success status
    then ok (record {
      output_bins = values_of (codes "output-bin-supported") (parse_attributes content);
      input_trays = values_of (codes "media-source-supported") (parse_attributes content);
    })
    else raises "HTTPStatusError"

-- `list_trays` of app/ipp_client.py
unfoldable pub ipp_trays : (Text → Text → Posted) → (uri : Text) → Result Trays
unfolding trays_answer
ipp_trays post uri = elim (build 11 uri [] []) [
  | none ↦ raises "OverflowError"
  | some request ↦ trays_answer (post (http_url uri) request)
]

-- `_as_list`
unfoldable pub as_list : Python → Json → List Text
unfolding list_of
as_list py null = []
as_list py (arr xs) = map (text_of py) (list_of xs)
as_list py v = text_of py v ∷ []

-- `list_trays` of CupsBackend: `attributes` is what `getPrinterAttributes` returns, or its exception.
unfoldable pub cups_trays :
    Python → Option SendOutcome → (attributes : Option Fields) → Result Trays
unfolding as_list get_or
cups_trays py (some (printer_unreachable e)) attributes = raises "PrinterUnreachable"
cups_trays py (some _) attributes = raises "BackendError"
cups_trays py none none = raises "PrinterUnreachable"
cups_trays py none (some attrs) = ok (record {
  output_bins = as_list py (get_or "output-bin-supported" null attrs);
  input_trays = as_list py (get_or "media-source-supported" null attrs);
})

-- The calls that `provision_queue` makes of the spooler.
pub data CupsCall : Type 0 where
  add_printer : (queue : Json) (device_uri make_model : String) (info : Json) → CupsCall
  enable_printer accept_jobs : (queue : Json) → CupsCall

-- One call after another, up to the first that fails; the calls that were made.
unfoldable pub call_all : (CupsCall → Bool) → List CupsCall → Bool × List CupsCall
call_all works [] = (true, [])
call_all works (c ∷ calls) =
    let (fine, made) = call_all works calls in if works c then (fine, c ∷ made) else (false, c ∷ [])

unfoldable pub cups_provision :
    (CupsCall → Bool)
    → Option SendOutcome
    → (queue : Json) (device_uri make_model : String) (info : Json)
    → Result (Unit {0}) × List CupsCall
unfolding call_all
cups_provision works (some (printer_unreachable e)) queue uri make info =
    (raises "PrinterUnreachable", [])
cups_provision works (some _) queue uri make info = (raises "BackendError", [])
cups_provision works none queue uri make info =
    let (fine, made) = call_all works (
      add_printer queue uri make (if truthy info then info else queue)
      ∷ enable_printer queue
      ∷ accept_jobs queue
      ∷ []) in
    ((if fine then ok tt else raises "BackendError"), made)
