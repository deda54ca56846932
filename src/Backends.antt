-- ===== src/Backends.antt =====
-- app/backends/*.py: `make_backend`, the constructors and `send` of the devices that take a byte stream
-- or a file. What the devices do is given by functions: how a connection opens, how many bytes it takes
-- before it fails. The timeouts of a connection, which are floats, and the words around the text of an
-- error are left out. A `Sending` keeps the bytes that reached the device beside the outcome.
pub mod Cups
pub mod IppSend
pub mod Dispatch
pub mod Built
pub mod Delivered
pub mod Polling
pub mod Retries
pub mod Requeued
pub mod Status
pub mod Reachable
use vibe_printer.Prelude.{
  ℕ, Bool, true, false, String, Option, none, some, List, [], ◌∷◌, ◌++◌, length, take,
  if◌then◌else◌,
}
use vibe_printer.Prelude.Texts.{Text, codes, decimal}
use vibe_printer.Errors.{Failure, Result, ok, err, raise, validation_error, ◌>>=◌}
use vibe_printer.Json.{Json, num, str, bool, null, Fields, get_field, truthy}
use vibe_printer.Json.Values.{Python, int_of, text_of, get_or}
use vibe_printer.Models.{
  PrinterType, escpos_network, escpos_usb, cups, ipp_network, virtual, zpl_network, star_network,
  pool, Kind,
}
use vibe_printer.Registry.Versioned.{Row}
use vibe_printer.Registry.Config.{Printer}
use vibe_printer.Worker.{
  PrintPayload, SendOutcome, send_result, mid_send_error, printer_unreachable, backend_error,
  other_error,
}

-- How a byte stream takes what it is given: all of it, or so many bytes and then an error.
pub data Taken : Type 0 where
  all : Taken
  broken : (bytes : ℕ) → String → Taken

-- What a send came to, and what of the payload reached the device.
pub record Sending : Type 0 where
  pub outcome : SendOutcome
  pub delivered : Text

abbrev pub fails : SendOutcome → Sending
fails o = record { outcome = o; delivered = [] }

-- params[k]
unfoldable pub required : String → Fields → Result Json
required k m = elim (get_field k m) [ none ↦ err Failure.key_error | some v ↦ ok v ]

-- What the constructors keep of the params.
pub data Backend : Type 0 where
  virtual_backend : (printer_id : ℕ) → Backend
  escpos_network_backend : (host : Json) (port : ℕ) → Backend
  escpos_usb_backend : (vendor_id product_id : ℕ) (serial : Json) → Backend
  cups_backend : (queue media : Json) → Fields → Backend
  ipp_network_backend : (uri : Text) → Fields → Backend
  zpl_network_backend : (host : Json) (port : ℕ) → Backend
  star_network_backend : (host : Json) (port : ℕ) → Backend

-- `params["host"]` and `int(params.get("port", ...))`
unfoldable pub host_port : Python → (default : ℕ) → (Json → ℕ → Backend) → Fields → Result Backend
unfolding required
host_port py default make m = do
  host ← required "host" m
  port ← int_of py (get_or "port" (num default) m)
  ok (make host port)

-- `build_uri` of app/ipp_client.py
unfoldable pub build_uri : (host : Text) (port : ℕ) (path : Text) (tls : Bool) → Text
build_uri host port path tls =
    (if tls then codes "ipps" else codes "ipp")
    ++ (codes "://" ++ (host ++ (codes ":" ++ (decimal port ++ path))))

-- `params.get("uri") or build_uri(...)`
unfoldable pub uri_of : Python → Fields → Result Text
unfolding required build_uri
uri_of py m =
    let uri = get_or "uri" null m in
    if truthy uri then ok (text_of py uri) else (do
      host ← required "host" m
      port ← int_of py (get_or "port" (num 631) m)
      ok (
          build_uri (text_of py host) port (text_of py (get_or "uri_path" (str "/ipp/print") m))
            (truthy (get_or "tls" (bool false) m))))

-- The constructor that `make_backend` calls for a type.
unfoldable pub construct : Python → (printer_id : ℕ) → PrinterType → Fields → Result Backend
unfolding host_port required uri_of
construct py i virtual m = ok (virtual_backend i)
construct py i escpos_network m = host_port py 9100 escpos_network_backend m
construct py i escpos_usb m = do
  vendor_json ← required "vendor_id" m
  vendor ← int_of py vendor_json
  product_json ← required "product_id" m
  product ← int_of py product_json
  ok (escpos_usb_backend vendor product (get_or "serial" null m))
construct py i cups m = do
  queue ← required "queue" m
  ok (cups_backend queue (get_or "media" null m) m)
construct py i ipp_network m = do uri ← uri_of py m; ok (ipp_network_backend uri m)
construct py i zpl_network m = host_port py 9100 zpl_network_backend m
construct py i star_network m = host_port py 9100 star_network_backend m
construct py i pool m = raise validation_error

unfoldable pub make_backend : Python → Row Printer → Result Backend
unfolding construct
make_backend py p = construct py p.id p.content.config.type p.content.config.params

-- `PrintPayload.kind` compared with the one kind that a backend takes.
unfoldable pub kind_eq : Kind → Kind → Bool
kind_eq Kind.escpos Kind.escpos = true
kind_eq Kind.pdf Kind.pdf = true
kind_eq Kind.zpl Kind.zpl = true
kind_eq Kind.star Kind.star = true
kind_eq Kind.postscript Kind.postscript = true
kind_eq Kind.pcl Kind.pcl = true
kind_eq _ _ = false

-- `sendall` on an open connection; the connection is then closed, whatever came of it.
unfoldable pub stream : Taken → Text → Sending
stream all bytes = record { outcome = send_result (length bytes) false; delivered = bytes }
stream (broken n e) bytes = record { outcome = mid_send_error e; delivered = take n bytes }

-- The devices on the network: `socket.create_connection` fails with an OSError or opens, and
-- `sendall` takes the bytes. `connect` waits as long as the backend's own timeout, which a send uses;
-- `connect_soon` waits two seconds, as `status` does.
pub record Network : Type 0 where
  pub connect : (host : Json) (port : ℕ) → Option String
  pub connect_soon : (host : Json) (port : ℕ) → Option String
  pub sendall : (host : Json) (port : ℕ) → Text → Taken

unfoldable pub stream_to :
    Network → (wanted : Kind) (host : Json) (port : ℕ) → PrintPayload → Sending
unfolding kind_eq stream
stream_to net wanted host port payload =
    if kind_eq payload.kind wanted
    then (elim (net.connect host port) [
      | some e ↦ fails (printer_unreachable e)
      | none ↦ stream (net.sendall host port payload.bytes) payload.bytes
    ])
    else fails (mid_send_error "payload of another kind")

-- A device on USB: `_open` finds no driver, or no device, or opens it.
pub data UsbOpen : Type 0 where
  no_driver : UsbOpen
  no_device : String → UsbOpen
  opened : UsbOpen

pub record Usb : Type 0 where
  pub open_device : (vendor_id product_id : ℕ) (serial : Json) → UsbOpen
  pub write_raw : (vendor_id product_id : ℕ) (serial : Json) → Text → Taken

unfoldable pub usb_open : UsbOpen → Taken → Text → Sending
unfolding stream
usb_open no_driver taken bytes = fails (backend_error "USB support unavailable")
usb_open (no_device e) taken bytes = fails (printer_unreachable e)
usb_open opened taken bytes = stream taken bytes

unfoldable pub usb_send : Usb → (vendor_id product_id : ℕ) (serial : Json) → PrintPayload → Sending
unfolding kind_eq usb_open
usb_send usb v p serial payload =
    if kind_eq payload.kind Kind.escpos
    then usb_open (usb.open_device v p serial) (usb.write_raw v p serial payload.bytes)
        payload.bytes
    else fails (mid_send_error "payload of another kind")

-- The file that a virtual printer writes.
unfoldable pub extension : Kind → Text
extension Kind.pdf = codes "pdf"
extension Kind.postscript = codes "ps"
extension Kind.pcl = codes "pcl"
extension Kind.zpl = codes "zpl"
extension Kind.star = codes "star"
extension Kind.escpos = codes "bin"

unfoldable pub virtual_path : (printer_id : ℕ) → Kind → Text
unfolding extension
virtual_path i k = codes "printer-" ++ (decimal i ++ (codes "." ++ extension k))

-- `write_bytes`: an OSError leaves `_send` as any other exception.
unfoldable pub written : Taken → Text → Sending
written all bytes = record { outcome = send_result (length bytes) true; delivered = bytes }
written (broken n e) bytes = record { outcome = other_error e; delivered = take n bytes }

unfoldable pub virtual_send : (Text → Text → Taken) → (printer_id : ℕ) → PrintPayload → Sending
unfolding virtual_path written
virtual_send write_bytes i payload =
    written (write_bytes (virtual_path i payload.kind) payload.bytes) payload.bytes
