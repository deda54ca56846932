-- ===== src/Backends/Dispatch.antt =====
-- A send by the backend that `make_backend` built, and `_send` of app/queue.py around it: `is_serialized`,
-- and the limit on the time that a send may take.
use vibe_printer.Prelude.{ℕ, Bool, true, false, ltb, if◌then◌else◌}
use vibe_printer.Prelude.Texts.{Text}
use vibe_printer.Json.Values.{Python}
use vibe_printer.Models.{
  PrinterType, escpos_network, escpos_usb, cups, ipp_network, virtual, zpl_network, star_network,
  pool, Kind,
}
use vibe_printer.Worker.{PrintPayload, SendOutcome, mid_send_error}
use vibe_printer.Backends.{
  Backend, virtual_backend, escpos_network_backend, escpos_usb_backend, cups_backend,
  ipp_network_backend, zpl_network_backend, star_network_backend, Sending, Network, Usb, Taken,
  stream_to, usb_send, virtual_send,
}
use vibe_printer.Backends.Cups.{Spooler, cups_send}
use vibe_printer.Backends.IppSend.{Posted, ipp_send}

pub record Devices : Type 0 where
  pub python : Python
  pub network : Network
  pub usb : Usb
  pub spooler : Spooler
  pub post : (url : Text) → (request : Text) → Posted
  pub write_bytes : (path : Text) → Text → Taken

-- `backend.send(payload)`
unfoldable pub send : Devices → Backend → PrintPayload → Sending
unfolding stream_to usb_send virtual_send cups_send ipp_send
send d (virtual_backend i) payload = virtual_send d.write_bytes i payload
send d (escpos_network_backend host port) payload =
    stream_to d.network Kind.escpos host port payload
send d (escpos_usb_backend v p serial) payload = usb_send d.usb v p serial payload
send d (cups_backend queue media m) payload = cups_send d.spooler d.python queue media m payload
send d (ipp_network_backend uri m) payload = ipp_send d.post d.python uri m payload
send d (zpl_network_backend host port) payload = stream_to d.network Kind.zpl host port payload
send d (star_network_backend host port) payload = stream_to d.network Kind.star host port payload

-- `is_serialized`: one byte stream, or a file.
unfoldable pub is_serialized : PrinterType → Bool
is_serialized escpos_network = true
is_serialized escpos_usb = true
is_serialized virtual = true
is_serialized zpl_network = true
is_serialized star_network = true
is_serialized cups = false
is_serialized ipp_network = false
is_serialized pool = false

-- `_send`: `wait_for` gives up when the limit has passed. The thread of the backend goes on.
unfoldable pub send_within : (limit elapsed : ℕ) → SendOutcome → SendOutcome
send_within limit elapsed o = if ltb elapsed limit then o else mid_send_error "send timed out"
