-- ===== src/Backends/Reachable.antt =====
-- The status of a backend beside its send.
use vibe_printer.Prelude.{
  ℕ, ◌≡◌, refl, Bool, true, false, not, List, Option-cases, none, inl, inr, arith,
}
use vibe_printer.Errors.{Result, ok, err}
use vibe_printer.Json.{Json, Fields}
use vibe_printer.Models.{Kind}
use vibe_printer.Worker.{PrintPayload}
use vibe_printer.Backends.{
  Taken, all, broken, Backend, virtual_backend, escpos_network_backend, escpos_usb_backend,
  cups_backend, ipp_network_backend, zpl_network_backend, star_network_backend, kind_eq, stream,
  Network, stream_to, Usb, UsbOpen, no_driver, no_device, opened, usb_open, usb_send, virtual_path,
  virtual_send, written,
}
use vibe_printer.Backends.Dispatch.{Devices, send}
use vibe_printer.Backends.Retries.{is_retry, is_stream}
use vibe_printer.Backends.Status.{Status, connected_status, usb_status, status}

-- The kind of payload that a backend takes.
unfoldable pub takes : Backend → Kind → Bool
takes (virtual_backend i) k = true
takes (escpos_network_backend host port) k = kind_eq k Kind.escpos
takes (escpos_usb_backend v p serial) k = kind_eq k Kind.escpos
takes (zpl_network_backend host port) k = kind_eq k Kind.zpl
takes (star_network_backend host port) k = kind_eq k Kind.star
takes (cups_backend queue media m) k = false
takes (ipp_network_backend uri m) k = false

stream-retry : (t : Taken) (bytes : List ℕ) → is_retry (stream t bytes).outcome ≡ false
unfolding is_retry stream
stream-retry all bytes = refl
stream-retry (broken n e) bytes = refl

-- An address that opens within the two seconds of a status opens within the timeout of a send too, as it
-- does when that timeout is two seconds or more.
abbrev pub IsPatient : Network → Type 0
IsPatient net =
    (host : Json) (port : ℕ) → net.connect_soon host port ≡ none → net.connect host port ≡ none

stream_to-sent :
    (net : Network) (wanted : Kind) (host : Json) (port : ℕ) (payload : PrintPayload)
    → IsPatient net
    → kind_eq payload.kind wanted ≡ true
    → (connected_status (net.connect_soon host port)).reachable ≡ true
    → is_retry (stream_to net wanted host port payload).outcome ≡ false
unfolding stream_to connected_status is_retry
stream_to-sent net wanted host port payload patient fits up =
    elim (Option-cases (net.connect_soon host port)) [
      | inl soon ↦
          rw (fits, patient host port soon)
            (stream-retry (net.sendall host port payload.bytes) payload.bytes)
      | inr (e, closed) ↦ let bad = rw closed at up in cc
    ]

usb_open-retry :
    (o : UsbOpen) (t : Taken) (bytes : List ℕ)
    → is_retry (usb_open o t bytes).outcome ≡ not (usb_status o).reachable
unfolding usb_open usb_status is_retry
usb_open-retry no_driver t bytes = refl
usb_open-retry (no_device e) t bytes = refl
usb_open-retry opened t bytes = stream-retry t bytes

usb_send-retry :
    (usb : Usb) (v p : ℕ) (serial : Json) (payload : PrintPayload)
    → kind_eq payload.kind Kind.escpos ≡ true
    → is_retry (usb_send usb v p serial payload).outcome
      ≡ not (usb_status (usb.open_device v p serial)).reachable
unfolding usb_send
usb_send-retry usb v p serial payload fits = rw fits (
    usb_open-retry (usb.open_device v p serial) (usb.write_raw v p serial payload.bytes)
      payload.bytes)

written-retry : (t : Taken) (bytes : List ℕ) → is_retry (written t bytes).outcome ≡ false
unfolding is_retry written
written-retry all bytes = refl
written-retry (broken k e) bytes = refl

-- A status that was read, and is reachable.
abbrev pub IsUp : Result Status → Type 0
IsUp (ok s) = s.reachable ≡ true
IsUp (err e) = ⊥

from_not : (b c : Bool) → b ≡ not c → c ≡ true → b ≡ false
from_not b c e h = ground arith

-- A printer with a byte stream of its own, or a file, whose status is reachable: a send of a payload that
-- it takes, in the same state of its device, is not one that the worker tries again. (For a network printer
-- the status waits two seconds for a connection; it is assumed that one which opens within them opens
-- within the timeout of the send. The converse does not hold: a send may wait longer.)
pub reachable-send :
    (d : Devices)
    → IsPatient d.network
    → (printers : Result Fields) (b : Backend) (payload : PrintPayload) → is_stream b ≡ true
    → takes b payload.kind ≡ true
    → IsUp (status d printers b)
    → is_retry (send d b payload).outcome ≡ false
unfolding status send virtual_send takes is_stream
reachable-send d patient printers (virtual_backend i) payload h fits up =
    written-retry (d.write_bytes (virtual_path i payload.kind) payload.bytes) payload.bytes
reachable-send d patient printers (escpos_network_backend host port) payload h fits up =
    stream_to-sent d.network Kind.escpos host port payload patient fits up
reachable-send d patient printers (escpos_usb_backend v p serial) payload h fits up =
    from_not _ _ (usb_send-retry d.usb v p serial payload fits) up
reachable-send d patient printers (zpl_network_backend host port) payload h fits up =
    stream_to-sent d.network Kind.zpl host port payload patient fits up
reachable-send d patient printers (star_network_backend host port) payload h fits up =
    stream_to-sent d.network Kind.star host port payload patient fits up
reachable-send d patient printers (cups_backend queue media m) payload h fits up = absurd (cc)
reachable-send d patient printers (ipp_network_backend uri m) payload h fits up = absurd (cc)
