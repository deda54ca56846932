-- ===== src/Backends/Retries.antt =====
-- What a send that the worker will try again has left at the device, for every backend but the spoolers.
use vibe_printer.Prelude.{
  ℕ, ◌≡◌, refl, Bool, true, false, String, Option, none, some, List, [], ltb, Bool-cases, inl, inr,
}
use vibe_printer.Errors.{Result, ok, err, ◌>>=◌}
use vibe_printer.Json.{Json, num, Fields}
use vibe_printer.Json.Values.{Python, get_or, int_of}
use vibe_printer.Models.{
  Kind, PrinterType, escpos_network, escpos_usb, virtual, zpl_network, star_network,
}
use vibe_printer.Worker.{PrintPayload, SendOutcome, printer_unreachable, backend_error}
use vibe_printer.Backends.{
  Backend, virtual_backend, escpos_network_backend, escpos_usb_backend, cups_backend,
  ipp_network_backend, zpl_network_backend, star_network_backend, Sending, construct, host_port,
  required, Taken, all, broken, stream, stream_to, UsbOpen, no_driver, no_device, opened, usb_open,
  Usb, usb_send, virtual_send, written, kind_eq, Network, virtual_path,
}
use vibe_printer.Backends.Dispatch.{Devices, send, is_serialized, send_within}

-- The outcomes after which the worker tries again.
unfoldable pub is_retry : SendOutcome → Bool
is_retry (printer_unreachable e) = true
is_retry (backend_error e) = true
is_retry _ = false

pub send_within-is_retry :
    (limit elapsed : ℕ) (o : SendOutcome)
    → is_retry (send_within limit elapsed o) ≡ true
    → is_retry o ≡ true
unfolding send_within is_retry
send_within-is_retry limit elapsed o h = elim (Bool-cases (ltb elapsed limit)) [
  | inl soon ↦ rw soon at h
  | inr late ↦ let bad = rw late at h in cc
]

-- The backends of the types that are serialized.
unfoldable pub is_stream : Backend → Bool
is_stream (cups_backend queue media m) = false
is_stream (ipp_network_backend uri m) = false
is_stream _ = true

-- A send that is to be tried again has left nothing at the device.
abbrev pub Clean : Sending → Type 0
Clean g = is_retry g.outcome ≡ true → g.delivered ≡ []

stream-Clean : (t : Taken) (bytes : List ℕ) → Clean (stream t bytes)
unfolding stream is_retry
stream-Clean all bytes h = cc
stream-Clean (broken n e) bytes h = cc

connected-Clean :
    (c : Option String) (t : Taken) (bytes : List ℕ)
    → Clean (elim c [
      | some e ↦ record { outcome = printer_unreachable e; delivered = [] }
      | none ↦ stream t bytes
    ])
connected-Clean none t bytes h = stream-Clean t bytes h
connected-Clean (some e) t bytes h = refl

stream_to-Clean :
    (net : Network) (wanted : Kind) (host : Json) (port : ℕ) (payload : PrintPayload)
    → Clean (stream_to net wanted host port payload)
unfolding stream_to
stream_to-Clean net wanted host port payload = elim (Bool-cases (kind_eq payload.kind wanted)) [
  | inl same ↦
      rw same (
        connected-Clean (net.connect host port) (net.sendall host port payload.bytes) payload.bytes)
  | inr other ↦ rw other (λ h. refl)
]

usb_open-Clean : (o : UsbOpen) (t : Taken) (bytes : List ℕ) → Clean (usb_open o t bytes)
unfolding usb_open
usb_open-Clean no_driver t bytes h = refl
usb_open-Clean (no_device e) t bytes h = refl
usb_open-Clean opened t bytes h = stream-Clean t bytes h

usb_send-Clean :
    (usb : Usb) (v p : ℕ) (serial : Json) (payload : PrintPayload)
    → Clean (usb_send usb v p serial payload)
unfolding usb_send
usb_send-Clean usb v p serial payload = elim (Bool-cases (kind_eq payload.kind Kind.escpos)) [
  | inl same ↦ rw same (
      usb_open-Clean (usb.open_device v p serial) (usb.write_raw v p serial payload.bytes)
        payload.bytes)
  | inr other ↦ rw other (λ h. refl)
]

written-Clean : (t : Taken) (bytes : List ℕ) → Clean (written t bytes)
unfolding is_retry written
written-Clean all bytes h = cc
written-Clean (broken k e) bytes h = cc

pub send-Clean :
    (d : Devices) (b : Backend) (payload : PrintPayload)
    → is_stream b ≡ true
    → Clean (send d b payload)
unfolding send virtual_send is_stream
send-Clean d (virtual_backend i) payload h =
    written-Clean (d.write_bytes (virtual_path i payload.kind) payload.bytes) payload.bytes
send-Clean d (escpos_network_backend host port) payload h =
    stream_to-Clean d.network Kind.escpos host port payload
send-Clean d (escpos_usb_backend v p serial) payload h = usb_send-Clean d.usb v p serial payload
send-Clean d (zpl_network_backend host port) payload h =
    stream_to-Clean d.network Kind.zpl host port payload
send-Clean d (star_network_backend host port) payload h =
    stream_to-Clean d.network Kind.star host port payload
send-Clean d (cups_backend queue media m) payload h = cc
send-Clean d (ipp_network_backend uri m) payload h = cc

-- A constructor call that, if it succeeds, gives a backend with a byte stream or a file.
abbrev pub Streams : Result Backend → Type 0
Streams (ok b) = is_stream b ≡ true
Streams (err e) = Unit

bind-Streams :
    {A : Type 0} (m : Result A) (f : A → Result Backend)
    → ((a : A) → Streams (f a))
    → Streams (m >>= f)
bind-Streams (ok a) f h = h a
bind-Streams (err e) f h = tt

host_port-Streams :
    (py : Python) (n : ℕ) (make : Json → ℕ → Backend) (m : Fields)
    → ((host : Json) (port : ℕ) → is_stream (make host port) ≡ true)
    → Streams (host_port py n make m)
unfolding host_port
host_port-Streams py n make m streams =
    bind-Streams (required "host" m) _
      (λ host. bind-Streams (int_of py (get_or "port" (num n) m)) _ (λ port. streams host port))

pub construct-Streams :
    (py : Python) (i : ℕ) (t : PrinterType) (m : Fields)
    → is_serialized t ≡ true
    → Streams (construct py i t m)
unfolding construct is_serialized is_stream
construct-Streams py i virtual m h = refl
construct-Streams py i escpos_network m h =
    host_port-Streams py 9100 escpos_network_backend m (λ host port. refl)
construct-Streams py i escpos_usb m h = bind-Streams (required "vendor_id" m) _ (λ v'.
    bind-Streams (int_of py v') _ (λ v.
      bind-Streams (required "product_id" m) _ (λ p'. bind-Streams (int_of py p') _ (λ p. refl))))
construct-Streams py i zpl_network m h =
    host_port-Streams py 9100 zpl_network_backend m (λ host port. refl)
construct-Streams py i star_network m h =
    host_port-Streams py 9100 star_network_backend m (λ host port. refl)
construct-Streams py i _ m h = absurd (cc)
