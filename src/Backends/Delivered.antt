-- ===== src/Backends/Delivered.antt =====
-- What the outcome of a send says of the bytes that reached the device.
use vibe_printer.Prelude.{
  ℕ, zero, suc, ◌≡◌, refl, sym, ◌⊎◌, String, Option, none, some, [], ◌∷◌, ◌++◌, Bool-cases,
  Option-cases, ap, inl, inr, length, take, ltb,
}
use mathlib.Core.List.{append-nil}
use vibe_printer.Prelude.Texts.{Text, codes}
use vibe_printer.Errors.{Result, ok, err}
use vibe_printer.Json.{Json, str, Fields}
use vibe_printer.Json.Values.{Python, text_of, get_or}
use vibe_printer.Models.{Kind}
use vibe_printer.Ipp.{build_print_job, ipp_status}
use vibe_printer.Worker.{
  PrintPayload, SendOutcome, send_result, mid_send_error, printer_unreachable, backend_error,
  other_error,
}
use vibe_printer.Backends.{
  Taken, all, broken, Sending, Backend, virtual_backend, escpos_network_backend, escpos_usb_backend,
  cups_backend, ipp_network_backend, zpl_network_backend, star_network_backend, kind_eq, stream,
  Network, stream_to, Usb, UsbOpen, no_driver, no_device, opened, usb_open, usb_send, virtual_path,
  virtual_send, written,
}
use vibe_printer.Backends.Cups.{
  Spooler, PollEnd, confirmed, unconfirmed, refused, crashed, poll_job, poll_outcome, submitted,
  cups_connection, cups_options, cups_takes, cups_send,
}
use vibe_printer.Backends.IppSend.{
  Posted, no_connection, cut_off, answered, http_url, is_success, after_response, part_of,
  after_post, print_pdf, ipp_send,
}
use vibe_printer.Backends.Dispatch.{Devices, send}

abbrev pub IsPrefix : Text → Text → Type 0
IsPrefix got bytes = (rest : Text) × (bytes ≡ got ++ rest)

-- The outcome of a send, what reached the device, and what was to be sent.
abbrev pub Accounts : SendOutcome → (got bytes : Text) → Type 0
Accounts (send_result n sure) got bytes = (n ≡ length bytes) × (got ≡ bytes)
Accounts (mid_send_error e) got bytes = IsPrefix got bytes
Accounts (printer_unreachable e) got bytes = got ≡ []
Accounts (backend_error e) got bytes = (got ≡ []) ⊎ (got ≡ bytes)
Accounts (other_error e) got bytes = IsPrefix got bytes

abbrev Fair : Text → Sending → Type 0
Fair bytes s = Accounts s.outcome s.delivered bytes

take-IsPrefix : (n : ℕ) (bytes : Text) → IsPrefix (take n bytes) bytes
take-IsPrefix zero bytes = (bytes, refl)
take-IsPrefix (suc n) [] = ([], refl)
take-IsPrefix (suc n) (b ∷ bytes) =
    let (rest, split) = take-IsPrefix n bytes in (rest, ap (λ t. b ∷ t) split)

stream-Fair : (t : Taken) (bytes : Text) → Fair bytes (stream t bytes)
unfolding stream
stream-Fair all bytes = (refl, refl)
stream-Fair (broken n e) bytes = take-IsPrefix n bytes

connected-Fair :
    (c : Option String) (t : Taken) (bytes : Text)
    → Fair bytes (elim c [
      | some e ↦ record { outcome = printer_unreachable e; delivered = [] }
      | none ↦ stream t bytes
    ])
connected-Fair none t bytes = stream-Fair t bytes
connected-Fair (some e) t bytes = refl

stream_to-Fair :
    (net : Network) (wanted : Kind) (host : Json) (port : ℕ) (payload : PrintPayload)
    → Fair payload.bytes (stream_to net wanted host port payload)
unfolding stream_to
stream_to-Fair net wanted host port payload = elim (Bool-cases (kind_eq payload.kind wanted)) [
  | inl same ↦
      rw same
        (connected-Fair (net.connect host port) (net.sendall host port payload.bytes) payload.bytes)
  | inr other ↦ rw other (payload.bytes, refl)
]

usb_open-Fair : (o : UsbOpen) (t : Taken) (bytes : Text) → Fair bytes (usb_open o t bytes)
unfolding usb_open
usb_open-Fair no_driver t bytes = inl refl
usb_open-Fair (no_device e) t bytes = refl
usb_open-Fair opened t bytes = stream-Fair t bytes

usb_send-Fair :
    (usb : Usb) (v p : ℕ) (serial : Json) (payload : PrintPayload)
    → Fair payload.bytes (usb_send usb v p serial payload)
unfolding usb_send
usb_send-Fair usb v p serial payload = elim (Bool-cases (kind_eq payload.kind Kind.escpos)) [
  | inl same ↦ rw same (
      usb_open-Fair (usb.open_device v p serial) (usb.write_raw v p serial payload.bytes)
        payload.bytes)
  | inr other ↦ rw other (payload.bytes, refl)
]

written-Fair : (t : Taken) (bytes : Text) → Fair bytes (written t bytes)
unfolding written
written-Fair all bytes = (refl, refl)
written-Fair (broken n e) bytes = take-IsPrefix n bytes

poll_outcome-Accounts :
    (o : Option (PollEnd × ℕ)) (bytes : Text) → Accounts (poll_outcome o (length bytes)) bytes bytes
unfolding poll_outcome
poll_outcome-Accounts none bytes = ([], sym (append-nil bytes))
poll_outcome-Accounts (some (confirmed, k)) bytes = (refl, refl)
poll_outcome-Accounts (some (unconfirmed, k)) bytes = (refl, refl)
poll_outcome-Accounts (some (refused, k)) bytes = inr refl
poll_outcome-Accounts (some (crashed e, k)) bytes = ([], sym (append-nil bytes))

submitted-Fair : (s : Spooler) (r : Result ℕ) (bytes : Text) → Fair bytes (submitted s r bytes)
unfolding submitted
submitted-Fair s (err e) bytes = (bytes, refl)
submitted-Fair s (ok job) bytes = poll_outcome-Accounts (poll_job s job) bytes

after_response-Fair : (o : Option ℕ) (bytes : Text) → Fair bytes (after_response o bytes)
unfolding after_response
after_response-Fair none bytes = inr refl
after_response-Fair (some code) bytes = elim (Bool-cases (ltb code 256)) [
  | inl fine ↦ rw fine (refl, refl)
  | inr bad ↦ rw bad (inr refl)
]

after_post-Fair : (o : Posted) (request bytes : Text) → Fair bytes (after_post o request bytes)
unfolding after_post part_of
after_post-Fair (no_connection e) request bytes = refl
after_post-Fair (cut_off n e) request bytes = take-IsPrefix _ bytes
after_post-Fair (answered status content) request bytes = elim (Bool-cases (is_success status)) [
  | inl fine ↦ rw fine (after_response-Fair (ipp_status content) bytes)
  | inr bad ↦ rw bad ([], sym (append-nil bytes))
]

cups_send-Fair :
    (s : Spooler) (py : Python) (queue media : Json) (m : Fields) (payload : PrintPayload)
    → Fair payload.bytes (cups_send s py queue media m payload)
unfolding cups_send cups_connection
cups_send-Fair s py queue media m payload = elim (Bool-cases (cups_takes payload.kind)) [
  | inr other ↦ rw other (inl refl)
  | inl takes ↦ rw takes (elim (Bool-cases s.driver) [
    | inr without ↦ rw without (inl refl)
    | inl loaded ↦ rw loaded (elim (Option-cases s.connection) [
      | inr (e, down) ↦ rw down refl
      | inl up ↦ rw up (
          submitted-Fair s (s.print_file queue (cups_options py media m payload) payload.bytes)
            payload.bytes)
    ])
  ])
]

print_pdf-Fair :
    (post : Text → Text → Posted) (uri pdf bin tray : Text)
    → Fair pdf (print_pdf post uri pdf bin tray)
unfolding print_pdf
print_pdf-Fair post uri pdf bin tray =
    elim (Option-cases (build_print_job uri pdf (codes "vibe-print") bin tray)) [
      | inl long ↦ rw (long, print_pdf) (pdf, refl)
      | inr (request, built) ↦
          rw (built, print_pdf) (after_post-Fair (post (http_url uri) request) request pdf)
    ]

ipp_send-Fair :
    (post : Text → Text → Posted) (py : Python) (uri : Text) (m : Fields) (payload : PrintPayload)
    → Fair payload.bytes (ipp_send post py uri m payload)
unfolding ipp_send
ipp_send-Fair post py uri m payload = elim (Bool-cases (kind_eq payload.kind Kind.pdf)) [
  | inr other ↦ rw other (inl refl)
  | inl same ↦ rw same (
      print_pdf-Fair post uri payload.bytes (text_of py (get_or "output_bin" (str "") m))
        (text_of py (get_or "input_tray" (str "") m)))
]

-- For every backend: after a SendResult the device has the whole payload, and its length is reported;
-- an unreachable printer has no byte of it; after a MidSendError, or an exception of another class, it has
-- the first bytes of it; after a BackendError nothing or all of it.
pub send-Accounts :
    (d : Devices) (b : Backend) (payload : PrintPayload)
    → Accounts (send d b payload).outcome (send d b payload).delivered payload.bytes
unfolding send virtual_send
send-Accounts d (virtual_backend i) payload =
    written-Fair (d.write_bytes (virtual_path i payload.kind) payload.bytes) payload.bytes
send-Accounts d (escpos_network_backend host port) payload =
    stream_to-Fair d.network Kind.escpos host port payload
send-Accounts d (escpos_usb_backend v p serial) payload = usb_send-Fair d.usb v p serial payload
send-Accounts d (cups_backend queue media m) payload =
    cups_send-Fair d.spooler d.python queue media m payload
send-Accounts d (ipp_network_backend uri m) payload = ipp_send-Fair d.post d.python uri m payload
send-Accounts d (zpl_network_backend host port) payload =
    stream_to-Fair d.network Kind.zpl host port payload
send-Accounts d (star_network_backend host port) payload =
    stream_to-Fair d.network Kind.star host port payload
