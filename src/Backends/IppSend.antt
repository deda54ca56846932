-- ===== src/Backends/IppSend.antt =====
-- app/backends/ipp_network.py, `send`, and `http_url` and `print_pdf` of app/ipp_client.py. What httpx does
-- with a request is an argument.
use vibe_printer.Prelude.{
  ℕ, Bool, false, String, Option, none, some, ◌++◌, length, take, drop, ltb, leb, ◌-◌, ◌&&◌,
  if◌then◌else◌,
}
use vibe_printer.Prelude.Texts.{Text, codes, text_eq}
use vibe_printer.Json.{str, Fields}
use vibe_printer.Json.Values.{Python, text_of, get_or}
use vibe_printer.Models.{Kind}
use vibe_printer.Ipp.{build_print_job, ipp_status}
use vibe_printer.Worker.{
  PrintPayload, send_result, mid_send_error, printer_unreachable, backend_error, other_error,
}
use vibe_printer.Backends.{Sending, fails, kind_eq}

-- `httpx.post`: no connection (ConnectError, ConnectTimeout), another HTTPError after so many bytes of the
-- request, or a response.
pub data Posted : Type 0 where
  no_connection : String → Posted
  cut_off : (bytes : ℕ) → String → Posted
  answered : (status : ℕ) (content : Text) → Posted

unfoldable pub starts_with : (prefix text : Text) → Bool
unfolding text_eq
starts_with prefix text = text_eq (take (length prefix) text) prefix

unfoldable pub http_url : Text → Text
unfolding starts_with
http_url uri =
    if starts_with (codes "ipps://") uri
    then codes "https://" ++ drop (length (codes "ipps://")) uri
    else if starts_with (codes "ipp://") uri
    then codes "http://" ++ drop (length (codes "ipp://")) uri
    else uri

-- `raise_for_status`, then the status of the IPP response. A response below 400 passes only if it is of
-- the 200s.
unfoldable pub is_success : (status : ℕ) → Bool
is_success status = leb 200 status && ltb status 300

unfoldable pub after_response : Option ℕ → (pdf : Text) → Sending
after_response none pdf = record { outcome = backend_error "short IPP response"; delivered = pdf }
after_response (some code) pdf =
    if ltb code 256
    then record { outcome = send_result (length pdf) false; delivered = pdf }
    else record { outcome = backend_error "IPP error status"; delivered = pdf }

-- The document stands at the end of the request: of so many bytes of the request, those past the
-- attributes are of the document.
unfoldable pub part_of : (sent : ℕ) (request pdf : Text) → Text
part_of sent request pdf =
    take (length (drop (length request - length pdf) (take sent request))) pdf

unfoldable pub after_post : Posted → (request pdf : Text) → Sending
unfolding is_success after_response ipp_status part_of
after_post (no_connection e) request pdf = fails (printer_unreachable e)
after_post (cut_off n e) request pdf = record {
  outcome = mid_send_error e;
  delivered = part_of n request pdf;
}
after_post (answered status content) request pdf =
    if is_success status
    then after_response (ipp_status content) pdf
    else record { outcome = mid_send_error "HTTPStatusError"; delivered = pdf }

-- `print_pdf` under the `try` of `send`. An attribute that is too long is an OverflowError.
unfoldable pub print_pdf :
    ((url : Text) → (request : Text) → Posted) → (uri pdf output_bin input_tray : Text) → Sending
unfolding after_post build_print_job http_url
print_pdf post uri pdf output_bin input_tray =
    elim (build_print_job uri pdf (codes "vibe-print") output_bin input_tray) [
      | none ↦ fails (other_error "OverflowError")
      | some request ↦ after_post (post (http_url uri) request) request pdf
    ]

unfoldable pub ipp_send :
    ((url : Text) → (request : Text) → Posted)
    → Python
    → (uri : Text) → Fields
    → PrintPayload
    → Sending
unfolding print_pdf kind_eq
ipp_send post py uri params payload =
    if kind_eq payload.kind Kind.pdf
    then print_pdf post uri payload.bytes (text_of py (get_or "output_bin" (str "") params))
        (text_of py (get_or "input_tray" (str "") params))
    else fails (backend_error "IPP backend requires a PDF payload")
