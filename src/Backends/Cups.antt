-- ===== src/Backends/Cups.antt =====
-- app/backends/cups.py, class CupsBackend: the options of a job, its submission, and the loop that polls
-- its state; the status, the trays and the provisioning of a queue. The spooler is given by functions.
-- Times are milliseconds.
use vibe_printer.Prelude.{
  ℕ, zero, suc, ◌+◌, Bool, true, false, String, Option, none, some, List, [], ◌∷◌, length, ltb,
  if◌then◌else◌,
}
use vibe_printer.Prelude.Texts.{Text, codes, decimal, text_eq}
use vibe_printer.Errors.{Failure, Result, ok, err}
use vibe_printer.Json.{Json, str, null, Fields, truthy}
use vibe_printer.Json.Values.{Python, text_of, get_or}
use vibe_printer.Models.{Kind}
use vibe_printer.Worker.{
  PrintPayload, SendOutcome, send_result, printer_unreachable, backend_error, other_error,
}
use vibe_printer.Backends.{Sending, fails}

-- `job-state`, as far as the loop tells it apart.
pub data JobState : Type 0 where
  completed canceled aborted pending : JobState

-- pycups and the spooler: whether the module is there, whether a connection opens, what `printFile`
-- returns, and the state of a job at each round of the loop. `clock 0` is read before the loop,
-- `clock (suc k)` by the test of round k.
pub record Spooler : Type 0 where
  pub driver : Bool
  pub connection : Option String
  pub print_file : (queue : Json) (options : List (Text × Text)) → Text → Result ℕ
  pub job_state : (job : ℕ) (round : ℕ) → Result JobState
  pub clock : ℕ → ℕ

-- `options[k] = v` on a dict in the order of insertion.
unfoldable pub set_option : Text → Text → List (Text × Text) → List (Text × Text)
unfolding text_eq
set_option k v [] = (k, v) ∷ []
set_option k v ((j, w) ∷ options) =
    let rest = set_option k v options in if text_eq j k then (j, v) ∷ options else (j, w) ∷ rest

-- `if v: options[k] = str(v)`
unfoldable pub set_if_true : Python → Text → Json → List (Text × Text) → List (Text × Text)
unfolding set_option
set_if_true py k v options = if truthy v then set_option k (text_of py v) options else options

abbrev pub json_of : Option String → Json
json_of none = null
json_of (some s) = str s

unfoldable pub copies_of : PrintPayload → ℕ
copies_of payload = elim payload.option_copies [ none ↦ 1 | some n ↦ n ]

unfoldable pub set_copies : ℕ → List (Text × Text) → List (Text × Text)
unfolding set_option
set_copies n options = if ltb 1 n then set_option (codes "copies") (decimal n) options else options

unfoldable pub set_format : Kind → List (Text × Text) → List (Text × Text)
unfolding set_option
set_format Kind.pcl options =
    set_option (codes "document-format") (codes "application/vnd.cups-raw") options
set_format _ options = options

-- The options that `send` hands to `printFile`.
unfoldable pub cups_options : Python → (media : Json) → Fields → PrintPayload → List (Text × Text)
unfolding set_if_true set_copies set_format copies_of
cups_options py media params payload =
    let by_queue = set_if_true py (codes "media") media [] in
    let by_job = set_if_true py (codes "media") (json_of payload.option_media) by_queue in
    let copied = set_copies (copies_of payload) by_job in
    let bin = set_if_true py (codes "output-bin") (get_or "output_bin" null params) copied in
    let tray = set_if_true py (codes "media-source") (get_or "input_tray" null params) bin in
    set_format payload.kind tray

-- How `_poll` ends: True, False, a BackendError, or an exception of `getJobAttributes`.
pub data PollEnd : Type 0 where
  confirmed unconfirmed refused : PollEnd
  crashed : Failure → PollEnd

-- One round of the loop, after the test of the deadline.
unfoldable pub poll_round :
    Result JobState → (rest : Option (PollEnd × ℕ)) → ℕ → Option (PollEnd × ℕ)
poll_round (err e) rest k = some (crashed e, k)
poll_round (ok completed) rest k = some (confirmed, k)
poll_round (ok canceled) rest k = some (refused, k)
poll_round (ok aborted) rest k = some (refused, k)
poll_round (ok pending) rest k = rest

-- The loop from round k, with the round in which it ends; none if the fuel runs out.
unfoldable pub poll : Spooler → (job deadline : ℕ) → (fuel : ℕ) → (round : ℕ) → Option (PollEnd × ℕ)
unfolding poll_round
poll s job deadline zero k = none
poll s job deadline (suc fuel) k =
    let rest = poll s job deadline fuel (suc k) in
    if ltb (s.clock (suc k)) deadline
    then poll_round (s.job_state job k) rest k
    else some (unconfirmed, k)

abbrev pub poll_timeout : ℕ
poll_timeout = 60000

-- A round sleeps half a second, so the test fails in round 120 at the latest.
abbrev pub poll_rounds : ℕ
poll_rounds = 121

unfoldable pub poll_job : Spooler → (job : ℕ) → Option (PollEnd × ℕ)
unfolding poll
poll_job s job = poll s job (s.clock 0 + poll_timeout) poll_rounds 0

-- The suffix of the temporary file: None for a kind that CUPS does not take.
unfoldable pub cups_takes : Kind → Bool
cups_takes Kind.pdf = true
cups_takes Kind.postscript = true
cups_takes Kind.pcl = true
cups_takes _ = false

unfoldable pub poll_outcome : Option (PollEnd × ℕ) → (bytes : ℕ) → SendOutcome
poll_outcome none n = other_error "out of fuel"
poll_outcome (some (confirmed, k)) n = send_result n true
poll_outcome (some (unconfirmed, k)) n = send_result n false
poll_outcome (some (refused, k)) n = backend_error "CUPS job failed"
poll_outcome (some (crashed e, k)) n = other_error "IPPError"

-- `printFile`, and the loop on the job that it returns. Its exceptions are not caught.
unfoldable pub submitted : Spooler → Result ℕ → Text → Sending
unfolding poll_job poll_outcome
submitted s (err e) bytes = fails (other_error "IPPError")
submitted s (ok job) bytes = record {
  outcome = poll_outcome (poll_job s job) (length bytes);
  delivered = bytes;
}

-- `_conn`: the exception, if it raises one.
unfoldable pub cups_connection : Spooler → Option SendOutcome
cups_connection s =
    if s.driver
    then (elim s.connection [ none ↦ none | some e ↦ some (printer_unreachable e) ])
    else some (backend_error "CUPS support unavailable")

unfoldable pub cups_send : Spooler → Python → (queue media : Json) → Fields → PrintPayload → Sending
unfolding cups_takes cups_connection submitted cups_options
cups_send s py queue media params payload =
    if cups_takes payload.kind
    then (elim (cups_connection s) [
      | some e ↦ fails e
      | none ↦
          submitted s (s.print_file queue (cups_options py media params payload) payload.bytes)
            payload.bytes
    ])
    else fails (backend_error "CUPS backend requires a pdf/postscript/pcl payload")
