-- ===== src/Worker/Sends.antt =====
-- How often one run sends its job.
use mathlib.Core.Option.{map as map_option}
use mathlib.Core.Path.{subst}
use text.Mathlib.TextPositions.{eq_refl}
use vibe_printer.Prelude.{
  ℕ, ◌+◌, ◌≤◌, ◌≡◌, refl, Bool, String, Option, none, some, arith, Bool-cases, inl, inr,
}
use vibe_printer.Errors.{api, Result, ok, err, Result-cases}
use vibe_printer.Models.{printing, done, failed, uncertain}
use vibe_printer.JobTable.{Job}
use vibe_printer.Jobs
use vibe_printer.Jobs.{JobStore, is_active, no_fields}
use vibe_printer.Jobs.Retention.{redact}
use vibe_printer.Registry.Versioned.{Row}
use vibe_printer.Registry.Config.{Printer, get_printer}
use vibe_printer.Pools.{Cursors, Target, found, unreachable, broken, resolve_target}
use vibe_printer.Worker.{
  WorkerSettings, PrintPayload, SendOutcome, send_result, mid_send_error, printer_unreachable,
  backend_error, other_error, WorkerState, World, mark_in, retry_or_dead, finish, after_send,
  after_render, after_target, process, with_backend, render_stored, guarded, with_error, error_text,
}
use vibe_printer.Worker.Outcomes.{row, open_count, open-mark_in, select-redact_payload, id-get}

-- The send that a run for a job comes to, by how it ends; none if the run ends before it.
unfoldable pub send_of_target : World → Job → Target → WorkerState → Option SendOutcome
unfolding render_stored
send_of_target w job (found printer) s =
    elim (render_stored w s.registry job.payload_json printer).0 [
      | err e ↦ none
      | ok payload ↦ some (w.send printer payload)
    ]
send_of_target w job _ s = none

unfoldable pub send_of : World → (i : String) → WorkerState → Option SendOutcome
unfolding send_of_target with_backend
send_of w i s = elim (Jobs.get i s.store) [
  | err e ↦ none
  | ok job ↦ elim (get_printer job.printer_id s.registry) [
    | err e ↦ none
    | ok requested ↦
        send_of_target w job
          (with_backend w (resolve_target w.probe s.registry requested s.cursors).0) s
  ]
]

-- 1 for a send that may have printed: one that returned, that broke off or timed out, or that raised
-- anything but PrinterUnreachable and BackendError.
abbrev pub may_print : Option SendOutcome → ℕ
may_print none = 0
may_print (some (send_result bytes confirmed)) = 1
may_print (some (mid_send_error e)) = 1
may_print (some (other_error e)) = 1
may_print (some (printer_unreachable e)) = 0
may_print (some (backend_error e)) = 0

may_print-le : (o : Option SendOutcome) → may_print o ≤ 1
may_print-le none = omega arith
may_print-le (some (send_result bytes confirmed)) = omega arith
may_print-le (some (mid_send_error e)) = omega arith
may_print-le (some (other_error e)) = omega arith
may_print-le (some (printer_unreachable e)) = omega arith
may_print-le (some (backend_error e)) = omega arith

pub open_count-le : (o : Option Job) → open_count o ≤ 1
open_count-le none = omega arith
open_count-le (some j) = ground arith

-- Redaction changes no status.
open_count-redact :
    (w : World) (o : Option Job)
    → open_count (map_option (redact w.sha256 w.text_length) o) ≡ open_count o
unfolding redact
open_count-redact w none = refl
open_count-redact w (some j) = refl

-- After `_process`: if it returned then a job that may have printed is no longer to be sent.
abbrev Once : String → Option SendOutcome → Result (Unit {0}) → WorkerState → Type 0
Once i o (ok u) s = may_print o + open_count (row i s) ≤ 1
Once i o (err e) s = Unit

Once-unsent : (i : String) (r : Result (Unit {0})) (s : WorkerState) → Once i none r s
Once-unsent i (ok u) s = omega (arith, open_count-le (row i s))
Once-unsent i (err e) s = tt

Once-closed :
    (i : String) (o : Option SendOutcome) (r : Result (Unit {0})) (s : WorkerState)
    → open_count (row i s) ≡ 0
    → Once i o r s
Once-closed i o (ok u) s closed = omega (arith, closed, may_print-le o)
Once-closed i o (err e) s closed = tt

module _ (p : WorkerSettings) (w : World) (job : Job) where
  finish-closed :
      (printer bytes : ℕ) (confirmed : Bool) (s : WorkerState)
      → open_count (row job.id (finish p w job.id printer bytes confirmed s).1) ≡ 0
  unfolding finish
  finish-closed printer bytes confirmed s =
      let closed = open-mark_in w job.id done _ s (λ j. refl) (unfold is_active in refl) in
      elim (Bool-cases p.store_payloads) [
        | inl keep ↦ rw keep closed
        | inr drop ↦
            rw (drop, select-redact_payload w job.id job.id _, eq_refl job.id, open_count-redact w)
              closed
      ]

  after_send-Once :
      (printer : Row Printer) (o : SendOutcome) (s : WorkerState)
      → let (r, s') = after_send p w job printer o s in Once job.id (some o) r s'
  unfolding after_send
  after_send-Once printer (send_result bytes confirmed) s =
      Once-closed job.id (some (send_result bytes confirmed)) _ _
        (finish-closed printer.id bytes confirmed s)
  after_send-Once printer (mid_send_error e) s =
      Once-closed job.id (some (mid_send_error e)) (ok tt)
        (after_send p w job printer (mid_send_error e) s).1
        (open-mark_in w job.id uncertain _ s (λ j. refl) (unfold is_active in refl))
  after_send-Once printer (printer_unreachable e) s =
      Once-unsent job.id (ok tt) (retry_or_dead p w job printer.id e s)
  after_send-Once printer (backend_error e) s =
      Once-unsent job.id (ok tt) (retry_or_dead p w job printer.id e s)
  after_send-Once printer (other_error e) s = tt

  after_render-Once :
      (printer : Row Printer) (r : Result PrintPayload) (s : WorkerState)
      → let (r', s') = after_render p w job printer r s in
        Once job.id (elim r [ err e ↦ none | ok payload ↦ some (w.send printer payload) ]) r' s'
  unfolding after_render
  after_render-Once printer (ok payload) s =
      after_send-Once printer (w.send printer payload) (mark_in w job.id printing no_fields s)
  after_render-Once printer (err (api e)) s =
      Once-unsent job.id (ok tt) (after_render p w job printer (err (api e)) s).1
  after_render-Once printer (err _) s = tt

  after_target-Once :
      (requested : Row Printer) (t : Target) (s : WorkerState) (c : Cursors)
      → let (r, s') = after_target p w job requested t (record s { cursors = c }) in
        Once job.id (send_of_target w job t s) r s'
  unfolding after_target send_of_target
  after_target-Once requested unreachable s c =
      Once-unsent job.id (ok tt) (retry_or_dead p w job requested.id _ _)
  after_target-Once requested (broken e) s c = tt
  after_target-Once requested (found printer) s c = after_render-Once printer _ _

process-Once :
    (p : WorkerSettings) (w : World) (i : String) (s : WorkerState)
    → Once i (send_of w i s) (process p w i s).0 (process p w i s).1
unfolding process send_of
process-Once p w i s = elim (Result-cases (Jobs.get i s.store)) [
  | inr (e, missing) ↦ rw (missing, process, send_of) tt
  | inl (job, got) ↦ elim (Result-cases (get_printer job.printer_id s.registry)) [
    | inr (e, missing) ↦ rw (got, process, send_of, missing) tt
    | inl (requested, known) ↦
        let t = with_backend w (resolve_target w.probe s.registry requested s.cursors).0 in
        let c = (resolve_target w.probe s.registry requested s.cursors).1 in
        rw (got, process, send_of, known)
          (subst
            (λ x.
              let (r, s') = after_target p w job requested t (record s { cursors = c }) in
              Once x (send_of_target w job t s) r s')
            (id-get i s.store job got) (after_target-Once p w job requested t s c))
  ]
]

-- A run comes to one send at most, and after one that may have printed its job is no longer to be sent.
pub guarded-SentOnce :
    (p : WorkerSettings) (w : World) (i : String) (s : WorkerState)
    → may_print (send_of w i s) + open_count (row i (guarded p w i s)) ≤ 1
unfolding guarded
guarded-SentOnce p w i s = elim (Result-cases (process p w i s).0) [
  | inl (u, fine) ↦ rw (fine, guarded) (rw fine at (process-Once p w i s))
  | inr (e, crashed) ↦
      rw (crashed, guarded)
        (rw
          (open-mark_in w i failed (with_error (error_text e)) (process p w i s).1 (λ j. refl)
            (unfold is_active in refl))
          (omega (arith, may_print-le (send_of w i s))))
]
