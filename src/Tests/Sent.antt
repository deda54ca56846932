-- ===== src/Tests/Sent.antt =====
-- The theorems on the backends, applied.
use vibe_printer.Prelude.{ℕ, ◌*◌, ◌≤◌, ◌≡◌, refl, true, false, none, some, [], ◌∷◌, arith}
use vibe_printer.Prelude.Texts.{codes, decimal}
use vibe_printer.Errors.{ok}
use vibe_printer.Json.{str, null, end, field, get_field}
use vibe_printer.Json.Values.{Python, int_of, get_or}
use vibe_printer.Models.{printing, queued, pdf, escpos, escpos_network, Kind}
use vibe_printer.Models.Params.{PrinterParams, of_ipp_network, params_type, dump}
use vibe_printer.JobTable.{Job, select_job, update_job, of_exception}
use vibe_printer.Registry.Versioned.{Row}
use vibe_printer.Registry.Config.{Printer}
use vibe_printer.Jobs.{mark}
use vibe_printer.Worker.{
  PrintPayload, WorkerState, after_send, retry_or_dead, backoff, send_result, mid_send_error,
}
use vibe_printer.Worker.Outcomes.{row}
use vibe_printer.Backends.{
  Backend, all, broken, escpos_network_backend, ipp_network_backend, cups_backend, opened,
  construct, make_backend, host_port, required, stream_to, kind_eq, build_uri,
}
use vibe_printer.Backends.Cups.{
  JobState, Spooler, PollEnd, canceled, pending, poll_job, poll, poll_timeout, cups_takes,
}
use vibe_printer.Backends.IppSend.{answered}
use vibe_printer.Backends.Dispatch.{Devices, send, is_serialized, send_within}
use vibe_printer.Backends.Polling.{Says, Waited, poll_job-Run, unconfirmed_times_out}
use vibe_printer.Backends.Delivered.{Accounts, send-Accounts}
use vibe_printer.Backends.Built.{expected, construct-dump}
use vibe_printer.Backends.Retries.{is_retry, is_stream}
use vibe_printer.Backends.Requeued.{requeued_untouched, cups_resubmits}
use vibe_printer.Backends.Reachable.{takes, reachable-send}
use vibe_printer.Backends.Status.{status, connected_status}
use vibe_printer.Tests.{in_status, holding, settings, fine_day, worker_with, printer_of}

abbrev pub python : Python
python = record { int_of_text = λ s. none; repr_of = λ v. [] }

-- A spooler that takes a job and then shows one state of it.
abbrev spooler_showing : JobState → Spooler
spooler_showing state = record {
  driver = true;
  connection = none;
  print_file = λ queue options bytes. ok 7;
  job_state = λ job k. ok state;
  clock = λ k. k * 500;
}

abbrev devices : Devices
devices = record {
  python = python;
  network = record {
    connect = λ host port. some "refused";
    connect_soon = λ host port. some "refused";
    sendall = λ host port bytes. broken 1 "reset";
  };
  usb = record { open_device = λ v p s. opened; write_raw = λ v p s bytes. broken 1 "unplugged" };
  spooler = spooler_showing canceled;
  post = λ url request. answered 200 [];
  write_bytes = λ path bytes. all;
}

abbrev two_bytes_of : Kind → PrintPayload
two_bytes_of k = record {
  kind = k;
  bytes = 27 ∷ 64 ∷ [];
  option_copies = none;
  option_media = none;
}

poll_job-Run_example :
    (e : PollEnd) × (n : ℕ) × (poll_job (spooler_showing canceled) 7 ≡ some (e, n))
    × (n ≤ 120)
    × Says (spooler_showing canceled) 7 poll_timeout e n
    × Waited (spooler_showing canceled) 7 n 0
poll_job-Run_example = poll_job-Run (spooler_showing canceled) 7 (omega arith) (λ i. omega arith)

unconfirmed_times_out_example :
    send_within 45000 60000 (send_result 2 false) ≡ mid_send_error "send timed out"
unconfirmed_times_out_example =
    unconfirmed_times_out (spooler_showing pending) 7 119 45000 60000 (send_result 2 false)
      (omega arith) (omega arith) (λ i. omega arith) (unfold poll_job poll in refl) (omega arith)

abbrev at_till : Backend
at_till = escpos_network_backend (str "10.0.0.9") 9100

send-Accounts_example :
    Accounts
      (send devices at_till (two_bytes_of escpos)).outcome
      (send devices at_till (two_bytes_of escpos)).delivered
      (27 ∷ 64 ∷ [])
send-Accounts_example = send-Accounts devices at_till (two_bytes_of escpos)

abbrev office_params : PrinterParams
office_params = of_ipp_network (record {
  host = "10.0.0.7";
  port = 631;
  uri_path = "/ipp/print";
  tls = false;
  media = none;
  output_bin = "";
  input_tray = "";
  uri = none;
})

construct-dump_example :
    construct python 1 (params_type office_params) (dump office_params)
    ≡ ok (ipp_network_backend (codes "ipp://10.0.0.7:631/ipp/print") (dump office_params))
unfolding expected build_uri decimal
construct-dump_example = construct-dump python 1 office_params

abbrev till : Row Printer
till = record {
  id = 1;
  version = 1;
  content = printer_of escpos_network (field "host" (str "10.0.0.9") end);
}

abbrev printing_a : WorkerState
printing_a = worker_with (holding (in_status printing))

abbrev queued_again : Job
queued_again = record (in_status printing) {
  status = queued;
  attempts = 1;
  last_error = some (of_exception "refused");
  updated_at = fine_day.now;
  next_attempt_at = some (fine_day.retry_at 5);
}

requeued_untouched_example : (send devices at_till (two_bytes_of escpos)).delivered ≡ []
requeued_untouched_example =
    requeued_untouched settings fine_day (in_status printing) (in_status printing) queued_again
      printing_a till devices at_till (two_bytes_of escpos) 45 1 (unfold is_serialized in refl)
      (unfold make_backend construct host_port required get_field int_of get_or in refl)
      (unfold select_job in refl) refl
      (unfold send stream_to kind_eq send_within after_send retry_or_dead backoff mark update_job
          select_job in
        refl)
      refl

cups_resubmits_example :
    let g = send devices (cups_backend (str "office") null end) (two_bytes_of pdf) in
    (j' : Job) × (row "a"
        (after_send settings fine_day
          (in_status printing)
          till
          (send_within 45 1 g.outcome)
          printing_a).1
      ≡ some j')
    × (j'.status ≡ queued)
    × (g.delivered ≡ 27 ∷ 64 ∷ [])
cups_resubmits_example =
    cups_resubmits settings fine_day (in_status printing) (in_status printing) printing_a till
      devices (str "office") null end (two_bytes_of pdf) 45 1 7 0 (unfold select_job in refl)
      (omega arith) (omega arith) (unfold cups_takes in refl) refl refl refl
      (unfold poll_job poll in refl)

-- The same with a network where every address opens.
abbrev open_devices : Devices
open_devices = record devices {
  network = record devices.network {
    connect = λ host port. none;
    connect_soon = λ host port. none;
  };
}

reachable-send_example : is_retry (send open_devices at_till (two_bytes_of escpos)).outcome ≡ false
reachable-send_example =
    reachable-send open_devices (λ host port h. refl) (ok end) at_till (two_bytes_of escpos)
      (unfold is_stream in refl) (unfold takes kind_eq in refl)
      (unfold status connected_status in refl)
