-- ===== src/Tests/Queue.antt =====
-- The theorems on the queue and on timestamps, applied.
use mathlib.Core.List.{Memᴰ}
use vibe_printer.Prelude.{
  ◌+◌, inl, ◌≤◌, ◌≡◌, ◌≢◌, ◌⊎◌, refl, true, false, none, some, arith, All, length, max,
}
use vibe_printer.Prelude.Texts.{Text, codes, text_leb}
use vibe_printer.Errors.{ok, err, api, api_error, queue_full, integrity_error}
use vibe_printer.Clock.{DateTime, IsDateTime, utcnow_iso}
use vibe_printer.Clock.Order.{date_leb, then_leb, utcnow_iso_leb}
use vibe_printer.JobTable.{select_job}
use vibe_printer.Jobs.{
  IdempotencyRow, enqueue, new_job, depth, printer_depth, claim, is_queued, ready,
}
use vibe_printer.Jobs.Backpressure.{enqueue_cases, accepted, enqueue_keeps_caps, Accepts, inserted}
use vibe_printer.Jobs.Lifecycle.{claim_once}
use vibe_printer.Jobs.Ready.{IsWaiting, InOrder, Precedes, ready_sound, ready_complete}
use vibe_printer.Tests.{job_a, holding, to_printer}

abbrev noon : Text
noon = codes "2026-06-27T12:00:000000Z"

abbrev one_o_clock : Text
one_o_clock = codes "2026-06-27T13:00:000000Z"

enqueue_cases_example :
    let s = holding job_a in
    Accepts "b" noon noon (to_printer 1) s
      × (enqueue "b" noon noon (to_printer 1) s
          ≡ (ok (new_job "b" noon noon (to_printer 1)), inserted "b" noon noon (to_printer 1) s))
    ⊎ ((10 ≤ depth s) ⊎ (2 ≤ printer_depth 1 s))
      × (enqueue "b" noon noon (to_printer 1) s ≡ (err (api (api_error queue_full (some 429))), s))
    ⊎ (select_job "b" s.jobs ≢ none)
      × (enqueue "b" noon noon (to_printer 1) s ≡ (err integrity_error, s))
enqueue_cases_example = enqueue_cases "b" noon noon (to_printer 1) (holding job_a)

enqueue_keeps_caps_example :
    let s = holding job_a in
    let (r, s') = enqueue "b" noon noon (to_printer 1) s in
    (depth s' ≡ depth s + accepted r)
    × (printer_depth 1 s' ≡ printer_depth 1 s + accepted r)
    × (depth s' ≤ max (depth s) 10)
    × (printer_depth 1 s' ≤ max (printer_depth 1 s) 2)
enqueue_keeps_caps_example = enqueue_keeps_caps "b" noon noon (to_printer 1) (holding job_a) 1

claim_once_example :
    let s' = (claim "a" noon (holding job_a)).1 in
    ((claim "a" one_o_clock s').0 ≡ false)
    × (select_job "a" (claim "a" one_o_clock s').1.jobs ≡ select_job "a" s'.jobs)
claim_once_example =
    claim_once "a" noon one_o_clock (holding job_a) "a" (unfold claim select_job is_queued in refl)

ready_sound_example :
    All (IsWaiting noon) (ready noon (holding job_a))
    × InOrder (ready noon (holding job_a))
    × (length (ready noon (holding job_a)) ≤ 50)
ready_sound_example = ready_sound noon (holding job_a)

ready_complete_example :
    Memᴰ job_a (ready noon (holding job_a))
    ⊎ ((length (ready noon (holding job_a)) ≡ 50)
        × All (λ r. Precedes r job_a) (ready noon (holding job_a)))
ready_complete_example =
    ready_complete noon (holding job_a) job_a (Memᴰ.head refl) (refl, inl refl, inl refl)

abbrev first_row : IdempotencyRow
first_row = record { key = "key"; request_hash = "h"; job_id = "a"; created_at = noon }

abbrev early : DateTime
early = record {
  year = 2026;
  month = 6;
  day = 27;
  hour = 10;
  minute = 5;
  second = 1;
  microsecond = 900;
}

abbrev late : DateTime
late = record {
  year = 2026;
  month = 6;
  day = 27;
  hour = 10;
  minute = 5;
  second = 59;
  microsecond = 100;
}

early-IsDateTime : IsDateTime early
early-IsDateTime = record {
  year_range = omega arith;
  month_range = omega arith;
  day_range = omega arith;
  hour_range = omega arith;
  minute_range = omega arith;
  second_range = omega arith;
  microsecond_range = omega arith;
}

late-IsDateTime : IsDateTime late
late-IsDateTime = record {
  year_range = omega arith;
  month_range = omega arith;
  day_range = omega arith;
  hour_range = omega arith;
  minute_range = omega arith;
  second_range = omega arith;
  microsecond_range = omega arith;
}

utcnow_iso_leb_example :
    text_leb (utcnow_iso early) (utcnow_iso late)
    ≡ date_leb early late (then_leb 10 10 (then_leb 5 5 (then_leb 900 100 true)))
utcnow_iso_leb_example = utcnow_iso_leb early late early-IsDateTime late-IsDateTime
