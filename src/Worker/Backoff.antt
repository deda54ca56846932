-- ===== src/Worker/Backoff.antt =====
-- `_retry_or_dead`: the delay before the next attempt, and how many attempts a job is given.
use native.Mathlib.Nat.{pow-suc}
use vibe_printer.Prelude.{
  ℕ, suc, ◌+◌, ◌-◌, ◌*◌, ◌^◌, ◌≤◌, ◌<◌, ◌≡◌, refl, String, some, [], ◌∷◌, ◌++◌, arith, Bool-cases,
  leb, inl, inr, ◌⊎◌, min, ◌∙◌,
}
use vibe_printer.Models.{queued, dead}
use vibe_printer.JobTable.{Job, of_exception}
use vibe_printer.Worker.{WorkerSettings, WorkerState, World, backoff, retry_or_dead}
use vibe_printer.Worker.Outcomes.{row, row-mark_in}

min_double : (x m : ℕ) → min (2 * x) m ≡ min (2 * min x m) m
min_double x m = ground arith

pow_double : (b a : ℕ) → b * 2 ^ (a + 2 - 1) ≡ 2 * (b * 2 ^ (a + 1 - 1))
pow_double b a =
    let e : a + 2 - 1 ≡ suc a = omega arith in
    let e' : a + 1 - 1 ≡ a = omega arith in rw (e, e', pow-suc 2 a) (omega arith)

-- The delay is the base before the second attempt and doubles with each attempt, within the maximum.
pub backoff_doubles :
    (p : WorkerSettings) (a : ℕ)
    → (backoff p 1 ≡ min p.retry_base_seconds p.retry_max_seconds)
      × (backoff p (a + 2) ≡ min (2 * backoff p (a + 1)) p.retry_max_seconds)
      × (backoff p a ≤ p.retry_max_seconds)
unfolding backoff
backoff_doubles p a = (
  ground arith,
  rw (pow_double p.retry_base_seconds a)
      (min_double (p.retry_base_seconds * 2 ^ (a + 1 - 1)) p.retry_max_seconds),
  omega arith,
)

-- After a failed attempt the row of the job counts the attempt. With the maximum reached the job is
-- dead and one alert is raised; otherwise it is queued again, below the maximum, and not due before
-- the time that the backoff gives, and no alert is raised. Nothing is audited as sent.
pub retry_or_dead_cases :
    (p : WorkerSettings) (w : World) (job j : Job) (printer : ℕ) (e : String) (s : WorkerState)
    → row job.id s ≡ some j
    → let s' = retry_or_dead p w job printer e s in
      let attempts = job.attempts + 1 in
      ((p.max_attempts ≤ attempts)
        × (row job.id s'
            ≡ some (record j {
              status = dead;
              attempts = attempts;
              last_error = some (of_exception e);
              updated_at = w.now;
            }))
        × (s'.alerts
            ≡ s.alerts
              ++ (record { event = "job_dead"; job_id = job.id; printer_id = printer } ∷ []))
        × (s'.print_audit ≡ s.print_audit))
      ⊎ ((attempts < p.max_attempts)
          × (row job.id s'
              ≡ some (record j {
                status = queued;
                attempts = attempts;
                last_error = some (of_exception e);
                next_attempt_at = some (w.retry_at (backoff p attempts));
                updated_at = w.now;
              }))
          × (s'.alerts ≡ s.alerts)
          × (s'.print_audit ≡ s.print_audit))
unfolding retry_or_dead
retry_or_dead_cases p w job j printer e s here =
    elim (Bool-cases (leb p.max_attempts (job.attempts + 1))) [
      | inl last ↦ inl (
        ground arith,
        rw last (
            row-mark_in w job.id dead
              (λ x. record x { attempts = job.attempts + 1; last_error = some (of_exception e) }) s
              (λ x. refl)
            ∙ rw here refl),
        rw last refl,
        rw last refl,
      )
      | inr more ↦ inr (
        ground arith,
        rw more (
            row-mark_in w job.id queued
              (λ x. record x {
                attempts = job.attempts + 1;
                last_error = some (of_exception e);
                next_attempt_at = some (w.retry_at (backoff p (job.attempts + 1)));
              })
              s (λ x. refl)
            ∙ rw here refl),
        rw more refl,
        rw more refl,
      )
    ]
