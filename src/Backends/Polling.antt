-- ===== src/Backends/Polling.antt =====
-- The loop that polls a CUPS job: that it ends, what its end says, and how long it takes.
use vibe_printer.Prelude.{
  ℕ, zero, suc, ◌+◌, ◌*◌, ◌≤◌, ◌<◌, ◌≡◌, refl, sym, ◌∙◌, ◌⊎◌, Option, some, arith, ltb, Bool-cases,
  inl, inr,
}
use vibe_printer.Errors.{Result, ok, err}
use vibe_printer.Worker.{SendOutcome, mid_send_error}
use vibe_printer.Backends.Cups.{
  JobState, completed, canceled, aborted, pending, Spooler, PollEnd, confirmed, unconfirmed,
  refused, crashed, poll_round, poll, poll_job, poll_timeout,
}
use vibe_printer.Backends.Dispatch.{send_within}

-- What the end of the loop in round k says of the job and of the clock.
abbrev pub Says : Spooler → (job deadline : ℕ) → PollEnd → (k : ℕ) → Type 0
Says s job deadline confirmed k = (s.job_state job k ≡ ok completed) × (s.clock (suc k) < deadline)
Says s job deadline unconfirmed k = deadline ≤ s.clock (suc k)
Says s job deadline refused k =
    ((s.job_state job k ≡ ok canceled) ⊎ (s.job_state job k ≡ ok aborted))
    × (s.clock (suc k) < deadline)
Says s job deadline (crashed e) k = (s.job_state job k ≡ err e) × (s.clock (suc k) < deadline)

-- The n rounds from k on saw the job pending.
abbrev pub Waited : Spooler → (job n k : ℕ) → Type 0
Waited s job zero k = Unit
Waited s job (suc n) k = (s.job_state job k ≡ ok pending) × Waited s job n (suc k)

-- A run of the loop from round k: its end, after n rounds that waited, at most as many as there may be.
abbrev Run : Spooler → (job deadline most k : ℕ) → Option (PollEnd × ℕ) → Type 0
Run s job deadline most k result =
    (e : PollEnd) × (n : ℕ) × (result ≡ some (e, k + n))
    × (n ≤ most)
    × Says s job deadline e (k + n)
    × Waited s job n k

module _ (s : Spooler) (job deadline : ℕ) where
  Run-now :
      (most k : ℕ) (e : PollEnd) (result : Option (PollEnd × ℕ))
      → result ≡ some (e, k)
      → Says s job deadline e k
      → Run s job deadline most k result
  Run-now most k e result ended says =
      let same : k + 0 ≡ k = omega arith in (e, 0, rw same ended, omega arith, rw same says, tt)

  Run-step :
      (most k : ℕ) (result : Option (PollEnd × ℕ))
      → s.job_state job k ≡ ok pending
      → Run s job deadline most (suc k) result
      → Run s job deadline (suc most) k result
  Run-step most k result now (e, n, ended, few, says, waited) =
      let same : k + suc n ≡ suc k + n = omega arith in
      (e, suc n, rw same ended, omega arith, rw same says, (now, waited))

  round-Run :
      (fuel k : ℕ) (r : Result JobState) (rest : Option (PollEnd × ℕ))
      → s.job_state job k ≡ r
      → s.clock (suc k) < deadline
      → Run s job deadline fuel (suc k) rest
      → Run s job deadline (suc fuel) k (poll_round r rest k)
  unfolding poll_round
  round-Run fuel k (err e) rest now before later =
      Run-now (suc fuel) k (crashed e) _ refl (now, before)
  round-Run fuel k (ok completed) rest now before later =
      Run-now (suc fuel) k confirmed _ refl (now, before)
  round-Run fuel k (ok canceled) rest now before later =
      Run-now (suc fuel) k refused _ refl (inl now, before)
  round-Run fuel k (ok aborted) rest now before later =
      Run-now (suc fuel) k refused _ refl (inr now, before)
  round-Run fuel k (ok pending) rest now before later = Run-step fuel k rest now later

  poll-Run :
      (fuel k : ℕ) (ticks : (i : ℕ) → s.clock (suc i) + 500 ≤ s.clock (suc (suc i)))
      → deadline ≤ s.clock (suc k) + 500 * fuel
      → Run s job deadline fuel k (poll s job deadline (suc fuel) k)
  unfolding poll
  poll-Run zero k ticks enough = elim (Bool-cases (ltb (s.clock (suc k)) deadline)) [
    | inl before ↦ absurd (ground arith)
    | inr late ↦ rw late (Run-now 0 k unconfirmed _ refl (ground arith))
  ]
  poll-Run (suc fuel) k ticks enough = elim (Bool-cases (ltb (s.clock (suc k)) deadline)) [
    | inl before ↦ rw before (
        round-Run fuel k (s.job_state job k) _ refl (ground arith)
          (poll-Run fuel (suc k) ticks (omega (arith, ticks k))))
    | inr late ↦ rw late (Run-now (suc fuel) k unconfirmed _ refl (ground arith))
  ]

-- With a clock that gains half a second at each sleep the loop on a CUPS job ends, after at most 120
-- rounds that saw the job pending: confirmed or failed by what the next round sees before the deadline,
-- or unconfirmed, and then the deadline has passed.
pub poll_job-Run :
    (s : Spooler) (job : ℕ)
    → s.clock 0 ≤ s.clock 1
    → ((i : ℕ) → s.clock (suc i) + 500 ≤ s.clock (suc (suc i)))
    → (e : PollEnd) × (n : ℕ) × (poll_job s job ≡ some (e, n))
      × (n ≤ 120)
      × Says s job (s.clock 0 + poll_timeout) e n
      × Waited s job n 0
unfolding poll_job
poll_job-Run s job start ticks =
    let (e, n, ended, few, says, waited) =
      poll-Run s job (s.clock 0 + poll_timeout) 120 0 ticks (omega arith) in
    let same : 0 + n ≡ n = omega arith in (e, n, rw same at ended, few, rw same at says, waited)

late_of :
    (s : Spooler) (job deadline k : ℕ) (e : PollEnd) (n : ℕ)
    → ◌≡◌ {A = Option (PollEnd × ℕ)} (some (unconfirmed, k)) (some (e, n))
    → Says s job deadline e n
    → deadline ≤ s.clock (suc k)
late_of s job deadline k unconfirmed n same says = let at_n : k ≡ n = cc in rw at_n says
late_of s job deadline k _ n same says = absurd (cc)

-- Where `_send` waits no longer than the loop may take, a send whose loop ended unconfirmed is a
-- MidSendError, whatever it returned.
pub unconfirmed_times_out :
    (s : Spooler) (job k limit elapsed : ℕ) (o : SendOutcome)
    → limit ≤ poll_timeout
    → s.clock 0 ≤ s.clock 1
    → ((i : ℕ) → s.clock (suc i) + 500 ≤ s.clock (suc (suc i)))
    → poll_job s job ≡ some (unconfirmed, k)
    → s.clock (suc k) ≤ s.clock 0 + elapsed
    → send_within limit elapsed o ≡ mid_send_error "send timed out"
unfolding send_within
unconfirmed_times_out s job k limit elapsed o short start ticks ended lasted =
    let (e, n, found, _, says, _) = poll_job-Run s job start ticks in
    let late = late_of s job (s.clock 0 + poll_timeout) k e n (sym ended ∙ found) says in
    ground arith
