-- ===== src/Jobs/Backpressure.antt =====
-- `enqueue`: when it accepts a job, and what the depth caps keep.
use text.Mathlib.TextPositions.{eq_refl}
use vibe_printer.Prelude.{
  ℕ, ◌+◌, ◌≤◌, ◌<◌, ◌≡◌, ◌≢◌, String, none, some, [], ◌∷◌, ◌++◌, if◌then◌else◌, arith, Bool-cases,
  Option-cases, ◌⊎◌, inl, inr, leb, ◌==◌, ==_iff, max,
}
use vibe_printer.Prelude.Texts.{Text}
use vibe_printer.Prelude.Counting.{count_if-append}
use vibe_printer.Errors.{Result, ok, err, api, queue_full, integrity_error, api_error}
use vibe_printer.JobTable.{Job, select_job}
use vibe_printer.JobTable.Laws.{select_job-append}
use vibe_printer.Jobs.{JobStore, EnqueueArgs, new_job, enqueue, depth, printer_depth}

-- 1 for a call that returns a job.
abbrev pub accepted : Result Job → ℕ
accepted (ok j) = 1
accepted (err e) = 0

module _ (i : String) (c u : Text) (a : EnqueueArgs) (s : JobStore) where
  abbrev pub Accepts : Type 0
  Accepts =
      (depth s < a.global_max)
      × (printer_depth a.printer_id s < a.per_printer_max)
      × (select_job i s.jobs ≡ none)

  abbrev pub inserted : JobStore
  inserted = record s { jobs = s.jobs ++ new_job i c u a ∷ [] }

  pub enqueue_accepts : Accepts → enqueue i c u a s ≡ (ok (new_job i c u a), inserted)
  unfolding enqueue
  enqueue_accepts (h, k, fresh) =
      ground (arith, select_job-append i s.jobs (new_job i c u a), eq_refl i)

  enqueue_full :
      (a.global_max ≤ depth s) ⊎ (a.per_printer_max ≤ printer_depth a.printer_id s)
      → enqueue i c u a s ≡ (err (api (api_error queue_full (some 429))), s)
  unfolding enqueue
  enqueue_full h = ground arith

  enqueue_taken :
      (j : Job)
      → depth s < a.global_max
      → printer_depth a.printer_id s < a.per_printer_max
      → select_job i s.jobs ≡ some j
      → enqueue i c u a s ≡ (err integrity_error, s)
  unfolding enqueue
  enqueue_taken j h k e = ground arith

  -- `enqueue` inserts one new queued row and returns it, if the queue and the printer's share of it
  -- are below their caps and the id is new. With either cap reached it raises queue_full (429), and
  -- with a taken id IntegrityError; both leave the store as it was.
  pub enqueue_cases :
      Accepts × (enqueue i c u a s ≡ (ok (new_job i c u a), inserted))
      ⊎ ((a.global_max ≤ depth s) ⊎ (a.per_printer_max ≤ printer_depth a.printer_id s))
        × (enqueue i c u a s ≡ (err (api (api_error queue_full (some 429))), s))
      ⊎ (select_job i s.jobs ≢ none) × (enqueue i c u a s ≡ (err integrity_error, s))
  enqueue_cases = elim (Bool-cases (leb a.global_max (depth s))) [
    | inl full ↦
        let h : (a.global_max ≤ depth s) ⊎ (a.per_printer_max ≤ printer_depth a.printer_id s) =
          inl (ground arith) in
        inr (inl (h, enqueue_full h))
    | inr room ↦ elim (Bool-cases (leb a.per_printer_max (printer_depth a.printer_id s))) [
      | inl full ↦
          let h : (a.global_max ≤ depth s) ⊎ (a.per_printer_max ≤ printer_depth a.printer_id s) =
            inr (ground arith) in
          inr (inl (h, enqueue_full h))
      | inr share ↦ elim (Option-cases (select_job i s.jobs)) [
        | inl new ↦
            let h : Accepts = (ground arith, ground arith, new) in inl (h, enqueue_accepts h)
        | inr (j, taken) ↦
            inr (inr (ground arith, enqueue_taken j (ground arith) (ground arith) taken))
      ]
    ]
  ]

  depth-inserted : depth inserted ≡ depth s + 1
  unfolding depth
  depth-inserted = rw count_if-append (omega arith)

  printer_depth-inserted :
      (p : ℕ) → printer_depth p inserted ≡ printer_depth p s + (if a.printer_id == p then 1 else 0)
  unfolding printer_depth
  printer_depth-inserted p = rw count_if-append (ground arith)

  -- A call of `enqueue` that accepts the job raises the depth by exactly one, the depth of the job's own
  -- printer by exactly one, and no other printer's; a call that refuses it raises none. Whatever the
  -- outcome, a queue that was within its caps still is, for the queue as a whole and for every printer.
  pub enqueue_keeps_caps :
      (p : ℕ)
      → (depth (enqueue i c u a s).1 ≡ depth s + accepted (enqueue i c u a s).0)
        × (printer_depth p (enqueue i c u a s).1
            ≡ printer_depth p s + (if a.printer_id == p then accepted (enqueue i c u a s).0 else 0))
        × (depth (enqueue i c u a s).1 ≤ max (depth s) a.global_max)
        × (printer_depth p (enqueue i c u a s).1 ≤ (
            if a.printer_id == p
            then max (printer_depth p s) a.per_printer_max
            else printer_depth p s))
  enqueue_keeps_caps p = elim enqueue_cases [
    | inl (h, e) ↦ rw e (
      depth-inserted,
      printer_depth-inserted p,
      omega (arith, depth-inserted),
      ground (arith, printer_depth-inserted p, ==_iff a.printer_id p),
    )
    | inr (inl (h, e)) ↦ rw e (omega arith, ground arith, omega arith, ground arith)
    | inr (inr (h, e)) ↦ rw e (omega arith, ground arith, omega arith, ground arith)
  ]
