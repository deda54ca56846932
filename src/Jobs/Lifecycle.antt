-- ===== src/Jobs/Lifecycle.antt =====
-- `claim`, `mark` and the admin operations: what they do to the row they name and to all others.
use mathlib.Core.Option.{map as map_option}
use text.Mathlib.TextPositions.{eq_refl}
use vibe_printer.Prelude.{
  ◌≡◌, inl, inr, refl, Bool, true, false, String, none, some, str_eq, eq_iff, if◌then◌else◌, arith,
  Bool-cases,
}
use vibe_printer.Prelude.Texts.{Text}
use vibe_printer.Errors.{ok, raise, not_found, conflict}
use vibe_printer.Models.{JobStatus, queued, rendering}
use vibe_printer.JobTable.{Job, select_job}
use vibe_printer.JobTable.Laws.{select-update_job}
use vibe_printer.Jobs.{
  JobStore, is_queued, set_rendering, claim, set_status, mark, admin_mark, requeue, may_requeue,
  reset_fields, reached, is_due,
}

module _ (i : String) (now : Text) where
  id-set_rendering : (j : Job) → (set_rendering now j).id ≡ j.id
  unfolding set_rendering
  id-set_rendering j = ground arith

  pub select-claim :
      (k : String) (s : JobStore)
      → select_job k (claim i now s).1.jobs ≡ (
          if str_eq i k
          then map_option (set_rendering now) (select_job k s.jobs)
          else select_job k s.jobs)
  unfolding claim
  select-claim k s = select-update_job i (set_rendering now) id-set_rendering k s.jobs

module _ (i : String) (now : Text) where
  pub select-mark :
      (status : JobStatus) (fields : Job → Job) (k : String) (s : JobStore)
      → ((j : Job) → (fields j).id ≡ j.id)
      → select_job k (mark i now status fields s).jobs ≡ (
          if str_eq i k
          then map_option (set_status status now fields) (select_job k s.jobs)
          else select_job k s.jobs)
  unfolding mark
  select-mark status fields k s same =
      select-update_job i (set_status status now fields) same k s.jobs

  -- A claim succeeds exactly on a queued row, which is then rendering with its other columns kept,
  -- and otherwise the row stays as it was; rows of other ids are untouched either way.
  pub claim_cases :
      (s : JobStore) (j : Job) (k : String)
      → select_job i s.jobs ≡ some j
      → let (claimed, s') = claim i now s in
        (claimed ≡ is_queued j.status)
        × (select_job k s'.jobs ≡ (
            if str_eq i k
            then some (
                if is_queued j.status then record j { status = rendering; updated_at = now } else j)
            else select_job k s.jobs))
        × (s'.idempotency ≡ s.idempotency)
  unfolding claim set_rendering
  claim_cases s j k h = (
    ground arith,
    rw (select-claim i now k s) (unfold set_rendering in ground (arith, eq_iff i k)),
    refl,
  )

  claim_again :
      (later : Text) (s : JobStore) (k : String)
      → (claim i now s).0 ≡ true
      → select_job k (claim i later (claim i now s).1).1.jobs ≡ select_job k (claim i now s).1.jobs
  claim_again later s k h = rw (select-claim i later k (claim i now s).1) (
      unfold claim in
      ground (arith, select-claim i now i s, select-claim i now k s, eq_iff i k, eq_refl i))

  -- A job is claimed once: whoever claims it again, at whatever time, gets False and changes no row.
  pub claim_once :
      (later : Text) (s : JobStore) (k : String)
      → (claim i now s).0 ≡ true
      → let s' = (claim i now s).1 in
        ((claim i later s').0 ≡ false)
        × (select_job k (claim i later s').1.jobs ≡ select_job k s'.jobs)
  unfolding claim
  claim_once later s k h =
      let s' = (claim i now s).1 in
      (ground (arith, select-claim i now i s, eq_refl i), claim_again later s k h)

-- The shape of `cancel`, `requeue` and `resolve`: a missing job is a 404 and a job in a state that is
-- not allowed a conflict, and neither writes. Otherwise the row is marked and returned, and the rows
-- of other ids stay.
module _ (allowed : JobStatus → Bool) (i : String) (now : Text) (status : JobStatus)
    (fields : Job → Job) (same : (j : Job) → (fields j).id ≡ j.id) (s : JobStore) where
  pub admin_mark_missing :
      select_job i s.jobs ≡ none → admin_mark allowed i now status fields s ≡ (raise not_found, s)
  unfolding admin_mark
  admin_mark_missing h = ground arith

  pub admin_mark_refused :
      (j : Job)
      → select_job i s.jobs ≡ some j
      → allowed j.status ≡ false
      → admin_mark allowed i now status fields s ≡ (raise conflict, s)
  unfolding admin_mark
  admin_mark_refused j h no_entry = ground arith

  pub admin_mark_done :
      (j : Job) (k : String)
      → select_job i s.jobs ≡ some j
      → allowed j.status ≡ true
      → let (result, s') = admin_mark allowed i now status fields s in
        (result ≡ ok (set_status status now fields j))
        × (select_job k s'.jobs
            ≡ (if str_eq i k then some (set_status status now fields j) else select_job k s.jobs))
  unfolding admin_mark
  admin_mark_done j k h allow = ground (
    arith,
    select-mark i now status fields i s same,
    select-mark i now status fields k s same,
    eq_iff i k,
    eq_refl i,
  )

-- A job that was failed, dead, uncertain or canceled and is requeued is queued with no attempts and no
-- backoff, so it is due at once unless it is scheduled for later.
pub requeue_due :
    (i : String) (now later : Text) (s : JobStore) (j r : Job)
    → select_job i s.jobs ≡ some j
    → (requeue i now s).0 ≡ ok r
    → (select_job i (requeue i now s).1.jobs ≡ some r)
      × (r.attempts ≡ 0)
      × (is_due later r ≡ reached later j.scheduled_at)
      × (may_requeue j.status ≡ true)
unfolding requeue
requeue_due i now later s j r h e = elim (Bool-cases (may_requeue j.status)) [
  | inl allow ↦
      let (result, row) =
        admin_mark_done may_requeue i now queued reset_fields (λ x. refl) s j i h allow in
      (ground (arith, eq_refl i), ground arith, unfold is_due in ground arith, allow)
  | inr refuse ↦
      cc (admin_mark_refused may_requeue i now queued reset_fields (λ x. refl) s j h refuse)
]
