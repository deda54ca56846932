-- ===== src/Worker/StoreSteps.antt =====
-- What each operation on the store does to the one row of a job.
use mathlib.Core.Option.{map as map_option}
use vibe_printer.Errors.{Result-cases}
use vibe_printer.Prelude.{
  ℕ, ◌+◌, ◌≤◌, ◌≡◌, refl, Bool, true, false, not, String, Option, none, some, str_eq, eq_iff,
  if◌then◌else◌, arith, Bool-cases, inl, inr, Option-cases,
}
use vibe_printer.Prelude.Counting.{count_if-append}
use vibe_printer.Prelude.Texts.{Text}
use vibe_printer.Models.{JobStatus, queued, rendering, done, failed, canceled}
use vibe_printer.JobTable.{Job, StoredPayload, select_job}
use vibe_printer.JobTable.Laws.{select_job-append}
use vibe_printer.Jobs.{
  get, JobStore, EnqueueArgs, new_job, enqueue, is_active, claim, cancel, requeue, resolve,
  admin_mark, may_cancel, may_requeue, is_uncertain, set_status, set_rendering, no_fields,
  reset_fields, mark, is_queued, is_prunable,
}
use vibe_printer.Jobs.Backpressure.{enqueue_cases}
use vibe_printer.Jobs.Lifecycle.{
  select-claim, admin_mark_missing, admin_mark_refused, admin_mark_done,
}
use vibe_printer.Jobs.Retention.{prune, is_expired, redact, redact_payload}
use vibe_printer.Worker.Outcomes.{open_count, select-redaction}
use vibe_printer.Worker.Keys.{
  copies, copies-absent, select_job-keep, copies-keep, copies-update_job,
}

-- The row is there and rendering.
abbrev pub is_rendering : JobStatus → Bool
is_rendering rendering = true
is_rendering _ = false

abbrev pub renders : Option Job → Bool
renders none = false
renders (some j) = is_rendering j.status

-- What a change of the store may do to a job that is put into it at most `m` times.
abbrev pub Fine : String → ℕ → JobStore → JobStore → Type 0
Fine k m st st' =
    (copies k st'.jobs ≤ 1)
    × (open_count (select_job k st'.jobs) ≤ open_count (select_job k st.jobs) + m)
    × (renders (select_job k st.jobs) ≡ true → renders (select_job k st'.jobs) ≡ true)

module _ (sha256 : StoredPayload → String) (text_length : StoredPayload → ℕ) where
  open_count-erased :
      (own : Bool) (o : Option Job)
      → open_count (if own then map_option (redact sha256 text_length) o else o) ≤ open_count o + 0
  unfolding redact
  open_count-erased false o = omega arith
  open_count-erased true none = omega arith
  open_count-erased true (some j) = omega arith

  renders-erased :
      (own : Bool) (o : Option Job)
      → renders o ≡ true
      → renders (if own then map_option (redact sha256 text_length) o else o) ≡ true
  unfolding redact
  renders-erased false o h = h
  renders-erased true none h = h
  renders-erased true (some j) h = h

module _ (k : String) (st : JobStore) (one : copies k st.jobs ≤ 1) where
  unchanged : (m : ℕ) → Fine k m st st
  unchanged m = (one, omega arith, λ h. h)

  pub enqueue-Fine :
      (i : String) (c u : Text) (a : EnqueueArgs)
      → Fine k (if str_eq i k then 1 else 0) st (enqueue i c u a st).1
  enqueue-Fine i c u a = elim (enqueue_cases i c u a st) [
    | inl ((h, h', fresh), e) ↦
        rw (e, count_if-append, select_job-append k st.jobs (new_job i c u a))
          (
            ground (arith, eq_iff i k, copies-absent k st.jobs),
            unfold is_active in ground (arith, eq_iff i k),
            λ r. ground arith,
          )
    | inr (inl (h, e)) ↦ rw e (unchanged (if str_eq i k then 1 else 0))
    | inr (inr (h, e)) ↦ rw e (unchanged (if str_eq i k then 1 else 0))
  ]

  not_allowed :
      (allowed : JobStatus → Bool) (x : JobStatus)
      → allowed rendering ≡ false
      → is_rendering x ≡ true
      → allowed x ≡ false
  not_allowed allowed rendering closed h = closed
  not_allowed allowed _ closed h = cc

  copies-admin_mark :
      (allowed : JobStatus → Bool) (i : String) (now : Text) (status : JobStatus)
      (fields : Job → Job)
      → ((j : Job) → (fields j).id ≡ j.id)
      → copies k (admin_mark allowed i now status fields st).1.jobs ≡ copies k st.jobs
  unfolding admin_mark
  copies-admin_mark allowed i now status fields same =
      let marked : copies k (mark i now status fields st).jobs ≡ copies k st.jobs =
        unfold mark in copies-update_job i k (set_status status now fields) st.jobs same in
      ground arith

  -- A mark that is not allowed on a rendering row.
  admin_mark-Fine :
      (allowed : JobStatus → Bool) (i : String) (now : Text) (status : JobStatus)
      (fields : Job → Job)
      → ((j : Job) → (fields j).id ≡ j.id)
      → allowed rendering ≡ false
      → Fine k
          (if str_eq i k then (if is_active status then 1 else 0) else 0)
          st
          (admin_mark allowed i now status fields st).1
  admin_mark-Fine allowed i now status fields same closed =
      elim (Option-cases (select_job i st.jobs)) [
        | inl absent ↦
            rw (admin_mark_missing allowed i now status fields same st absent)
              (unchanged (if str_eq i k then (if is_active status then 1 else 0) else 0))
        | inr (j, present) ↦ elim (Bool-cases (allowed j.status)) [
          | inr refuse ↦
              rw (admin_mark_refused allowed i now status fields same st j present refuse)
                (unchanged (if str_eq i k then (if is_active status then 1 else 0) else 0))
          | inl allow ↦
              let (result, at) =
                admin_mark_done allowed i now status fields same st j k present allow in
              (
                rw (copies-admin_mark allowed i now status fields same) one,
                rw at (ground arith),
                λ h. rw at (ground (arith, eq_iff i k, not_allowed allowed j.status closed)),
              )
        ]
      ]

  weaken : (m m' : ℕ) (st' : JobStore) → m ≤ m' → Fine k m st st' → Fine k m' st st'
  weaken m m' st' h (one', sends, kept) = (one', omega (arith, sends), kept)

  pub cancel-Fine : (i : String) (now : Text) → Fine k 0 st (cancel i now st).1
  unfolding cancel may_cancel
  cancel-Fine i now =
      weaken (if str_eq i k then (if is_active canceled then 1 else 0) else 0) 0 (cancel i now st).1
        (unfold is_active in ground arith)
        (admin_mark-Fine may_cancel i now canceled no_fields (λ j. refl) refl)

  pub requeue-Fine :
      (i : String) (now : Text) → Fine k (if str_eq i k then 1 else 0) st (requeue i now st).1
  unfolding requeue may_requeue
  requeue-Fine i now =
      weaken (if str_eq i k then (if is_active queued then 1 else 0) else 0)
        (if str_eq i k then 1 else 0) (requeue i now st).1 (unfold is_active in ground arith)
        (admin_mark-Fine may_requeue i now queued reset_fields (λ j. refl) refl)

  pub resolve-Fine :
      (i : String) (now : Text) (outcome : String) → Fine k 0 st (resolve i now outcome st).1
  unfolding resolve is_uncertain
  resolve-Fine i now outcome =
      weaken
        (if str_eq i k
          then (if is_active (if str_eq outcome "done" then done else failed) then 1 else 0)
          else 0)
        0 (resolve i now outcome st).1 (unfold is_active in ground arith)
        (admin_mark-Fine is_uncertain i now (if str_eq outcome "done" then done else failed)
          no_fields (λ j. refl) refl)

  pub erase-Fine :
      (i : String) (sha256 : StoredPayload → String) (text_length : StoredPayload → ℕ)
      → Fine k 0 st (redact_payload sha256 text_length i st).1
  erase-Fine i sha256 text_length =
      let same : (j : Job) → (redact sha256 text_length j).id ≡ j.id = λ j. unfold redact in refl in
      (
        unfold redact_payload in
            elim (Result-cases (get i st)) [
              | inr (e, absent) ↦ rw (absent, redact_payload) one
              | inl (j, present) ↦
                  rw (present, redact_payload)
                    (rw (copies-update_job i k (redact sha256 text_length) st.jobs same) one)
            ],
        rw (select-redaction sha256 text_length i k st)
            (open_count-erased sha256 text_length (str_eq i k) (select_job k st.jobs)),
        λ h.
            rw (select-redaction sha256 text_length i k st)
              (renders-erased sha256 text_length (str_eq i k) (select_job k st.jobs) h),
      )

  pub prune-Fine : (job_cut idem_cut : Text) → Fine k 0 st (prune job_cut idem_cut st)
  unfolding prune
  prune-Fine job_cut idem_cut =
      let q : Job → Bool = λ j. not (is_expired job_cut j) in
      (
        omega (arith, copies-keep q k st.jobs),
        rw (select_job-keep q k st.jobs one) (ground arith),
        λ h. rw (select_job-keep q k st.jobs one) (unfold is_expired is_prunable in ground arith),
      )

  pub claim-Fine : (i : String) (now : Text) → Fine k 0 st (claim i now st).1
  claim-Fine i now = (
    unfold claim in
        rw
          (copies-update_job i k (set_rendering now) st.jobs
            (λ j. unfold set_rendering in ground arith))
          one,
    rw (select-claim i now k st) (unfold set_rendering is_queued is_active in ground arith),
    λ h. rw (select-claim i now k st) (unfold set_rendering is_queued in ground arith),
  )
