-- ===== src/Worker/Stranded.antt =====
-- What a restart leaves behind: the rows of the jobs that were in flight when the process ended.
use vibe_printer.Prelude.{
  ◌≤◌, ◌≡◌, refl, Bool, true, false, not, String, some, List, [], ◌∷◌, str_eq, eq_iff,
  if◌then◌else◌, arith, Bool-cases, inl, inr, ◌∙◌, Option-cases,
}
use vibe_printer.Prelude.Texts.{Text}
use vibe_printer.Models.{JobStatus, queued, rendering, printing, done, failed, canceled}
use vibe_printer.JobTable.{Job, StoredPayload, redacted, select_job}
use vibe_printer.Jobs.{
  JobStore, EnqueueArgs, new_job, enqueue, claim, cancel, requeue, resolve, admin_mark, may_cancel,
  may_requeue, is_uncertain, set_rendering, no_fields, reset_fields, is_queued, ready, is_prunable,
}
use vibe_printer.Jobs.Backpressure.{enqueue_cases}
use vibe_printer.Jobs.Lifecycle.{
  select-claim, admin_mark_missing, admin_mark_refused, admin_mark_done,
}
use vibe_printer.Jobs.Retention.{prune, is_expired, redact}
use vibe_printer.Worker.{WorkerSettings, World}
use vibe_printer.Worker.Outcomes.{row, select-redaction, guarded-Keeps}
use vibe_printer.Worker.Keys.{copies, copies-guarded}
use vibe_printer.Worker.System.{
  System, has, pop, start_one, start_all, poll, settle, Action, submit, cancel_job, requeue_job,
  resolve_job, erase, prune_jobs, configure, poll_jobs, settle_job, restart, step, run,
}
use vibe_printer.Worker.Interrupted.{copies-interrupted, interrupted_cases}
use vibe_printer.Worker.StoreSteps.{
  enqueue-Fine, cancel-Fine, requeue-Fine, resolve-Fine, erase-Fine, prune-Fine, claim-Fine,
}
use vibe_printer.JobTable.Laws.{select_job-append}
use vibe_printer.Worker.Keys.{select_job-keep}

-- The states of a job that some task is at work on.
unfoldable pub is_busy : JobStatus → Bool
is_busy rendering = true
is_busy printing = true
is_busy _ = false

module _ (k : String) (j : Job) (busy : is_busy j.status ≡ true) where
  module _ (st : JobStore) (here : select_job k st.jobs ≡ some j) where
    -- An admin operation that is not allowed on a busy row.
    refused :
        (allowed : JobStatus → Bool) (i : String) (now : Text) (status : JobStatus)
        (fields : Job → Job)
        → ((x : Job) → (fields x).id ≡ x.id)
        → allowed j.status ≡ false
        → select_job k (admin_mark allowed i now status fields st).1.jobs ≡ some j
    refused allowed i now status fields same closed = elim (Option-cases (select_job i st.jobs)) [
      | inl absent ↦ rw (admin_mark_missing allowed i now status fields same st absent) here
      | inr (x, present) ↦ elim (Bool-cases (allowed x.status)) [
        | inr no_entry ↦
            rw (admin_mark_refused allowed i now status fields same st x present no_entry) here
        | inl allow ↦ ground (
          arith,
          eq_iff i k,
          admin_mark_done allowed i now status fields same st x k present allow,
        )
      ]
    ]

    row-cancel : (i : String) (now : Text) → select_job k (cancel i now st).1.jobs ≡ some j
    unfolding cancel is_busy may_cancel
    row-cancel i now = refused may_cancel i now canceled no_fields (λ x. refl) (ground arith)

    row-requeue : (i : String) (now : Text) → select_job k (requeue i now st).1.jobs ≡ some j
    unfolding requeue is_busy may_requeue
    row-requeue i now = refused may_requeue i now queued reset_fields (λ x. refl) (ground arith)

    row-resolve :
        (i : String) (now : Text) (outcome : String)
        → select_job k (resolve i now outcome st).1.jobs ≡ some j
    unfolding resolve is_busy is_uncertain
    row-resolve i now outcome =
        refused is_uncertain i now (if str_eq outcome "done" then done else failed) no_fields
          (λ x. refl) (ground arith)

    row-enqueue :
        (i : String) (c u : Text) (a : EnqueueArgs)
        → select_job k (enqueue i c u a st).1.jobs ≡ some j
    row-enqueue i c u a = elim (enqueue_cases i c u a st) [
      | inl (h, e) ↦ rw (e, select_job-append k st.jobs (new_job i c u a)) (ground arith)
      | inr (inl (h, e)) ↦ rw e here
      | inr (inr (h, e)) ↦ rw e here
    ]

    row-prune :
        copies k st.jobs ≤ 1
        → (job_cut idem_cut : Text) → select_job k (prune job_cut idem_cut st).jobs ≡ some j
    unfolding prune
    row-prune one job_cut idem_cut =
        rw (select_job-keep (λ x. not (is_expired job_cut x)) k st.jobs one)
          (unfold is_expired is_prunable is_busy in ground arith)

    row-claim : (i : String) (now : Text) → select_job k (claim i now st).1.jobs ≡ some j
    row-claim i now =
        rw (select-claim i now k st) (unfold set_rendering is_queued is_busy in ground arith)

  -- The job has one row, which is busy, and no task is at work on it.
  abbrev Stranded : System → Type 0
  Stranded s =
      (copies k s.worker.store.jobs ≤ 1) × (row k s.worker ≡ some j) × (has k s.inflight ≡ false)

  -- A claim of the busy row fails.
  claim_busy :
      (st : JobStore) (now : Text) → select_job k st.jobs ≡ some j → (claim k now st).0 ≡ false
  unfolding claim is_queued is_busy
  claim_busy st now here = ground arith

  start_one-Stranded :
      (i : String) (now : Text) (s : System) → Stranded s → Stranded (start_one now i s)
  unfolding start_one
  start_one-Stranded i now s (one, here, idle) =
      let (one', sends, kept) = claim-Fine k s.worker.store one i now in
      let here' = row-claim s.worker.store here i now in
      elim (Bool-cases (has i s.inflight)) [
        | inl there ↦ rw there (one, here, idle)
        | inr free ↦ elim (Bool-cases (claim i now s.worker.store).0) [
          | inl claimed ↦
              rw (free, claimed)
                (
                  one',
                  here',
                  unfold has in ground (arith, eq_iff i k, claim_busy s.worker.store now here),
                )
          | inr lost ↦ rw (free, lost) (one', here', idle)
        ]
      ]

  start_all-Stranded :
      (now : Text) (js : List Job) (s : System) → Stranded s → Stranded (start_all now js s)
  unfolding start_all
  start_all-Stranded now [] s h = h
  start_all-Stranded now (x ∷ js) s h =
      start_all-Stranded now js (start_one now x.id s) (start_one-Stranded x.id now s h)

  has-pop_other : (i : String) (ks : List String) → has k ks ≡ false → has k (pop i ks) ≡ false
  unfolding has pop
  has-pop_other i [] h = refl
  has-pop_other i (x ∷ ks) h = ground (arith, has-pop_other i ks)

  settle-Stranded :
      (p : WorkerSettings) (i : String) (w : World) (s : System)
      → Stranded s
      → Stranded (settle p i w s)
  unfolding settle
  settle-Stranded p i w s (one, here, idle) = elim (Bool-cases (has i s.inflight)) [
    | inr free ↦ rw free (one, here, idle)
    | inl there ↦
        let (rows, sent) = guarded-Keeps p w i k s.worker (λ e. ground arith) in
        rw there
          (rw (copies-guarded p w i k s.worker) one, rows ∙ here, has-pop_other i s.inflight idle)
  ]

-- One action leaves the row as it was, or with another payload.
step-Stranded :
    (k : String) (j : Job) (busy : is_busy j.status ≡ true) (p : WorkerSettings) (a : Action)
    (s : System)
    → Stranded k j busy s
    → (v : StoredPayload) × Stranded k (record j { payload_json = v }) busy (step p a s)
unfolding step
step-Stranded k j busy p (submit i c u a) s (one, here, idle) = (
  j.payload_json,
  (
    (enqueue-Fine k s.worker.store one i c u a).0,
    row-enqueue k j busy s.worker.store here i c u a,
    idle,
  ),
)
step-Stranded k j busy p (cancel_job i now) s (one, here, idle) = (
  j.payload_json,
  ((cancel-Fine k s.worker.store one i now).0, row-cancel k j busy s.worker.store here i now, idle),
)
step-Stranded k j busy p (requeue_job i now) s (one, here, idle) = (
  j.payload_json,
  (
    (requeue-Fine k s.worker.store one i now).0,
    row-requeue k j busy s.worker.store here i now,
    idle,
  ),
)
step-Stranded k j busy p (resolve_job i now outcome) s (one, here, idle) = (
  j.payload_json,
  (
    (resolve-Fine k s.worker.store one i now outcome).0,
    row-resolve k j busy s.worker.store here i now outcome,
    idle,
  ),
)
step-Stranded k j busy p (erase i sha256 text_length) s (one, here, idle) =
    let fine = (erase-Fine k s.worker.store one i sha256 text_length).0 in
    let at = select-redaction sha256 text_length i k s.worker.store in
    elim (Bool-cases (str_eq i k)) [
      | inr other ↦ (j.payload_json, (fine, at ∙ rw other here, idle))
      | inl own ↦ (
        redacted (sha256 j.payload_json) (text_length j.payload_json),
        (fine, at ∙ rw (own, here) (unfold redact in refl), idle),
      )
    ]
step-Stranded k j busy p (prune_jobs job_cut idem_cut) s (one, here, idle) = (
  j.payload_json,
  (
    (prune-Fine k s.worker.store one job_cut idem_cut).0,
    row-prune k j busy s.worker.store here one job_cut idem_cut,
    idle,
  ),
)
step-Stranded k j busy p (configure c) s h = (j.payload_json, h)
step-Stranded k j busy p (poll_jobs now) s h =
    (j.payload_json, unfold poll in start_all-Stranded k j busy now (ready now s.worker.store) s h)
step-Stranded k j busy p (settle_job i w) s h = (j.payload_json, settle-Stranded k j busy p i w s h)
step-Stranded k j busy p (restart now ks) s (one, here, idle) = (
  j.payload_json,
  (
    rw (copies-interrupted now ks k s.inflight s.worker.store) one,
    elim (interrupted_cases now ks k s.inflight s.worker.store) [
      | inl same ↦ same ∙ here
      | inr (there, at) ↦ absurd (ground arith)
    ],
    unfold has in refl,
  ),
)

run-Stranded :
    (k : String) (j : Job) (busy : is_busy j.status ≡ true) (p : WorkerSettings)
    (actions : List Action) (s : System)
    → Stranded k j busy s
    → (v : StoredPayload) × (row k (run p actions s).worker ≡ some (record j { payload_json = v }))
unfolding run
run-Stranded k j busy p [] s (one, here, idle) = (j.payload_json, here)
run-Stranded k j busy p (a ∷ actions) s h =
    let (v, next) = step-Stranded k j busy p a s h in
    run-Stranded k (record j { payload_json = v }) busy p actions (step p a s) next

-- A job whose row is rendering or printing after the process has restarted keeps its row, its status above
-- all, for good: whatever list of later actions follows, be it calls of others, prunes, polls, runs of the
-- worker or more restarts, the row is there and every column but the payload is as it was. (The payload
-- can be erased on demand in any state. The id has one row, as the primary key demands.)
pub stranded_after_restart :
    (p : WorkerSettings) (actions : List Action) (s : System) (k : String) (j : Job) (now : Text)
    (printing_jobs : List String)
    → copies k (step p (restart now printing_jobs) s).worker.store.jobs ≤ 1
    → row k (step p (restart now printing_jobs) s).worker ≡ some j
    → is_busy j.status ≡ true
    → (v : StoredPayload) × (row k (run p (restart now printing_jobs ∷ actions) s).worker
        ≡ some (record j { payload_json = v }))
unfolding run
stranded_after_restart p actions s k j now printing_jobs one here busy =
    run-Stranded k j busy p actions (step p (restart now printing_jobs) s)
      (one, here, unfold step has in refl)
