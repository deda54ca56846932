-- ===== src/Worker/Attempts.antt =====
-- How many runs of the worker a job is given.
use mathlib.Core.Option.{map as map_option}
use native.Mathlib.Nat.{mul-add}
use vibe_printer.Prelude.{
  ℕ, suc, ◌+◌, ◌-◌, ◌*◌, ◌≤◌, ◌≡◌, refl, Bool, true, false, not, String, Option, none, some, List,
  [], ◌∷◌, str_eq, eq_iff, if◌then◌else◌, arith, Bool-cases, inl, inr, sym, Option-cases, max,
}
use vibe_printer.Prelude.Texts.{Text}
use vibe_printer.Models.{JobStatus, queued, done, failed, canceled}
use vibe_printer.JobTable.{Job, StoredPayload, select_job}
use vibe_printer.JobTable.Laws.{select_job-append}
use vibe_printer.Jobs.{
  JobStore, EnqueueArgs, new_job, enqueue, is_active, claim, cancel, requeue, resolve, admin_mark,
  may_cancel, may_requeue, is_uncertain, set_status, set_rendering, no_fields, reset_fields,
  is_queued, ready,
}
use vibe_printer.Jobs.Backpressure.{enqueue_cases}
use vibe_printer.Jobs.Lifecycle.{
  select-claim, admin_mark_missing, admin_mark_refused, admin_mark_done,
}
use vibe_printer.Jobs.Retention.{prune, is_expired, redact, redact_payload}
use vibe_printer.Registry.Config.{Registry}
use vibe_printer.Worker.{WorkerSettings, World, guarded}
use vibe_printer.Worker.Outcomes.{row, select-redaction, guarded-Keeps}
use vibe_printer.Worker.Ends.{Ended, is_closed, guarded-Ended}
use vibe_printer.Worker.Interrupted.{interrupted_cases}
use vibe_printer.Worker.Keys.{copies, select_job-keep}
use vibe_printer.Worker.System.{
  System, has, start_one, start_all, poll, settle, Action, submit, cancel_job, requeue_job,
  resolve_job, erase, prune_jobs, configure, poll_jobs, settle_job, restart, step,
}
use vibe_printer.Worker.StoreSteps.{renders}
use vibe_printer.Worker.AtMostOnce.{printed, launch, launches, Sound, step-Sound, started}

-- 1 for a run of the worker that an action ends for a job.
unfoldable pub ran : String → Action → System → ℕ
unfolding has
ran k (settle_job i w) s = if str_eq i k then (if has i s.inflight then 1 else 0) else 0
ran k _ s = 0

unfoldable pub runs : WorkerSettings → String → List Action → System → ℕ
unfolding ran
runs p k [] s = 0
runs p k (a ∷ actions) s = ran k a s + runs p k actions (step p a s)

-- The runs that a job may be given from one entry into the queue: one at least.
abbrev pub limit : WorkerSettings → ℕ
limit p = max 1 p.max_attempts

-- The runs that are left to a row.
abbrev weight : WorkerSettings → Option Job → ℕ
weight p none = 0
weight p (some j) = if is_active j.status then max 1 (limit p - j.attempts) else 0

weight-erased :
    (p : WorkerSettings) (sha256 : StoredPayload → String) (text_length : StoredPayload → ℕ)
    (own : Bool) (o : Option Job)
    → weight p (if own then map_option (redact sha256 text_length) o else o) ≤ weight p o
unfolding redact
weight-erased p sha256 text_length false o = omega arith
weight-erased p sha256 text_length true none = omega arith
weight-erased p sha256 text_length true (some j) = omega arith

module _ (p : WorkerSettings) (k : String) (st : JobStore) where
  abbrev left : JobStore → ℕ
  left st' = weight p (select_job k st'.jobs)

  left-enqueue :
      (i : String) (c u : Text) (a : EnqueueArgs)
      → left (enqueue i c u a st).1 ≤ left st + (if str_eq i k then limit p else 0)
  unfolding is_active
  left-enqueue i c u a = elim (enqueue_cases i c u a st) [
    | inl ((h, h', fresh), e) ↦
        rw (e, select_job-append k st.jobs (new_job i c u a)) (ground (arith, eq_iff i k))
    | inr (inl (h, e)) ↦ rw e (omega arith)
    | inr (inr (h, e)) ↦ rw e (omega arith)
  ]

  left-admin_mark :
      (allowed : JobStatus → Bool) (i : String) (now : Text) (status : JobStatus)
      (fields : Job → Job) (most : ℕ)
      → ((j : Job) → (fields j).id ≡ j.id)
      → ((j : Job) → weight p (some (set_status status now fields j)) ≤ most)
      → left (admin_mark allowed i now status fields st).1
        ≤ left st + (if str_eq i k then most else 0)
  left-admin_mark allowed i now status fields most same within =
      elim (Option-cases (select_job i st.jobs)) [
        | inl absent ↦
            rw (admin_mark_missing allowed i now status fields same st absent) (omega arith)
        | inr (j, present) ↦ elim (Bool-cases (allowed j.status)) [
          | inr refuse ↦
              rw (admin_mark_refused allowed i now status fields same st j present refuse)
                (omega arith)
          | inl allow ↦
              let (result, at) =
                admin_mark_done allowed i now status fields same st j k present allow in
              let bound = within j in
              elim (Bool-cases (str_eq i k)) [
                | inl own ↦ rw (at, own) (omega (arith, bound))
                | inr other ↦ rw (at, other) (omega arith)
              ]
        ]
      ]

  left-claim : (i : String) (now : Text) → left (claim i now st).1 ≤ left st
  unfolding is_active set_rendering is_queued
  left-claim i now = rw (select-claim i now k st) (ground arith)

  left-erase :
      (i : String) (sha256 : StoredPayload → String) (text_length : StoredPayload → ℕ)
      → left (redact_payload sha256 text_length i st).1 ≤ left st
  left-erase i sha256 text_length =
      rw (select-redaction sha256 text_length i k st)
        (weight-erased p sha256 text_length (str_eq i k) (select_job k st.jobs))

  left-prune :
      copies k st.jobs ≤ 1 → (job_cut idem_cut : Text) → left (prune job_cut idem_cut st) ≤ left st
  unfolding prune
  left-prune one job_cut idem_cut =
      rw (select_job-keep (λ x. not (is_expired job_cut x)) k st.jobs one) (ground arith)

left-start_one :
    (p : WorkerSettings) (k i : String) (now : Text) (s : System)
    → weight p (row k (start_one now i s).worker) ≤ weight p (row k s.worker)
unfolding start_one
left-start_one p k i now s = elim (Bool-cases (has i s.inflight)) [
  | inl there ↦ rw there (omega arith)
  | inr idle ↦ elim (Bool-cases (claim i now s.worker.store).0) [
    | inl claimed ↦ rw (idle, claimed) (left-claim p k s.worker.store i now)
    | inr lost ↦ rw (idle, lost) (left-claim p k s.worker.store i now)
  ]
]

left-start_all :
    (p : WorkerSettings) (k : String) (now : Text) (js : List Job) (s : System)
    → weight p (row k (start_all now js s).worker) ≤ weight p (row k s.worker)
unfolding start_all
left-start_all p k now [] s = omega arith
left-start_all p k now (j ∷ js) s =
    let first = left-start_one p k j.id now s in
    let rest = left-start_all p k now js (start_one now j.id s) in omega (arith, first, rest)

weight-Ended :
    (p : WorkerSettings) (j : Job) (o : Option Job)
    → is_active j.status ≡ true
    → Ended p j.attempts o
    → suc (weight p o) ≤ weight p (some j)
unfolding is_active is_closed
weight-Ended p j none active h = elim h [ ]
weight-Ended p j (some r) active (inl closed) = ground arith
weight-Ended p j (some r) active (inr (again, more, below)) = ground arith

pub row-renders :
    (o : Option Job) → renders o ≡ true → (j : Job) × (o ≡ some j) × (is_active j.status ≡ true)
unfolding is_active
row-renders none h = cc
row-renders (some j) h = (j, refl, ground arith)

left-settle :
    (p : WorkerSettings) (k i : String) (w : World) (d n : ℕ) (s : System)
    → Sound k d n s
    → ran k (settle_job i w) s + weight p (row k (settle p i w s).worker)
      ≤ weight p (row k s.worker)
unfolding ran settle
left-settle p k i w d n s (one, sends, flight) = elim (Bool-cases (has i s.inflight)) [
  | inr idle ↦ ground arith
  | inl there ↦ elim (Bool-cases (str_eq i k)) [
    | inr other ↦
        let (rows, sent) = guarded-Keeps p w i k s.worker (λ e. ground (arith, eq_iff i k)) in
        rw (there, other, rows) (omega arith)
    | inl own ↦
        let e : i ≡ k = ground (arith, eq_iff i k) in
        let (j, here, active) = row-renders (row k s.worker) (flight (rw (sym e) there)) in
        let bound =
          weight-Ended p j (row k (guarded p w k s.worker)) active
            (guarded-Ended p w k s.worker j here) in
        rw (own, there, here, e) (omega (arith, bound))
  ]
]

-- The runs of one action, and what is left after it.
left-step :
    (p : WorkerSettings) (k : String) (a : Action) (d n : ℕ) (s : System)
    → Sound k d n s
    → ran k a s + weight p (row k (step p a s).worker)
      ≤ weight p (row k s.worker) + limit p * launch k a
unfolding ran step launch
left-step p k (submit i c u a) d n s sound = ground (arith, left-enqueue p k s.worker.store i c u a)
left-step p k (cancel_job i now) d n s sound =
    unfold cancel in
    ground (
      arith,
      left-admin_mark p k s.worker.store may_cancel i now canceled no_fields 0 (λ j. refl)
          (λ j. unfold is_active in omega arith),
    )
left-step p k (requeue_job i now) d n s sound =
    unfold requeue in
    ground (
      arith,
      left-admin_mark p k s.worker.store may_requeue i now queued reset_fields (limit p) (λ j. refl)
          (λ j. unfold is_active in omega arith),
    )
left-step p k (resolve_job i now outcome) d n s sound =
    unfold resolve in
    ground (
      arith,
      left-admin_mark p k s.worker.store is_uncertain i now
          (if str_eq outcome "done" then done else failed) no_fields 0 (λ j. refl)
          (λ j. unfold is_active in ground arith),
    )
left-step p k (erase i sha256 text_length) d n s sound =
    let bound = left-erase p k s.worker.store i sha256 text_length in omega (arith, bound)
left-step p k (prune_jobs job_cut idem_cut) d n s sound =
    let bound = left-prune p k s.worker.store sound.0 job_cut idem_cut in omega (arith, bound)
left-step p k (configure c) d n s sound = omega arith
left-step p k (poll_jobs now) d n s sound =
    unfold poll in
    (let bound = left-start_all p k now (ready now s.worker.store) s in omega (arith, bound))
left-step p k (settle_job i w) d n s sound =
    let bound = left-settle p k i w d n s sound in omega (arith, bound)
left-step p k (restart now ks) d n s (one, sends, flight) =
    elim (interrupted_cases now ks k s.inflight s.worker.store) [
      | inl same ↦ rw same (omega arith)
      | inr (there, at) ↦
          let (j, here, active) = row-renders (row k s.worker) (flight there) in
          rw (at, here) (unfold is_active in ground (arith, active))
    ]

runs-left :
    (p : WorkerSettings) (k : String) (actions : List Action) (d n : ℕ) (s : System)
    → Sound k d n s
    → runs p k actions s ≤ weight p (row k s.worker) + limit p * launches k actions
unfolding runs launches
runs-left p k [] d n s sound = omega arith
runs-left p k (a ∷ actions) d n s sound =
    let first = left-step p k a d n s sound in
    let rest =
      runs-left p k actions (d + printed k a s) (n + launch k a) (step p a s)
        (step-Sound p k d n a s sound) in
    omega (arith, first, rest, mul-add (limit p) (launch k a) (launches k actions))

-- Retries end: over any list of actions on a system that started with empty tables, whatever the
-- devices, the renderings and the restarts do, a job is given at most `max_attempts` runs of the
-- worker (and one at least) for each time that it was submitted or requeued.
pub runs_bounded :
    (p : WorkerSettings) (g : Registry) (actions : List Action) (k : String)
    → runs p k actions (started g) ≤ limit p * launches k actions
runs_bounded p g actions k =
    let bound =
      runs-left p k actions 0 0 (started g)
        (omega arith, unfold select_job in omega arith, λ h. unfold has in cc) in
    unfold select_job in omega (arith, bound)
