-- ===== src/Worker/StateMachine.antt =====
-- The queue as a whole against the machine of job states.
use mathlib.Core.Option.{map as map_option}
use vibe_printer.Prelude.{
  ℕ, ◌+◌, ◌≤◌, ◌≡◌, refl, Bool, true, false, not, String, Option, none, some, List, [], ◌∷◌, str_eq,
  eq_iff, if◌then◌else◌, or_else, arith, Bool-cases, inl, inr, sym, ap, Option-cases, ◌⊎◌, ◌∙◌,
}
use vibe_printer.Prelude.Texts.{Text}
use vibe_printer.Models.{JobStatus, queued, rendering, printing, done, failed, canceled}
use vibe_printer.JobTable.{Job, StoredPayload, select_job}
use vibe_printer.JobTable.Laws.{select_job-append}
use vibe_printer.Jobs.{
  JobStore, EnqueueArgs, new_job, enqueue, claim, cancel, requeue, resolve, admin_mark, may_cancel,
  may_requeue, is_uncertain, set_rendering, set_status, no_fields, reset_fields, is_queued, ready,
  is_prunable,
}
use vibe_printer.Jobs.Backpressure.{enqueue_cases}
use vibe_printer.Jobs.Lifecycle.{
  select-claim, admin_mark_missing, admin_mark_refused, admin_mark_done,
}
use vibe_printer.Jobs.Retention.{prune, is_expired, redact, redact_payload}
use vibe_printer.Registry.Config.{Registry}
use vibe_printer.Worker.{WorkerSettings, World, guarded}
use vibe_printer.Worker.Outcomes.{row, select-redaction, guarded-Keeps}
use vibe_printer.Worker.Ends.{Ended, guarded-Ended}
use vibe_printer.Worker.Attempts.{row-renders}
use vibe_printer.Worker.Interrupted.{interrupted_cases}
use vibe_printer.Worker.Keys.{copies, select_job-keep}
use vibe_printer.Worker.System.{
  System, has, start_one, start_all, poll, settle, Action, submit, cancel_job, requeue_job,
  resolve_job, erase, prune_jobs, configure, poll_jobs, settle_job, restart, step, run,
}
use vibe_printer.Worker.StoreSteps.{renders, is_rendering}
use vibe_printer.Worker.AtMostOnce.{launches, prints, Sound, run-Sound, started}
use vibe_printer.Worker.Machine.{
  Moves, Moves-cancel, Moves-requeue, Moves-resolve_done, Moves-resolve_failed, Moves-prune,
  Moves-closed, status_of, status, stays, submitted, claimed, retried,
}

append_move :
    (o : Option Job) (own : Bool) (n : Job)
    → n.status ≡ queued
    → Moves (status_of o) (status_of (or_else o (if own then some n else none)))
append_move none true n h = rw h submitted
append_move none false n h = stays none
append_move (some j) own n h = stays (some j.status)

keep_move :
    (q : Job → Bool) (o : Option Job)
    → ((j : Job) → q j ≡ false → is_prunable j.status ≡ true)
    → Moves
        (status_of o)
        (status_of (elim o [ none ↦ none | some j ↦ if q j then some j else none ]))
keep_move q none h = stays none
keep_move q (some j) h = elim (Bool-cases (q j)) [
  | inl kept ↦ rw kept (stays (some j.status))
  | inr gone ↦ rw gone (Moves-prune j.status (h j gone))
]

queued_only : (x : JobStatus) → is_queued x ≡ true → x ≡ queued
unfolding is_queued
queued_only queued h = refl
queued_only _ h = cc

claim_move :
    (now : Text) (o : Option Job) (own : Bool)
    → (status_of (if own then map_option (set_rendering now) o else o) ≡ status_of o)
      ⊎ ((status_of o ≡ some queued)
          × (status_of (if own then map_option (set_rendering now) o else o) ≡ some rendering))
unfolding set_rendering
claim_move now o false = inl refl
claim_move now none true = inl refl
claim_move now (some j) true = elim (Bool-cases (is_queued j.status)) [
  | inl q ↦ inr (ap some (queued_only j.status q), rw (set_rendering, q) refl)
  | inr other ↦ inl (rw (set_rendering, other) refl)
]

erase_move :
    (sha256 : StoredPayload → String) (text_length : StoredPayload → ℕ) (own : Bool)
    (o : Option Job)
    → Moves (status_of o) (status_of (if own then map_option (redact sha256 text_length) o else o))
unfolding redact
erase_move sha256 text_length false o = stays (status_of o)
erase_move sha256 text_length true none = stays none
erase_move sha256 text_length true (some j) = stays (some j.status)

module _ (k : String) (st : JobStore) where
  abbrev Moved : JobStore → Type 0
  Moved st' = Moves (status_of (select_job k st.jobs)) (status_of (select_job k st'.jobs))

  unmoved : (st' : JobStore) → select_job k st'.jobs ≡ select_job k st.jobs → Moved st'
  unmoved st' same = rw same (stays (status_of (select_job k st.jobs)))

  Moved-enqueue : (i : String) (c u : Text) (a : EnqueueArgs) → Moved (enqueue i c u a st).1
  Moved-enqueue i c u a = elim (enqueue_cases i c u a st) [
    | inr (inl (h, e)) ↦ rw e (stays (status_of (select_job k st.jobs)))
    | inr (inr (h, e)) ↦ rw e (stays (status_of (select_job k st.jobs)))
    | inl (h, e) ↦
        rw (e, select_job-append k st.jobs (new_job i c u a))
          (append_move (select_job k st.jobs) (str_eq i k) (new_job i c u a) refl)
  ]

  Moved-admin_mark :
      (allowed : JobStatus → Bool) (i : String) (now : Text) (to : JobStatus) (fields : Job → Job)
      → ((j : Job) → (fields j).id ≡ j.id)
      → ((x : JobStatus) → allowed x ≡ true → Moves (some x) (some to))
      → Moved (admin_mark allowed i now to fields st).1
  Moved-admin_mark allowed i now to fields same move = elim (Option-cases (select_job i st.jobs)) [
    | inl absent ↦
        rw (admin_mark_missing allowed i now to fields same st absent)
          (stays (status_of (select_job k st.jobs)))
    | inr (j, present) ↦ elim (Bool-cases (allowed j.status)) [
      | inr refuse ↦
          rw (admin_mark_refused allowed i now to fields same st j present refuse)
            (stays (status_of (select_job k st.jobs)))
      | inl allow ↦
          let (result, at) = admin_mark_done allowed i now to fields same st j k present allow in
          elim (Bool-cases (str_eq i k)) [
            | inr other ↦ unmoved (admin_mark allowed i now to fields st).1 (at ∙ rw other refl)
            | inl own ↦
                let e : i ≡ k = ground (arith, eq_iff i k) in
                let before : select_job k st.jobs ≡ some j =
                  ap (λ n. select_job n st.jobs) (sym e) ∙ present in
                rw (at, own, before) (move j.status allow)
          ]
    ]
  ]

  Moved-resolve : (i : String) (now : Text) (outcome : String) → Moved (resolve i now outcome st).1
  unfolding resolve
  Moved-resolve i now outcome = elim (Bool-cases (str_eq outcome "done")) [
    | inl is_done ↦
        rw (resolve, is_done)
          (Moved-admin_mark is_uncertain i now done no_fields (λ j. refl) Moves-resolve_done)
    | inr is_failed ↦
        rw (resolve, is_failed)
          (Moved-admin_mark is_uncertain i now failed no_fields (λ j. refl) Moves-resolve_failed)
  ]

  Moved-erase :
      (i : String) (sha256 : StoredPayload → String) (text_length : StoredPayload → ℕ)
      → Moved (redact_payload sha256 text_length i st).1
  Moved-erase i sha256 text_length =
      rw (select-redaction sha256 text_length i k st)
        (erase_move sha256 text_length (str_eq i k) (select_job k st.jobs))

  Moved-prune : copies k st.jobs ≤ 1 → (job_cut idem_cut : Text) → Moved (prune job_cut idem_cut st)
  unfolding prune
  Moved-prune one job_cut idem_cut =
      rw (select_job-keep (λ x. not (is_expired job_cut x)) k st.jobs one) (
        keep_move (λ x. not (is_expired job_cut x)) (select_job k st.jobs)
          (λ j gone. unfold is_expired in ground arith))

rendering_only : (x : JobStatus) → is_rendering x ≡ true → x ≡ rendering
rendering_only rendering h = refl
rendering_only _ h = cc

-- A poll claims the job or leaves it.
abbrev Polled : String → System → System → Type 0
Polled k s s' =
    (status k s' ≡ status k s) ⊎ ((status k s ≡ some queued) × (status k s' ≡ some rendering))

Polled-claim :
    (k i : String) (now : Text) (st : JobStore)
    → (status_of (select_job k (claim i now st).1.jobs) ≡ status_of (select_job k st.jobs))
      ⊎ ((status_of (select_job k st.jobs) ≡ some queued)
          × (status_of (select_job k (claim i now st).1.jobs) ≡ some rendering))
Polled-claim k i now st =
    rw (select-claim i now k st) (claim_move now (select_job k st.jobs) (str_eq i k))

Polled-start_one : (k i : String) (now : Text) (s : System) → Polled k s (start_one now i s)
unfolding start_one
Polled-start_one k i now s = elim (Bool-cases (has i s.inflight)) [
  | inl there ↦ rw there (inl refl)
  | inr idle ↦ elim (Bool-cases (claim i now s.worker.store).0) [
    | inl taken ↦ rw (idle, taken) (Polled-claim k i now s.worker.store)
    | inr lost ↦ rw (idle, lost) (Polled-claim k i now s.worker.store)
  ]
]

Polled-then : (k : String) (s s' s'' : System) → Polled k s s' → Polled k s' s'' → Polled k s s''
Polled-then k s s' s'' (inl same) (inl same') = inl (same' ∙ same)
Polled-then k s s' s'' (inl same) (inr (was, is)) = inr (sym same ∙ was, is)
Polled-then k s s' s'' (inr (was, is)) (inl same') = inr (was, same' ∙ is)
Polled-then k s s' s'' (inr (was, is)) (inr (was', is')) = inr (was, is')

Polled-start_all :
    (k : String) (now : Text) (js : List Job) (s : System) → Polled k s (start_all now js s)
unfolding start_all
Polled-start_all k now [] s = inl refl
Polled-start_all k now (j ∷ js) s =
    Polled-then k s (start_one now j.id s) (start_all now js (start_one now j.id s))
      (Polled-start_one k j.id now s) (Polled-start_all k now js (start_one now j.id s))

Moves-Polled : (k : String) (s s' : System) → Polled k s s' → Moves (status k s) (status k s')
Moves-Polled k s s' (inl same) = rw same (stays (status k s))
Moves-Polled k s s' (inr (was, is)) = rw (was, is) claimed

Moves-Ended :
    (p : WorkerSettings) (attempts : ℕ) (before after : Option Job)
    → renders before ≡ true
    → Ended p attempts after
    → Moves (status_of before) (status_of after)
Moves-Ended p attempts before none h e = elim e [ ]
Moves-Ended p attempts none (some r) h e = cc
Moves-Ended p attempts (some j) (some r) h (inl closed) =
    rw (rendering_only j.status h) (Moves-closed r.status closed)
Moves-Ended p attempts (some j) (some r) h (inr (again, more, below)) =
    rw (rendering_only j.status h, again) retried

Moves-settle :
    (p : WorkerSettings) (k i : String) (w : World) (d n : ℕ) (s : System)
    → Sound k d n s
    → Moves (status k s) (status k (settle p i w s))
unfolding settle
Moves-settle p k i w d n s (one, sends, flight) = elim (Bool-cases (has i s.inflight)) [
  | inr idle ↦ rw idle (stays (status k s))
  | inl there ↦ elim (Bool-cases (str_eq i k)) [
    | inr other ↦
        let (rows, sent) = guarded-Keeps p w i k s.worker (λ e. ground (arith, eq_iff i k)) in
        rw (there, rows) (stays (status k s))
    | inl own ↦
        let e : i ≡ k = ground (arith, eq_iff i k) in
        let inside = flight (rw (sym e) there) in
        let (j, here, active) = row-renders (row k s.worker) inside in
        rw (there, e)
          (Moves-Ended p j.attempts (row k s.worker) (row k (guarded p w k s.worker)) inside
            (guarded-Ended p w k s.worker j here))
  ]
]

printing_move :
    (now : Text) (o : Option Job)
    → renders o ≡ true
    → Moves (status_of o) (status_of (map_option (set_status printing now no_fields) o))
printing_move now none h = cc
printing_move now (some j) h = rw (rendering_only j.status h) Moves.left_printing

Moves-step :
    (p : WorkerSettings) (k : String) (a : Action) (d n : ℕ) (s : System)
    → Sound k d n s
    → Moves (status k s) (status k (step p a s))
unfolding step
Moves-step p k (submit i c u a) d n s sound = Moved-enqueue k s.worker.store i c u a
Moves-step p k (cancel_job i now) d n s sound =
    unfold cancel in
    Moved-admin_mark k s.worker.store may_cancel i now canceled no_fields (λ j. refl) Moves-cancel
Moves-step p k (requeue_job i now) d n s sound =
    unfold requeue in
    Moved-admin_mark k s.worker.store may_requeue i now queued reset_fields (λ j. refl)
      Moves-requeue
Moves-step p k (resolve_job i now outcome) d n s sound =
    Moved-resolve k s.worker.store i now outcome
Moves-step p k (erase i sha256 text_length) d n s sound =
    Moved-erase k s.worker.store i sha256 text_length
Moves-step p k (prune_jobs job_cut idem_cut) d n s sound =
    Moved-prune k s.worker.store sound.0 job_cut idem_cut
Moves-step p k (configure c) d n s sound = stays (status k s)
Moves-step p k (poll_jobs now) d n s sound =
    unfold poll in
    Moves-Polled k s (start_all now (ready now s.worker.store) s)
      (Polled-start_all k now (ready now s.worker.store) s)
Moves-step p k (settle_job i w) d n s sound = Moves-settle p k i w d n s sound
Moves-step p k (restart now ks) d n s (one, sends, flight) =
    elim (interrupted_cases now ks k s.inflight s.worker.store) [
      | inl same ↦ rw same (stays (status k s))
      | inr (there, at) ↦ rw at (printing_move now (row k s.worker) (flight there))
    ]

-- The queue implements the machine of states: after any list of actions on a system that started with
-- empty tables, one more action, of whatever kind and with whatever devices, moves each job by one
-- move of the machine, or leaves it.
pub step-Moves :
    (p : WorkerSettings) (g : Registry) (actions : List Action) (a : Action) (k : String)
    → let s = run p actions (started g) in Moves (status k s) (status k (step p a s))
step-Moves p g actions a k =
    Moves-step p k a (0 + prints p k actions (started g)) (0 + launches k actions)
      (run p actions (started g))
      (run-Sound p k actions 0 0 (started g)
        (omega arith, unfold select_job in omega arith, λ h. unfold has in cc))
