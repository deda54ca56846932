-- ===== src/Worker/AtMostOnce.antt =====
-- The promise of app/queue.py: a job is sent at most once for each time that it was put into the queue,
-- where sends that the worker tries again do not count.
use text.Mathlib.TextPositions.{eq_refl}
use vibe_printer.Prelude.{
  ℕ, ◌&&◌, ◌+◌, ◌≤◌, ◌≡◌, true, false, String, Option, none, some, List, [], ◌∷◌, str_eq, eq_iff,
  if◌then◌else◌, arith, Bool-cases, inl, inr, sym,
}
use vibe_printer.Prelude.Texts.{Text}
use vibe_printer.JobTable.{Job, select_job}
use vibe_printer.Jobs.{
  JobStore, enqueue, is_active, claim, cancel, requeue, resolve, set_rendering, is_queued, ready,
}
use vibe_printer.Jobs.Lifecycle.{select-claim}
use vibe_printer.Jobs.Retention.{prune, redact_payload}
use vibe_printer.Registry.Config.{Registry}
use vibe_printer.Worker.{WorkerSettings, World, guarded}
use vibe_printer.Worker.Outcomes.{open_count, row, guarded-Keeps}
use vibe_printer.Worker.Sends.{guarded-SentOnce, may_print, send_of, open_count-le}
use vibe_printer.Worker.Interrupted.{copies-interrupted, interrupted_cases, left_printing}
use vibe_printer.Worker.Keys.{copies, copies-guarded}
use vibe_printer.Worker.StoreSteps.{
  renders, Fine, enqueue-Fine, cancel-Fine, requeue-Fine, resolve-Fine, erase-Fine, prune-Fine,
  claim-Fine,
}
use vibe_printer.Worker.System.{
  System, has, pop, with_store, start_one, start_all, poll, settle, Action, submit, cancel_job,
  requeue_job, resolve_job, erase, prune_jobs, configure, poll_jobs, settle_job, restart,
  interrupted, step, run,
}

-- How often a list of actions puts a job into the queue: by submitting it or by a requeue.
unfoldable pub launch : String → Action → ℕ
launch k (submit i _ _ _) = if str_eq i k then 1 else 0
launch k (requeue_job i _) = if str_eq i k then 1 else 0
launch k _ = 0

unfoldable pub launches : String → List Action → ℕ
unfolding launch
launches k [] = 0
launches k (a ∷ actions) = launch k a + launches k actions

-- 1 for an action that ends a run of the worker with a send of the job that may have printed.
unfoldable pub printed : String → Action → System → ℕ
unfolding has
printed k (settle_job i w) s =
    if str_eq i k && has i s.inflight then may_print (send_of w i s.worker) else 0
printed k _ s = 0

-- How many sends of the job, over a list of actions, may have printed.
unfoldable pub prints : WorkerSettings → String → List Action → System → ℕ
unfolding printed
prints p k [] s = 0
prints p k (a ∷ actions) s = printed k a s + prints p k actions (step p a s)

-- What holds of a job that has been put into the queue at most `n` times, with `d` sends that may have
-- printed: it has one row at most, those sends and what is still to be sent are within `n`, and while it
-- is in flight its row is rendering.
abbrev pub Sound : String → (d n : ℕ) → System → Type 0
Sound k d n s =
    (copies k s.worker.store.jobs ≤ 1)
    × (d + open_count (row k s.worker) ≤ n)
    × (has k s.inflight ≡ true → renders (row k s.worker) ≡ true)

claimed-renders :
    (i : String) (now : Text) (st : JobStore)
    → (claim i now st).0 ≡ true
    → renders (select_job i (claim i now st).1.jobs) ≡ true
claimed-renders i now st h =
    rw (select-claim i now i st, eq_refl i) (unfold claim set_rendering is_queued in ground arith)

open_count-renders : (o : Option Job) → renders o ≡ true → open_count o ≡ 1
unfolding is_active
open_count-renders none h = cc
open_count-renders (some j) h = ground arith

module _ (k : String) (d n : ℕ) (s : System) (sound : Sound k d n s) where
  with_store-Sound :
      (m : ℕ) (st : JobStore)
      → Fine k m s.worker.store st
      → Sound k (d + 0) (n + m) (with_store st s)
  with_store-Sound m st (one, sends, kept) =
      (one, omega (arith, sound.1, sends), λ h. kept (sound.2 h))

  has-pop :
      (i : String) (ks : List String)
      → has k (pop i ks) ≡ true
      → (has k ks ≡ true) × (str_eq i k ≡ false)
  unfolding has pop
  has-pop i [] h = cc
  has-pop i (x ∷ ks) h = ground (arith, has-pop i ks, eq_iff x i, eq_iff x k, eq_iff i k)

  start_one-Sound : (i : String) (now : Text) → Sound k d n (start_one now i s)
  unfolding start_one
  start_one-Sound i now =
      let st = s.worker.store in
      let (one, sends, kept) = claim-Fine k st sound.0 i now in
      elim (Bool-cases (has i s.inflight)) [
        | inl there ↦ rw there sound
        | inr idle ↦ elim (Bool-cases (claim i now st).0) [
          | inl claimed ↦
              rw (idle, claimed)
                (
                  one,
                  omega (arith, sound.1, sends),
                  λ h.
                      unfold has in
                      ground (arith, eq_iff i k, kept, sound.2, claimed-renders i now st claimed),
                )
          | inr lost ↦ rw (idle, lost) (one, omega (arith, sound.1, sends), λ h. kept (sound.2 h))
        ]
      ]

  settle-own :
      (p : WorkerSettings) (w : World)
      → has k s.inflight ≡ true
      → Sound k
          (d + may_print (send_of w k s.worker))
          n
          (record { worker = guarded p w k s.worker; inflight = pop k s.inflight })
  settle-own p w there = (
    rw (copies-guarded p w k k s.worker) sound.0,
    omega (
      arith,
      sound.1,
      guarded-SentOnce p w k s.worker,
      open_count-renders (row k s.worker) (sound.2 there),
    ),
    λ h. ground (arith, has-pop k s.inflight h, eq_refl k),
  )

  settle-Sound :
      (p : WorkerSettings) (i : String) (w : World)
      → Sound k (d + printed k (settle_job i w) s) n (settle p i w s)
  unfolding settle printed
  settle-Sound p i w = elim (Bool-cases (has i s.inflight)) [
    | inr idle ↦ rw idle (sound.0, ground (arith, sound.1), sound.2)
    | inl there ↦ elim (Bool-cases (str_eq i k)) [
      | inl same ↦
          let e : i ≡ k = ground (arith, eq_iff i k) in
          rw (there, same) (rw e (settle-own p w (rw (sym e) there)))
      | inr other ↦
          let (rows, sent) = guarded-Keeps p w i k s.worker (λ e. ground (arith, eq_iff i k)) in
          rw (there, other)
            (
              rw (copies-guarded p w i k s.worker) sound.0,
              rw rows (omega (arith, sound.1)),
              λ h. rw rows (sound.2 (has-pop i s.inflight h).0),
            )
    ]
  ]

interrupted-Sound :
    (k : String) (d n : ℕ) (s : System)
    → Sound k d n s
    → (now : Text) (ks : List String)
    → Sound k (d + 0) (n + 0) (record {
      worker = record s.worker {
        store = interrupted now ks s.inflight s.worker.store;
        cursors = [];
      };
      inflight = [];
    })
interrupted-Sound k d n s (one, sends, flight) now ks = (
  rw (copies-interrupted now ks k s.inflight s.worker.store) one,
  elim (interrupted_cases now ks k s.inflight s.worker.store) [
    | inl same ↦ rw same (omega (arith, sends))
    | inr (there, at) ↦ rw at (
        omega (
          arith,
          sends,
          open_count-renders (row k s.worker) (flight there),
          open_count-le (left_printing now (row k s.worker)),
        ))
  ],
  λ h. unfold has in cc,
)

start_all-Sound :
    (k : String) (d n : ℕ) (now : Text) (js : List Job) (s : System)
    → Sound k d n s
    → Sound k d n (start_all now js s)
unfolding start_all
start_all-Sound k d n now [] s sound = sound
start_all-Sound k d n now (j ∷ js) s sound =
    start_all-Sound k d n now js (start_one now j.id s) (start_one-Sound k d n s sound j.id now)

poll-Sound :
    (k : String) (d n : ℕ) (now : Text) (s : System) → Sound k d n s → Sound k d n (poll now s)
unfolding poll
poll-Sound k d n now s sound = start_all-Sound k d n now (ready now s.worker.store) s sound

pub step-Sound :
    (p : WorkerSettings) (k : String) (d n : ℕ) (a : Action) (s : System)
    → Sound k d n s
    → Sound k (d + printed k a s) (n + launch k a) (step p a s)
unfolding step launch printed
step-Sound p k d n (submit i c u a) s sound =
    with_store-Sound k d n s sound _ (enqueue i c u a s.worker.store).1
      (enqueue-Fine k s.worker.store sound.0 i c u a)
step-Sound p k d n (cancel_job i now) s sound =
    with_store-Sound k d n s sound 0 (cancel i now s.worker.store).1
      (cancel-Fine k s.worker.store sound.0 i now)
step-Sound p k d n (requeue_job i now) s sound =
    with_store-Sound k d n s sound _ (requeue i now s.worker.store).1
      (requeue-Fine k s.worker.store sound.0 i now)
step-Sound p k d n (resolve_job i now outcome) s sound =
    with_store-Sound k d n s sound 0 (resolve i now outcome s.worker.store).1
      (resolve-Fine k s.worker.store sound.0 i now outcome)
step-Sound p k d n (erase i sha256 text_length) s sound =
    with_store-Sound k d n s sound 0 (redact_payload sha256 text_length i s.worker.store).1
      (erase-Fine k s.worker.store sound.0 i sha256 text_length)
step-Sound p k d n (prune_jobs job_cut idem_cut) s sound =
    with_store-Sound k d n s sound 0 (prune job_cut idem_cut s.worker.store)
      (prune-Fine k s.worker.store sound.0 job_cut idem_cut)
step-Sound p k d n (configure c) s sound = (sound.0, omega (arith, sound.1), sound.2)
step-Sound p k d n (poll_jobs now) s sound =
    let (one, sends, kept) = poll-Sound k d n now s sound in (one, omega (arith, sends), kept)
step-Sound p k d n (settle_job i w) s sound =
    let (one, sends, kept) = settle-Sound k d n s sound p i w in (one, omega (arith, sends), kept)
step-Sound p k d n (restart now ks) s sound = interrupted-Sound k d n s sound now ks

pub run-Sound :
    (p : WorkerSettings) (k : String) (actions : List Action) (d n : ℕ) (s : System)
    → Sound k d n s
    → Sound k (d + prints p k actions s) (n + launches k actions) (run p actions s)
unfolding run launches prints
run-Sound p k [] d n s (one, sends, kept) = (one, omega (arith, sends), kept)
run-Sound p k (a ∷ actions) d n s sound =
    let (one, sends, kept) =
      run-Sound p k actions (d + printed k a s) (n + launch k a) (step p a s)
        (step-Sound p k d n a s sound) in
    (one, omega (arith, sends), kept)

-- A system that starts with empty tables.
abbrev pub started : Registry → System
started g = record {
  worker = record {
    store = record { jobs = []; idempotency = [] };
    registry = g;
    cursors = [];
    print_audit = [];
    alerts = [];
  };
  inflight = [];
}

-- At most one send that may print for each submit and each requeue, whatever the devices, the calls of
-- others, the settings and the restarts are: over any list of actions on a system that started with empty
-- tables, the sends of a job that returned, that broke off or timed out, or that raised an exception
-- other than PrinterUnreachable and BackendError, with 1 more if the job is still queued, rendering or
-- printing at the end, are within the number of times that it was submitted or requeued. (Sends with one
-- of those two exceptions, which the worker tries again, are not counted.)
pub at_most_once :
    (p : WorkerSettings) (g : Registry) (actions : List Action) (k : String)
    → prints p k actions (started g) + open_count (row k (run p actions (started g)).worker)
      ≤ launches k actions
at_most_once p g actions k =
    let (one, sends, kept) =
      run-Sound p k actions 0 0 (started g)
        (omega arith, unfold select_job in omega arith, λ h. unfold has in cc) in
    omega (arith, sends)
