-- ===== src/Worker/System.antt =====
-- The queue as a whole: the worker's loop (`Worker._run`, `Worker.start`), the tasks that it has in
-- flight, and the calls that other parts make in between, one atomic step each. A run of `_guarded`
-- is one step, at the moment when it ends; until then its job is in flight.
use vibe_printer.Prelude.{
  ℕ, Bool, true, false, not, String, List, [], ◌∷◌, str_eq, if◌then◌else◌, keep,
}
use vibe_printer.Prelude.Texts.{Text}
use vibe_printer.Models.{printing}
use vibe_printer.JobTable.{Job, StoredPayload}
use vibe_printer.Jobs.{
  JobStore, EnqueueArgs, enqueue, claim, cancel, requeue, resolve, ready, mark, no_fields,
}
use vibe_printer.Jobs.Retention.{prune, redact_payload}
use vibe_printer.Registry.References.{Call, after}
use vibe_printer.Worker.{WorkerSettings, WorkerState, World, guarded}

pub record System : Type 0 where
  pub worker : WorkerState
  pub inflight : List String

-- `jid in self._inflight`, and `self._inflight.pop(jid, None)`.
unfoldable pub has : String → List String → Bool
has i [] = false
has i (k ∷ ks) = if str_eq k i then true else has i ks

unfoldable pub pop : String → List String → List String
pop i ks = keep (λ k. not (str_eq k i)) ks

abbrev pub with_store : JobStore → System → System
with_store st s = record s { worker = record s.worker { store = st } }

-- The body of the loop over `ready`.
unfoldable pub start_one : Text → String → System → System
unfolding has
start_one now i s =
    if has i s.inflight
    then s
    else (let (claimed, st) = claim i now s.worker.store in
        if claimed then record (with_store st s) { inflight = i ∷ s.inflight } else with_store st s)

unfoldable pub start_all : Text → List Job → System → System
start_all now [] s = s
start_all now (j ∷ js) s = start_all now js (start_one now j.id s)

unfoldable pub poll : Text → System → System
unfolding start_all
poll now s = start_all now (ready now s.worker.store) s

unfoldable pub settle : WorkerSettings → String → World → System → System
unfolding has pop
settle p i w s =
    if has i s.inflight
    then record { worker = guarded p w i s.worker; inflight = pop i s.inflight }
    else s

pub data Action : Type 0 where
  submit : (i : String) (created_at updated_at : Text) → EnqueueArgs → Action
  cancel_job requeue_job : (i : String) → Text → Action
  resolve_job : (i : String) → Text → (outcome : String) → Action
  erase : (i : String) (sha256 : StoredPayload → String) (text_length : StoredPayload → ℕ) → Action
  prune_jobs : (job_cut idem_cut : Text) → Action
  configure : Call → Action
  poll_jobs : Text → Action
  settle_job : (i : String) → World → Action
  restart : Text → (printing_jobs : List String) → Action

-- What a run that had come to its send has left of a job in flight when the process ends: a row that is
-- printing.
unfoldable pub interrupted : Text → (printing_jobs inflight : List String) → JobStore → JobStore
unfolding has mark
interrupted now ks [] st = st
interrupted now ks (i ∷ inflight) st =
    let rest = interrupted now ks inflight st in
    if has i ks then mark i now printing no_fields rest else rest

-- `erase` is DELETE /admin/jobs/{id}/payload. A restart keeps the database and loses the tasks and the
-- cursors of the pools. Of the jobs in flight, those in `printing_jobs` had come to their send. Nothing is
-- done to them afterwards.
unfoldable pub step : WorkerSettings → Action → System → System
unfolding poll settle interrupted
step p (submit i c u a) s = with_store (enqueue i c u a s.worker.store).1 s
step p (cancel_job i now) s = with_store (cancel i now s.worker.store).1 s
step p (requeue_job i now) s = with_store (requeue i now s.worker.store).1 s
step p (resolve_job i now outcome) s = with_store (resolve i now outcome s.worker.store).1 s
step p (erase i sha256 text_length) s =
    with_store (redact_payload sha256 text_length i s.worker.store).1 s
step p (prune_jobs job_cut idem_cut) s = with_store (prune job_cut idem_cut s.worker.store) s
step p (configure c) s = record s {
  worker = record s.worker { registry = after c s.worker.registry };
}
step p (poll_jobs now) s = poll now s
step p (settle_job i w) s = settle p i w s
step p (restart now printing_jobs) s = record {
  worker = record s.worker {
    store = interrupted now printing_jobs s.inflight s.worker.store;
    cursors = [];
  };
  inflight = [];
}

unfoldable pub run : WorkerSettings → List Action → System → System
run p [] s = s
run p (a ∷ actions) s = run p actions (step p a s)
