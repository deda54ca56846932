-- ===== src/Worker/Machine.antt =====
-- The states of a job as a machine of their own.
use mathlib.Core.Option.{map as map_option}
use vibe_printer.Prelude.{◌≡◌, true, String, Option, none, some}
use vibe_printer.Models.{
  JobStatus, queued, rendering, printing, done, failed, dead, uncertain, canceled,
}
use vibe_printer.JobTable.{Job}
use vibe_printer.Jobs.{may_cancel, may_requeue, is_uncertain, is_prunable}
use vibe_printer.Worker.Outcomes.{row}
use vibe_printer.Worker.Ends.{is_closed}
use vibe_printer.Worker.System.{System}

-- The machine, state by state. A job that is not there has no state; a run of the worker starts from
-- `rendering`; one that a restart interrupts may leave `printing`, which nothing leaves.
pub data Moves : Option JobStatus → Option JobStatus → Type 0 where
  stays : (o : Option JobStatus) → Moves o o
  submitted : Moves none (some queued)
  claimed : Moves (some queued) (some rendering)
  ended_done : Moves (some rendering) (some done)
  ended_failed : Moves (some rendering) (some failed)
  ended_dead : Moves (some rendering) (some dead)
  ended_uncertain : Moves (some rendering) (some uncertain)
  left_printing : Moves (some rendering) (some printing)
  retried : Moves (some rendering) (some queued)
  canceled_queued : Moves (some queued) (some canceled)
  canceled_failed : Moves (some failed) (some canceled)
  requeued_failed : Moves (some failed) (some queued)
  requeued_dead : Moves (some dead) (some queued)
  requeued_uncertain : Moves (some uncertain) (some queued)
  requeued_canceled : Moves (some canceled) (some queued)
  resolved_done : Moves (some uncertain) (some done)
  resolved_failed : Moves (some uncertain) (some failed)
  pruned_done : Moves (some done) none
  pruned_failed : Moves (some failed) none
  pruned_dead : Moves (some dead) none
  pruned_canceled : Moves (some canceled) none

-- What the tests of the code allow, the machine allows.
pub Moves-cancel : (x : JobStatus) → may_cancel x ≡ true → Moves (some x) (some canceled)
unfolding may_cancel
Moves-cancel queued h = canceled_queued
Moves-cancel failed h = canceled_failed
Moves-cancel _ h = cc

pub Moves-requeue : (x : JobStatus) → may_requeue x ≡ true → Moves (some x) (some queued)
unfolding may_requeue
Moves-requeue failed h = requeued_failed
Moves-requeue dead h = requeued_dead
Moves-requeue uncertain h = requeued_uncertain
Moves-requeue canceled h = requeued_canceled
Moves-requeue _ h = cc

pub Moves-resolve_done : (x : JobStatus) → is_uncertain x ≡ true → Moves (some x) (some done)
unfolding is_uncertain
Moves-resolve_done uncertain h = resolved_done
Moves-resolve_done _ h = cc

pub Moves-resolve_failed : (x : JobStatus) → is_uncertain x ≡ true → Moves (some x) (some failed)
unfolding is_uncertain
Moves-resolve_failed uncertain h = resolved_failed
Moves-resolve_failed _ h = cc

pub Moves-prune : (x : JobStatus) → is_prunable x ≡ true → Moves (some x) none
unfolding is_prunable
Moves-prune done h = pruned_done
Moves-prune failed h = pruned_failed
Moves-prune dead h = pruned_dead
Moves-prune canceled h = pruned_canceled
Moves-prune _ h = cc

pub Moves-closed : (x : JobStatus) → is_closed x ≡ true → Moves (some rendering) (some x)
unfolding is_closed
Moves-closed done h = ended_done
Moves-closed failed h = ended_failed
Moves-closed dead h = ended_dead
Moves-closed uncertain h = ended_uncertain
Moves-closed _ h = cc

abbrev pub status_of : Option Job → Option JobStatus
status_of o = map_option (λ j. j.status) o

abbrev pub status : String → System → Option JobStatus
status k s = status_of (row k s.worker)
