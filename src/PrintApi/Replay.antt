-- ===== src/PrintApi/Replay.antt =====
-- Idempotency keys: a request that is sent again is answered for the job that it made.
use vibe_printer.Prelude.{◌≡◌, true, String, some}
use vibe_printer.Errors.{ok}
use vibe_printer.Jobs
use vibe_printer.Jobs.{JobStore, IdempotencyRow}
use vibe_printer.Jobs.Retention.{idempotency_lookup}
use vibe_printer.PrintApi.{Reply, replay}

-- The row that stands for an accepted request: it has the request's hash and names the job of the reply.
abbrev Stored : String → String → Reply → JobStore → Type 0
Stored k hash reply s =
    (row : IdempotencyRow) × (idempotency_lookup k s ≡ some row)
    × (row.request_hash ≡ hash)
    × (replay row s ≡ ok (record reply { idempotent_replay = true }))
