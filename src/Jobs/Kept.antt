-- ===== src/Jobs/Kept.antt =====
-- What pruning and idempotency keys keep.
use mathlib.Core.List.{Memᴰ}
use vibe_printer.Prelude.{
  ℕ, ◌≡◌, ◌⊎◌, inl, inr, refl, Bool, true, false, not, String, none, some, List, [], ◌∷◌, ◌++◌,
  str_eq, eq_iff, if◌then◌else◌, arith, Bool-cases, keep, or_else,
}
use vibe_printer.Prelude.Texts.{Text, text_ltb}
use vibe_printer.Prelude.Counting.{count_if}
use vibe_printer.Prelude.Sort.{mem-keep}
use vibe_printer.Models.{JobStatus}
use vibe_printer.JobTable.{Job}
use vibe_printer.Jobs.{IdempotencyRow, JobStore, depth, printer_depth, is_active, is_prunable}
use vibe_printer.Jobs.Retention.{
  lookup_key, idempotency_lookup, idempotency_store, is_expired, prune,
}

lookup_key-append :
    (k : String) (rows : List IdempotencyRow) (r : IdempotencyRow)
    → lookup_key k (rows ++ r ∷ [])
      ≡ or_else (lookup_key k rows) (if str_eq r.key k then some r else none)
unfolding lookup_key
lookup_key-append k [] r = ground arith
lookup_key-append k (q ∷ rows) r = ground (arith, lookup_key-append k rows r)

-- The first request under a key decides: what is stored for the key stays, a new key gets its row,
-- and no other key is touched.
pub lookup-idempotency_store :
    (key request_hash job_id k : String) (now : Text) (s : JobStore)
    → idempotency_lookup k (idempotency_store key request_hash job_id now s)
      ≡ or_else (idempotency_lookup k s) (
          if str_eq key k
          then some
              (record { key = key; request_hash = request_hash; job_id = job_id; created_at = now })
          else none)
unfolding idempotency_lookup idempotency_store
lookup-idempotency_store key request_hash job_id k now s = ground (
  arith,
  lookup_key-append k s.idempotency
      (record { key = key; request_hash = request_hash; job_id = job_id; created_at = now }),
  eq_iff key k,
)

-- An active job is never pruned.
active_not_prunable : (x : JobStatus) → is_active x ≡ true → is_prunable x ≡ false
unfolding is_active is_prunable
active_not_prunable x h = ground arith

count_if-keep :
    (p q : Job → Bool) (rows : List Job)
    → ((j : Job) → p j ≡ true → q j ≡ true)
    → count_if p (keep q rows) ≡ count_if p rows
count_if-keep p q [] h = refl
count_if-keep p q (j ∷ rows) h = ground (arith, h j, count_if-keep p q rows h)

module _ (job_cut idem_cut : Text) (s : JobStore) where
  survives : (j : Job) → is_active j.status ≡ true → not (is_expired job_cut j) ≡ true
  unfolding is_expired
  survives j h = ground (arith, active_not_prunable j.status h)

  -- Pruning leaves the depth of the queue, and of every printer's share of it, as it is.
  pub prune_keeps_depth :
      (p : ℕ)
      → (depth (prune job_cut idem_cut s) ≡ depth s)
        × (printer_depth p (prune job_cut idem_cut s) ≡ printer_depth p s)
  unfolding depth printer_depth prune
  prune_keeps_depth p = (
    count_if-keep _ _ s.jobs survives,
    count_if-keep _ _ s.jobs (λ j h. survives j (ground arith)),
  )

  -- A pruned job was created before the cut-off and is done, failed, dead or canceled: every other job,
  -- an uncertain one among them, is still there.
  pub prune_keeps :
      (j : Job)
      → Memᴰ j s.jobs
      → Memᴰ j (prune job_cut idem_cut s).jobs
        ⊎ ((text_ltb j.created_at job_cut ≡ true) × (is_prunable j.status ≡ true))
  unfolding prune
  prune_keeps j m = elim (Bool-cases (is_expired job_cut j)) [
    | inl old ↦ inr (unfold is_expired in ground arith)
    | inr fresh ↦ inl (mem-keep _ s.jobs (rw fresh) m)
  ]
