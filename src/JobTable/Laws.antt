-- ===== src/JobTable/Laws.antt =====
-- What the statements of JobTable.antt give: a read after a write, and counts across a write.
use mathlib.Core.Option
use vibe_printer.Prelude.{
  ◌≡◌, refl, Bool, String, none, some, List, [], ◌∷◌, ◌++◌, str_eq, eq_iff, if◌then◌else◌, arith,
  or_else,
}
use vibe_printer.Prelude.Counting.{count_if}
use vibe_printer.JobTable.{Job, select_job, update_job}

pub id-select_job : (i : String) (rows : List Job) (j : Job) → select_job i rows ≡ some j → j.id ≡ i
unfolding select_job
id-select_job i [] j h = cc
id-select_job i (k ∷ rows) j h = ground (arith, eq_iff k.id i, id-select_job i rows j)

module _ (i : String) (set : Job → Job) (keeps_id : (j : Job) → (set j).id ≡ j.id) where
  pub select-update_job :
      (k : String) (rows : List Job)
      → select_job k (update_job i set rows)
        ≡ (if str_eq i k then Option.map set (select_job k rows) else select_job k rows)
  unfolding select_job update_job
  select-update_job k [] = ground arith
  select-update_job k (j ∷ rows) = ground (
    arith,
    keeps_id j,
    eq_iff j.id i,
    eq_iff j.id k,
    eq_iff i k,
    eq_iff (set j).id k,
    select-update_job k rows,
  )

pub select_job-append :
    (i : String) (rows : List Job) (j : Job)
    → select_job i (rows ++ j ∷ [])
      ≡ or_else (select_job i rows) (if str_eq j.id i then some j else none)
unfolding select_job
select_job-append i [] j = ground arith
select_job-append i (k ∷ rows) j = ground (arith, select_job-append i rows j)

-- A write changes a count by what it does to the one row that it writes.
pub count_if-update_job_same :
    (p : Job → Bool) (i : String) (set : Job → Job) (rows : List Job)
    → ((j : Job) → p (set j) ≡ p j)
    → count_if p (update_job i set rows) ≡ count_if p rows
unfolding update_job
count_if-update_job_same p i set [] h = refl
count_if-update_job_same p i set (j ∷ rows) h =
    ground (arith, h j, count_if-update_job_same p i set rows h)
