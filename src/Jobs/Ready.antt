-- ===== src/Jobs/Ready.antt =====
-- `ready`: which jobs the worker is given, and in which order.
use mathlib.Core.List.{Memᴰ}
use vibe_printer.Prelude.Int.{ℤ, pos, negsuc, ltb_ℤ, leb_ℤ}
use vibe_printer.Models.{queued}
use vibe_printer.Prelude.{
  ◌≤◌, ◌↔◌, inl, inr, refl, List, [], ◌∷◌, Option, some, none, take, ◌≡◌, ◌⊎◌, true, arith, All,
  All-take, All-map, ap, false, Bool-cases, length, length-take, keep,
}
use vibe_printer.Prelude.Texts.{Text, text_leb, text_leb_total, text_leb_trans}
use vibe_printer.Prelude.Sort.{
  sort_by, sort_by-All, sort_by-IsSorted, IsSorted, take-IsSorted, mem-take_or_behind, mem-sort_by,
  mem-keep, keep-All,
}
use vibe_printer.JobTable.{Job}
use vibe_printer.Jobs.{JobStore, is_queued, reached, is_due, ready_before, ready}

pub ready_before_total : (a b : Job) → (ready_before a b ≡ true) ⊎ (ready_before b a ≡ true)
unfolding ready_before
ready_before_total a b = ground (arith, text_leb_total a.created_at b.created_at)

ready_before_trans :
    (a b c : Job) → ready_before a b ≡ true → ready_before b c ≡ true → ready_before a c ≡ true
unfolding ready_before
ready_before_trans a b c h k = ground (arith, text_leb_trans a.created_at b.created_at c.created_at)

-- A time that is not set, or that is not after now.
abbrev pub IsReached : Text → Option Text → Type 0
IsReached now o = (o ≡ none) ⊎ ((t : Text) × (o ≡ some t) × (text_leb t now ≡ true))

-- A queued job whose time for a retry and whose schedule, if it has them, have come.
abbrev pub IsWaiting : Text → Job → Type 0
IsWaiting now j =
    (j.status ≡ queued) × IsReached now j.next_attempt_at × IsReached now j.scheduled_at

-- A higher priority, or the same one and a stored time of creation that is not later.
abbrev pub Precedes : Job → Job → Type 0
Precedes a b =
    (ltb_ℤ b.priority a.priority ≡ true)
    ⊎ ((a.priority ≡ b.priority) × (text_leb a.created_at b.created_at ≡ true))

-- Each job of a list precedes every later one.
abbrev pub InOrder : List Job → Type 0
InOrder [] = Unit
InOrder (j ∷ js) = All (Precedes j) js × InOrder js

reached_iff : (now : Text) (o : Option Text) → (reached now o ≡ true) ↔ IsReached now o
unfolding reached
reached_iff now none = (λ h. inl refl, λ h. refl)
reached_iff now (some t) = (λ h. inr (t, refl, h), λ h. ground (arith, h))

due_iff : (now : Text) (j : Job) → (is_due now j ≡ true) ↔ IsWaiting now j
unfolding is_due is_queued
due_iff now j = ground (arith, reached_iff now j.next_attempt_at, reached_iff now j.scheduled_at)

same_priority : (x y : ℤ) → leb_ℤ x y ≡ true → ltb_ℤ x y ≡ false → y ≡ x
same_priority (pos m) (pos n) h k = ap pos (ground arith)
same_priority (pos m) (negsuc n) h k = absurd (ground arith)
same_priority (negsuc m) (pos n) h k = absurd (ground arith)
same_priority (negsuc m) (negsuc n) h k = ap negsuc (ground arith)

precedes : (a b : Job) → ready_before a b ≡ true → Precedes a b
unfolding ready_before
precedes a b h = elim (Bool-cases (ltb_ℤ b.priority a.priority)) [
  | inl higher ↦ inl higher
  | inr not_higher ↦
      inr (same_priority b.priority a.priority (ground arith) not_higher, ground arith)
]

in_order : (js : List Job) → IsSorted ready_before js → InOrder js
in_order [] h = tt
in_order (j ∷ js) h =
    (All-map (λ k. ready_before j k ≡ true) (Precedes j) (precedes j) js h.0, in_order js h.1)

module _ (now : Text) (s : JobStore) where
  -- At most 50 jobs are given out. Each is queued, and its time for a retry and its schedule are not set
  -- or not after now; each has a higher priority than any later one, or the same priority and a stored
  -- time of creation that is not later as a text.
  pub ready_sound :
      All (IsWaiting now) (ready now s) × InOrder (ready now s) × (length (ready now s) ≤ 50)
  unfolding ready
  ready_sound =
      let due = keep (is_due now) s.jobs in
      (
        All-map (λ j. is_due now j ≡ true) (IsWaiting now) (λ j. (due_iff now j).0) _
            (All-take (λ j. is_due now j ≡ true) 50 (sort_by ready_before due)
              (sort_by-All ready_before (λ j. is_due now j ≡ true) due
                (keep-All (is_due now) s.jobs))),
        in_order (take 50 (sort_by ready_before due)) (
            take-IsSorted ready_before 50 (sort_by ready_before due)
              (sort_by-IsSorted ready_before ready_before_total ready_before_trans due)),
        omega (arith, length-take 50 (sort_by ready_before due)),
      )

  -- No waiting job is passed over: a job of the table that is queued, and whose time for a retry and
  -- schedule are not set or not after now, is given out, or 50 jobs are that each have a higher priority,
  -- or the same priority and a stored time of creation that is not later as a text.
  pub ready_complete :
      (j : Job)
      → Memᴰ j s.jobs
      → IsWaiting now j
      → Memᴰ j (ready now s) ⊎ ((length (ready now s) ≡ 50) × All (λ r. Precedes r j) (ready now s))
  unfolding ready
  ready_complete j m h =
      let due = keep (is_due now) s.jobs in
      elim (mem-take_or_behind ready_before 50 (sort_by ready_before due)
        (sort_by-IsSorted ready_before ready_before_total ready_before_trans due)
        (mem-sort_by ready_before due (mem-keep (is_due now) s.jobs ((due_iff now j).1 h) m))) [
          | inl given ↦ inl given
          | inr (many, first) ↦ inr (
            many,
            All-map (λ r. ready_before r j ≡ true) (λ r. Precedes r j) (λ r. precedes r j)
                (take 50 (sort_by ready_before due)) first,
          )
        ]
