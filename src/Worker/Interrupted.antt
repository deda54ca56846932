-- ===== src/Worker/Interrupted.antt =====
-- The rows that a restart finds.
use mathlib.Core.Option.{map as map_option}
use vibe_printer.Prelude.{
  ◌≡◌, refl, true, String, Option, none, some, List, [], ◌∷◌, str_eq, Bool-cases, ◌⊎◌, inl, inr,
  ◌∙◌, ap,
}
use vibe_printer.Prelude.Texts.{Text}
use vibe_printer.Models.{printing}
use vibe_printer.JobTable.{Job, select_job}
use vibe_printer.Jobs.{JobStore, mark, set_status, no_fields}
use vibe_printer.Jobs.Lifecycle.{select-mark}
use vibe_printer.Worker.Keys.{copies, copies-update_job}
use vibe_printer.Worker.System.{has, interrupted}

abbrev pub left_printing : Text → Option Job → Option Job
left_printing now o = map_option (set_status printing now no_fields) o

left_printing-again :
    (now : Text) (o : Option Job) → left_printing now (left_printing now o) ≡ left_printing now o
left_printing-again now none = refl
left_printing-again now (some j) = refl

module _ (now : Text) (ks : List String) (k : String) where
  pub copies-interrupted :
      (inflight : List String) (st : JobStore)
      → copies k (interrupted now ks inflight st).jobs ≡ copies k st.jobs
  unfolding interrupted
  copies-interrupted [] st = refl
  copies-interrupted (i ∷ inflight) st = elim (Bool-cases (has i ks)) [
    | inr other ↦ rw other (copies-interrupted inflight st)
    | inl own ↦ rw own (
        unfold mark in
        copies-update_job i k (set_status printing now no_fields) _ (λ j. refl)
        ∙ copies-interrupted inflight st)
  ]

  -- A row that was not in flight stays; one that was may be left printing.
  pub interrupted_cases :
      (inflight : List String) (st : JobStore)
      → let o = select_job k (interrupted now ks inflight st).jobs in
        (o ≡ select_job k st.jobs)
        ⊎ ((has k inflight ≡ true) × (o ≡ left_printing now (select_job k st.jobs)))
  unfolding interrupted has
  interrupted_cases [] st = inl refl
  interrupted_cases (i ∷ inflight) st =
      let rest = interrupted now ks inflight st in
      let marked = select-mark i now printing no_fields k rest (λ j. refl) in
      elim (Bool-cases (str_eq i k)) [
        | inr apart ↦ elim (Bool-cases (has i ks)) [
          | inr other ↦ rw (other, apart) (interrupted_cases inflight st)
          | inl own ↦ rw (own, marked, apart) (interrupted_cases inflight st)
        ]
        | inl same ↦ elim (Bool-cases (has i ks)) [
          | inr other ↦
              rw (other, same)
                (elim (interrupted_cases inflight st) [
                  | inl stays ↦ inl stays
                  | inr (there, at) ↦ inr (refl, at)
                ])
          | inl own ↦
              rw (own, marked, same)
                (elim (interrupted_cases inflight st) [
                  | inl stays ↦ inr (refl, ap (left_printing now) stays)
                  | inr (there, at) ↦ inr (
                    refl,
                    ap (left_printing now) at ∙ left_printing-again now (select_job k st.jobs),
                  )
                ])
        ]
      ]
