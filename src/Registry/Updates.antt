-- ===== src/Registry/Updates.antt =====
-- Optimistic concurrency: what a table's methods do to its rows and to the version tokens.
use vibe_printer.Prelude.{
  ℕ, ◌+◌, ◌≡◌, ◌≢◌, ◌⊎◌, Option, none, some, List, [], ◌∷◌, ◌++◌, ◌==◌, if◌then◌else◌, arith,
  Option-cases, Bool-cases, inl, inr,
}
use vibe_printer.Errors.{ErrorCode, Failure, api, api_error, conflict, ok, err, raise}
use vibe_printer.Registry.Versioned.{
  Row, Table, select_row, update_rows, delete_rows, update, delete,
}

module _ {C : Type 0} where
  pub id-select_row :
      (i : ℕ) (rows : List (Row C)) (r : Row C) → select_row i rows ≡ some r → r.id ≡ i
  unfolding select_row
  id-select_row i [] r h = cc
  id-select_row i (q ∷ rows) r h = ground (arith, id-select_row i rows r)

  -- The row that an update leaves at an id.
  abbrev pub bumped : C → Option (Row C) → Option (Row C)
  bumped c none = none
  bumped c (some r) = some (record r { version = r.version + 1; content = c })

  pub select-update_rows :
      (i k : ℕ) (c : C) (rows : List (Row C))
      → select_row k (update_rows i c rows)
        ≡ (if i == k then bumped c (select_row k rows) else select_row k rows)
  unfolding select_row update_rows
  select-update_rows i k c [] = ground arith
  select-update_rows i k c (r ∷ rows) = ground (arith, select-update_rows i k c rows)

  pub select-delete_rows :
      (i k : ℕ) (rows : List (Row C))
      → select_row k (delete_rows i rows) ≡ (if i == k then none else select_row k rows)
  unfolding select_row delete_rows
  select-delete_rows i k [] = ground arith
  select-delete_rows i k (r ∷ rows) = ground (arith, select-delete_rows i k rows)

  pub select_row-append :
      (k : ℕ) (rows : List (Row C)) (r : Row C)
      → select_row k (rows ++ r ∷ [])
        ≡ elim (select_row k rows) [ none ↦ (if r.id == k then some r else none) | some q ↦ some q ]
  unfolding select_row
  select_row-append k [] r = ground arith
  select_row-append k (q ∷ rows) r = ground (arith, select_row-append k rows r)

module _ {C : Type 0} (missing : ErrorCode) (i supplied : ℕ) (c : C) (t : Table C) where
  -- An update with the token of the stored row replaces its content, raises its version by one, returns
  -- the new row, and leaves the rows of all other ids and the sequence as they were.
  pub update_fresh :
      (r : Row C) (k : ℕ)
      → select_row i t.rows ≡ some r
      → supplied ≡ r.version
      → let (result, t') = update missing i supplied c t in
        (result ≡ ok (record r { version = r.version + 1; content = c }))
        × (select_row k t'.rows ≡ (
            if i == k
            then some (record r { version = r.version + 1; content = c })
            else select_row k t.rows))
        × (t'.sequence ≡ t.sequence)
  unfolding update
  update_fresh r k e v =
      ground (arith, select-update_rows i i c t.rows, select-update_rows i k c t.rows)

  -- With another token the update is refused as a conflict and writes nothing.
  pub update_stale :
      (r : Row C)
      → select_row i t.rows ≡ some r
      → supplied ≢ r.version
      → update missing i supplied c t ≡ (raise conflict, t)
  unfolding update
  update_stale r e v = ground arith

  -- Of two updates with the same token at most one is accepted: after an accepted one, any second one
  -- with that token is a conflict and leaves the table as the first one left it.
  pub update_once :
      (r : Row C) (d : C)
      → (update missing i supplied c t).0 ≡ ok r
      → update missing i supplied d (update missing i supplied c t).1
        ≡ (raise conflict, (update missing i supplied c t).1)
  unfolding update
  update_once r d h = ground (arith, select-update_rows i i c t.rows)

  -- An update raises and writes nothing, or returns the row that it wrote.
  pub update_cases :
      ((e : Failure) × (update missing i supplied c t ≡ (err e, t)))
      ⊎ ((r : Row C) × (update missing i supplied c t
            ≡ (ok r, record t { rows = update_rows i c t.rows })))
  unfolding update
  update_cases = elim (Option-cases (select_row i t.rows)) [
    | inl absent ↦ inl (api (api_error missing none), ground arith)
    | inr (r, present) ↦ elim (Bool-cases (r.version == supplied)) [
      | inl fresh ↦ inr (
        record r { version = r.version + 1; content = c },
        ground (arith, select-update_rows i i c t.rows),
      )
      | inr stale ↦ inl (api (api_error conflict none), ground arith)
    ]
  ]

module _ {C : Type 0} (missing : ErrorCode) (i : ℕ) (t : Table C) where
  pub delete_cases :
      ((e : Failure) × (delete missing i t ≡ (err e, t)))
      ⊎ (delete missing i t ≡ (ok tt, record t { rows = delete_rows i t.rows }))
  unfolding delete
  delete_cases = elim (Option-cases (select_row i t.rows)) [
    | inl absent ↦ inl (api (api_error missing none), ground arith)
    | inr (r, present) ↦ inr (ground arith)
  ]
