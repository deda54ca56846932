-- ===== src/Registry/Versioned.antt =====
-- One configuration table: its rows by id, and the `sqlite_sequence` entry from which ids are drawn.
use vibe_printer.Prelude.{
  ℕ, ◌+◌, not, Option, none, some, List, [], ◌∷◌, ◌++◌, ◌==◌, if◌then◌else◌, keep,
}
use vibe_printer.Errors.{ErrorCode, conflict, Result, ok, err, raise}

pub record Row (C : Type 0) : Type 0 where
  pub id : ℕ
  pub version : ℕ
  pub content : C

pub record Table (C : Type 0) : Type 0 where
  pub rows : List (Row C)
  pub sequence : ℕ

module _ {C : Type 0} where
  -- SELECT * FROM t WHERE id=?
  unfoldable pub select_row : ℕ → List (Row C) → Option (Row C)
  select_row i [] = none
  select_row i (r ∷ rows) = let rest = select_row i rows in if r.id == i then some r else rest

  -- UPDATE t SET ..., version=version+1 WHERE id=?
  unfoldable pub update_rows : ℕ → C → List (Row C) → List (Row C)
  update_rows i c [] = []
  update_rows i c (r ∷ rows) =
      (if r.id == i then record r { version = r.version + 1; content = c } else r)
      ∷ update_rows i c rows

  -- DELETE FROM t WHERE id=?
  unfoldable pub delete_rows : ℕ → List (Row C) → List (Row C)
  delete_rows i rows = keep (λ r. not (r.id == i)) rows

  unfoldable pub found : ErrorCode → Option (Row C) → Result (Row C)
  found missing none = raise missing
  found missing (some r) = ok r

  -- `get_*`: `missing` is the code for an id that is not there.
  unfoldable pub get : ErrorCode → ℕ → Table C → Result (Row C)
  unfolding found
  get missing i t = found missing (select_row i t.rows)

  -- `create_*`: INSERT, then read the row back.
  unfoldable pub create : ErrorCode → C → Table C → Result (Row C) × Table C
  unfolding get
  create missing c t =
      let i = t.sequence + 1 in
      let t' : Table C = record {
        rows = t.rows ++ (record { id = i; version = 1; content = c } ∷ []);
        sequence = i;
      } in
      (get missing i t', t')

  -- `update_*`: a missing row, then a stale version, then the write.
  unfoldable pub update : ErrorCode → (i supplied : ℕ) → C → Table C → Result (Row C) × Table C
  unfolding get
  update missing i supplied c t = elim (get missing i t) [
    | err e ↦ (err e, t)
    | ok current ↦
        if current.version == supplied
        then (let t' = record t { rows = update_rows i c t.rows } in (get missing i t', t'))
        else (raise conflict, t)
  ]

  -- `delete_*`
  unfoldable pub delete : ErrorCode → ℕ → Table C → Result (Unit {0}) × Table C
  unfolding get delete_rows
  delete missing i t = elim (get missing i t) [
    | err e ↦ (err e, t)
    | ok current ↦ (ok tt, record t { rows = delete_rows i t.rows })
  ]
