-- ===== src/Registry/Named.antt =====
-- Rows looked up by name: what the two writes of an import do to a table.
use vibe_printer.Prelude.{
  ℕ, ◌≤◌, ◌<◌, ◌≡◌, ◌≢◌, refl, ap, true, false, String, Option, none, some, List, [], ◌∷◌, ◌++◌,
  ◌==◌, str_eq, eq_iff, is_some, length, arith, Bool-cases, inl, inr,
}
use vibe_printer.Registry.Versioned.{Row, Table, select_row, update_rows}
use vibe_printer.Registry.Yaml.{id_by_name}

-- The ids rise, from above `low` to at most `high`, as AUTOINCREMENT draws them.
abbrev pub Rising : {C : Type 0} → (low : ℕ) → List (Row C) → (high : ℕ) → Type 0
Rising low [] high = low ≤ high
Rising low (r ∷ rows) high = (low < r.id) × Rising r.id rows high

abbrev pub IsNumbered : {C : Type 0} → Table C → Type 0
IsNumbered t = Rising 0 t.rows t.sequence

module _ {C : Type 0} where
  Rising-le : (low high : ℕ) (rows : List (Row C)) → Rising low rows high → low ≤ high
  Rising-le low high [] h = h
  Rising-le low high (r ∷ rows) h = omega (arith, Rising-le r.id high rows h.1)

  pub Rising-append :
      (low high : ℕ) (rows : List (Row C)) (new : Row C)
      → Rising low rows high
      → high < new.id
      → Rising low (rows ++ new ∷ []) new.id
  Rising-append low high [] new h above = (omega arith, omega arith)
  Rising-append low high (r ∷ rows) new h above = (h.0, Rising-append r.id high rows new h.1 above)

  pub Rising-update_rows :
      (low high i : ℕ) (c : C) (rows : List (Row C))
      → Rising low rows high
      → Rising low (update_rows i c rows) high
  unfolding update_rows
  Rising-update_rows low high i c [] h = h
  Rising-update_rows low high i c (r ∷ rows) h = elim (Bool-cases (r.id == i)) [
    | inl here ↦ rw here (h.0, Rising-update_rows r.id high i c rows h.1)
    | inr not_here ↦ rw not_here (h.0, Rising-update_rows r.id high i c rows h.1)
  ]

  -- An id below all rows is written nowhere.
  pub update_rows-below :
      (low high i : ℕ) (c : C) (rows : List (Row C))
      → Rising low rows high
      → i ≤ low
      → update_rows i c rows ≡ rows
  unfolding update_rows
  update_rows-below low high i c [] h below = refl
  update_rows-below low high i c (r ∷ rows) h below =
      let other : (r.id == i) ≡ false = ground arith in
      rw other (ap (λ t. r ∷ t) (update_rows-below r.id high i c rows h.1 (omega arith)))

  pub length-update_rows :
      (i : ℕ) (c : C) (rows : List (Row C)) → length (update_rows i c rows) ≡ length rows
  unfolding update_rows
  length-update_rows i c [] = refl
  length-update_rows i c (r ∷ rows) = ap suc_of (length-update_rows i c rows)
    where
      suc_of : ℕ → ℕ
      suc_of n = ℕ.suc n

module _ {C : Type 0} (name_of : C → String) where
  abbrev named : String → List (Row C) → Option ℕ
  named n rows = id_by_name name_of n rows

  named-above :
      (low high i : ℕ) (n : String) (rows : List (Row C))
      → Rising low rows high
      → named n rows ≡ some i
      → low < i
  unfolding id_by_name
  named-above low high i n [] h at = absurd (cc)
  named-above low high i n (r ∷ rows) h at = elim (Bool-cases (str_eq (name_of r.content) n)) [
    | inl same ↦ ground arith
    | inr other ↦ omega (arith, named-above r.id high i n rows h.1 (ground arith))
  ]

  -- A row of that id is there.
  pub named-select_row :
      (i : ℕ) (n : String) (rows : List (Row C))
      → named n rows ≡ some i
      → (r : Row C) × (select_row i rows ≡ some r)
  unfolding id_by_name select_row
  named-select_row i n [] at = absurd (cc)
  named-select_row i n (r ∷ rows) at = elim (Bool-cases (r.id == i)) [
    | inl here ↦ (r, rw here refl)
    | inr not_here ↦ elim (Bool-cases (str_eq (name_of r.content) n)) [
      | inl same ↦ absurd (ground arith)
      | inr other ↦
          let (q, found_q) = named-select_row i n rows (ground arith) in (q, rw not_here found_q)
    ]
  ]

  -- Another name is found after a write to a row as it was before.
  pub is_some-named-update_rows :
      (low high i : ℕ) (n m : String) (c : C) (rows : List (Row C))
      → Rising low rows high
      → named n rows ≡ some i
      → name_of c ≡ n
      → n ≢ m
      → is_some (named m (update_rows i c rows)) ≡ is_some (named m rows)
  unfolding id_by_name update_rows
  is_some-named-update_rows low high i n m c [] h at mine ne = refl
  is_some-named-update_rows low high i n m c (r ∷ rows) h at mine ne =
      elim (Bool-cases (str_eq (name_of r.content) n)) [
        | inl same ↦
            let here : (r.id == i) ≡ true = ground arith in
            let before : str_eq (name_of r.content) m ≡ false =
              ground (arith, eq_iff (name_of r.content) n, eq_iff (name_of r.content) m) in
            let after : str_eq (name_of c) m ≡ false = ground (arith, eq_iff (name_of c) m) in
            rw (here, before, after)
              (ap (λ t. is_some (named m t))
                (update_rows-below r.id high i c rows h.1 (ground arith)))
        | inr other ↦
            let tail : named n rows ≡ some i = ground arith in
            let apart : (r.id == i) ≡ false =
              ground (arith, named-above r.id high i n rows h.1 tail) in
            elim (Bool-cases (str_eq (name_of r.content) m)) [
              | inl hit ↦ rw (apart, hit) refl
              | inr miss ↦
                  rw (apart, miss)
                    (is_some-named-update_rows r.id high i n m c rows h.1 tail mine ne)
            ]
      ]

  pub is_some-named-append :
      (m : String) (rows : List (Row C)) (new : Row C)
      → name_of new.content ≢ m
      → is_some (named m (rows ++ new ∷ [])) ≡ is_some (named m rows)
  unfolding id_by_name
  is_some-named-append m [] new ne = ground (arith, eq_iff (name_of new.content) m)
  is_some-named-append m (r ∷ rows) new ne = elim (Bool-cases (str_eq (name_of r.content) m)) [
    | inl hit ↦ rw hit refl
    | inr miss ↦ rw miss (is_some-named-append m rows new ne)
  ]

  -- The first row of a name, behind rows of other names.
  pub named-skip :
      (n : String) (r : Row C) (post pre : List (Row C))
      → named n pre ≡ none
      → name_of r.content ≡ n
      → named n (pre ++ r ∷ post) ≡ some r.id
  unfolding id_by_name
  named-skip n r post [] free mine = ground (arith, eq_iff (name_of r.content) n)
  named-skip n r post (q ∷ pre) free mine = elim (Bool-cases (str_eq (name_of q.content) n)) [
    | inl hit ↦ absurd (ground arith)
    | inr miss ↦ rw miss (named-skip n r post pre (ground arith) mine)
  ]
