-- ===== src/Registry/Upserted.antt =====
-- An import of formats or templates as writes to one table, by name.
use vibe_printer.Prelude.{
  ℕ, ◌+◌, ◌≡◌, ◌≢◌, refl, String, none, some, List, [], ◌∷◌, ◌++◌, map, is_some, length,
  length-append, All, if◌then◌else◌, arith, Option-cases, inl, inr,
}
use vibe_printer.Errors.{ErrorCode, not_found, ok}
use vibe_printer.Registry.Versioned
use vibe_printer.Registry.Versioned.{Row, Table, select_row, update_rows, found}
use vibe_printer.Registry.Config.{
  Format, Template, Registry, create_format, update_format, create_template, update_template,
}
use vibe_printer.Registry.Updates.{select_row-append, select-update_rows}
use vibe_printer.Registry.Named.{
  IsNumbered, Rising-append, Rising-update_rows, length-update_rows, named-select_row,
  is_some-named-update_rows, is_some-named-append,
}
use vibe_printer.Registry.Yaml.{
  Entry, id_by_name, split, import_each, import_format, import_template, format_id_by_name,
  template_id_by_name,
}

-- The row of an import: appended under a new id, or written over the first row of its name.
abbrev pub upserted : {C : Type 0} → (C → String) → C → Table C → Table C
upserted name_of c t = elim (id_by_name name_of (name_of c) t.rows) [
  | none ↦ record {
    rows = t.rows ++ (record { id = t.sequence + 1; version = 1; content = c } ∷ []);
    sequence = t.sequence + 1;
  }
  | some i ↦ record t { rows = update_rows i c t.rows }
]

-- An entry with a name, of which the request model makes a value.
abbrev pub entry : {C : Type 0} → String → C → Entry C
entry n c = record { entry_name = ok n; body = ok c }

-- Entries that name what they hold.
abbrev pub entries : {C : Type 0} → (C → String) → List C → List (Entry C)
entries name_of cs = map (λ c. entry (name_of c) c) cs

module _ {C : Type 0} (missing : ErrorCode) (c : C) (t : Table C) where
  pub created :
      (r : Row C) × (Versioned.create missing c t ≡ (
        ok r,
        record {
          rows = t.rows ++ (record { id = t.sequence + 1; version = 1; content = c } ∷ []);
          sequence = t.sequence + 1;
        },
      ))
  unfolding Versioned.create
  created = elim (Option-cases (select_row (t.sequence + 1) t.rows)) [
    | inl free ↦ (
      record { id = t.sequence + 1; version = 1; content = c },
      ground (
        arith,
        select_row-append (t.sequence + 1) t.rows
            (record { id = t.sequence + 1; version = 1; content = c }),
      ),
    )
    | inr (q, taken) ↦ (
      q,
      ground (
        arith,
        select_row-append (t.sequence + 1) t.rows
            (record { id = t.sequence + 1; version = 1; content = c }),
      ),
    )
  ]

  pub updated :
      (i : ℕ) (cur : Row C)
      → select_row i t.rows ≡ some cur
      → (Versioned.get missing i t ≡ ok cur)
        × ((r : Row C) × (Versioned.update missing i cur.version c t
              ≡ (ok r, record t { rows = update_rows i c t.rows })))
  unfolding Versioned.update Versioned.get
  updated i cur here = (
    rw here refl,
    (
      record cur { version = cur.version + 1; content = c },
      ground (arith, select-update_rows i i c t.rows),
    ),
  )

pub import_format-upserted :
    (f : Format) (g : Registry)
    → import_format (entry f.name f) g
      ≡ (ok tt, record g { formats = upserted Format.name f g.formats })
unfolding import_format format_id_by_name create_format update_format
import_format-upserted f g = elim (Option-cases (id_by_name Format.name f.name g.formats.rows)) [
  | inl new ↦ rw (new, import_format, upserted, (created not_found f g.formats).1) refl
  | inr (i, old) ↦
      let (cur, here) = named-select_row Format.name i f.name g.formats.rows old in
      let (got, (r, put)) = updated not_found f g.formats i cur here in
      rw (old, import_format, upserted, got, put) refl
]

import_template-upserted :
    (f : Template) (g : Registry)
    → import_template (entry f.name f) g
      ≡ (ok tt, record g { templates = upserted Template.name f g.templates })
unfolding import_template template_id_by_name create_template update_template
import_template-upserted f g =
    elim (Option-cases (id_by_name Template.name f.name g.templates.rows)) [
      | inl new ↦ rw (new, import_template, upserted, (created not_found f g.templates).1) refl
      | inr (i, old) ↦
          let (cur, here) = named-select_row Template.name i f.name g.templates.rows old in
          let (got, (r, put)) = updated not_found f g.templates i cur here in
          rw (old, import_template, upserted, got, put) refl
    ]

unfoldable pub upsert_all : {C : Type 0} → (C → String) → List C → Table C → Table C
upsert_all name_of [] t = t
upsert_all name_of (c ∷ cs) t = upsert_all name_of cs (upserted name_of c t)

pub import_formats :
    (fs : List Format) (g : Registry)
    → import_each import_format (entries Format.name fs) g
      ≡ (ok tt, record g { formats = upsert_all Format.name fs g.formats })
unfolding import_each upsert_all
import_formats [] g = refl
import_formats (f ∷ fs) g =
    rw (import_each, import_format-upserted f g)
      (import_formats fs (record g { formats = upserted Format.name f g.formats }))

pub import_templates :
    (fs : List Template) (g : Registry)
    → import_each import_template (entries Template.name fs) g
      ≡ (ok tt, record g { templates = upsert_all Template.name fs g.templates })
unfolding import_each upsert_all
import_templates [] g = refl
import_templates (f ∷ fs) g =
    rw (import_each, import_template-upserted f g)
      (import_templates fs (record g { templates = upserted Template.name f g.templates }))

-- The names of a list are pairwise different.
abbrev pub Distinct : {C : Type 0} → (C → String) → List C → Type 0
Distinct name_of [] = Unit
Distinct name_of (c ∷ cs) = All (λ d. name_of c ≢ name_of d) cs × Distinct name_of cs

module _ {C : Type 0} (name_of : C → String) where
  pub creates : List C → List (Row C) → ℕ
  creates [] rows = 0
  creates (c ∷ cs) rows =
      (if is_some (id_by_name name_of (name_of c) rows) then 0 else 1) + creates cs rows

  pub updates : List C → List (Row C) → ℕ
  updates [] rows = 0
  updates (c ∷ cs) rows =
      (if is_some (id_by_name name_of (name_of c) rows) then 1 else 0) + updates cs rows

  pub split-creates :
      (cs : List C) (rows : List (Row C))
      → split (λ n. id_by_name name_of n rows) (entries name_of cs)
        ≡ ok (record { create = creates cs rows; update = updates cs rows })
  unfolding split creates updates
  split-creates [] rows = refl
  split-creates (c ∷ cs) rows =
      rw (split-creates cs rows) (elim (Option-cases (id_by_name name_of (name_of c) rows)) [
        | inl new ↦ rw new (ground arith)
        | inr (i, old) ↦ rw old (ground arith)
      ])

  pub creates-add-updates :
      (cs : List C) (rows : List (Row C)) → creates cs rows + updates cs rows ≡ length cs
  unfolding creates updates
  creates-add-updates [] rows = refl
  creates-add-updates (c ∷ cs) rows = ground (arith, creates-add-updates cs rows)

  upserted-IsNumbered : (c : C) (t : Table C) → IsNumbered t → IsNumbered (upserted name_of c t)
  upserted-IsNumbered c t h = elim (Option-cases (id_by_name name_of (name_of c) t.rows)) [
    | inl new ↦
        rw (new, upserted)
          (Rising-append 0 t.sequence t.rows
            (record { id = t.sequence + 1; version = 1; content = c }) h (omega arith))
    | inr (i, old) ↦ rw (old, upserted) (Rising-update_rows 0 t.sequence i c t.rows h)
  ]

  is_some-upserted :
      (c : C) (m : String) (t : Table C)
      → IsNumbered t
      → name_of c ≢ m
      → is_some (id_by_name name_of m (upserted name_of c t).rows)
        ≡ is_some (id_by_name name_of m t.rows)
  is_some-upserted c m t h ne = elim (Option-cases (id_by_name name_of (name_of c) t.rows)) [
    | inl new ↦
        rw (new, upserted)
          (is_some-named-append name_of m t.rows
            (record { id = t.sequence + 1; version = 1; content = c }) ne)
    | inr (i, old) ↦
        rw (old, upserted)
          (is_some-named-update_rows name_of 0 t.sequence i (name_of c) m c t.rows h old refl ne)
  ]

  creates-upserted :
      (c : C) (cs : List C) (t : Table C)
      → IsNumbered t
      → All (λ d. name_of c ≢ name_of d) cs
      → creates cs (upserted name_of c t).rows ≡ creates cs t.rows
  unfolding creates
  creates-upserted c [] t h apart = refl
  creates-upserted c (d ∷ cs) t h apart =
      rw (is_some-upserted c (name_of d) t h apart.0, creates-upserted c cs t h apart.1) refl

  length-upserted :
      (c : C) (t : Table C)
      → length (upserted name_of c t).rows
        ≡ length t.rows + (if is_some (id_by_name name_of (name_of c) t.rows) then 0 else 1)
  length-upserted c t = elim (Option-cases (id_by_name name_of (name_of c) t.rows)) [
    | inl new ↦ rw (new, upserted, length-append) (omega arith)
    | inr (i, old) ↦ rw (old, upserted, length-update_rows) (omega arith)
  ]

  pub length-upsert_all :
      (cs : List C) (t : Table C)
      → IsNumbered t
      → Distinct name_of cs
      → length (upsert_all name_of cs t).rows ≡ length t.rows + creates cs t.rows
  unfolding upsert_all creates
  length-upsert_all [] t h d = omega arith
  length-upsert_all (c ∷ cs) t h d = omega (
    arith,
    length-upsert_all cs (upserted name_of c t) (upserted-IsNumbered c t h) d.1,
    length-upserted c t,
    creates-upserted c cs t h d.0,
  )
