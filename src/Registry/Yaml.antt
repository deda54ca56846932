-- ===== src/Registry/Yaml.antt =====
-- app/registry.py: import_yaml, and the two handlers of app/admin.py that import. The YAML
-- parser and the request models stand outside: an `Entry` of the document is the name that `it["name"]`
-- gives, or its KeyError, and the request that the model makes of the entry, or its exception.
use vibe_printer.Prelude.{
  ℕ, ◌+◌, Bool, String, Option, none, some, List, [], ◌∷◌, str_eq, if◌then◌else◌,
}
use vibe_printer.Errors.{not_found, Result, ok, err, ◌>>=◌}
use vibe_printer.Registry.Versioned
use vibe_printer.Registry.Versioned.{Row}
use vibe_printer.Registry.Config.{
  PrinterCreate, Printer, Format, Template, Registry, create_printer, update_printer, create_format,
  update_format, create_template, update_template, get_printer,
}

pub record Entry (C : Type 0) : Type 0 where
  pub entry_name : Result String
  pub body : Result C

-- The three lists of the document that are read; a list that is missing is empty.
pub record Document : Type 0 where
  pub formats : List (Entry Format)
  pub templates : List (Entry Template)
  pub printers : List (Entry PrinterCreate)

-- How many entries name no row, and how many name one.
pub record Split : Type 0 where
  pub create : ℕ
  pub update : ℕ

pub record Plan : Type 0 where
  pub formats : Split
  pub templates : Split
  pub printers : Split
  pub dry_run : Bool

-- SELECT id FROM t WHERE name=?, its first row.
unfoldable pub id_by_name : {C : Type 0} → (C → String) → String → List (Row C) → Option ℕ
id_by_name name_of n [] = none
id_by_name name_of n (r ∷ rows) =
    let rest = id_by_name name_of n rows in if str_eq (name_of r.content) n then some r.id else rest

abbrev pub printer_name : Printer → String
printer_name p = p.config.name

unfoldable pub format_id_by_name : String → Registry → Option ℕ
unfolding id_by_name
format_id_by_name n g = id_by_name Format.name n g.formats.rows

unfoldable pub template_id_by_name : String → Registry → Option ℕ
unfolding id_by_name
template_id_by_name n g = id_by_name Template.name n g.templates.rows

unfoldable pub printer_id_by_name : String → Registry → Option ℕ
unfolding id_by_name
printer_id_by_name n g = id_by_name printer_name n g.printers.rows

abbrev pub counted : Option ℕ → Split → Split
counted none s = record s { create = s.create + 1 }
counted (some i) s = record s { update = s.update + 1 }

unfoldable pub split : {C : Type 0} → (String → Option ℕ) → List (Entry C) → Result Split
split find [] = ok (record { create = 0; update = 0 })
split find (e ∷ es) =
    let rest = split find es in (do n ← e.entry_name; s ← rest; ok (counted (find n) s))

abbrev pub forget : {A : Type 0} → Result A × Registry → Result (Unit {0}) × Registry
forget (ok a, g) = (ok tt, g)
forget (err e, g) = (err e, g)

-- A value that a request model makes, given to a method of the registry.
abbrev pub with_body :
    {C : Type 0}
    → Result C
    → (C → Registry → Result (Unit {0}) × Registry)
    → Registry
    → Result (Unit {0}) × Registry
with_body (err e) next g = (err e, g)
with_body (ok c) next g = next c g

-- One turn of the loop over the formats.
unfoldable pub import_format : Entry Format → Registry → Result (Unit {0}) × Registry
unfolding format_id_by_name
import_format e g = elim e.entry_name [
  | err x ↦ (err x, g)
  | ok n ↦ elim (format_id_by_name n g) [
    | none ↦ with_body e.body (λ f h. forget (create_format f h)) g
    | some i ↦ elim (Versioned.get not_found i g.formats) [
      | err x ↦ (err x, g)
      | ok cur ↦ with_body e.body (λ f h. forget (update_format i cur.version f h)) g
    ]
  ]
]

unfoldable pub import_template : Entry Template → Registry → Result (Unit {0}) × Registry
unfolding template_id_by_name
import_template e g = elim e.entry_name [
  | err x ↦ (err x, g)
  | ok n ↦ elim (template_id_by_name n g) [
    | none ↦ with_body e.body (λ f h. forget (create_template f h)) g
    | some i ↦ elim (Versioned.get not_found i g.templates) [
      | err x ↦ (err x, g)
      | ok cur ↦ with_body e.body (λ f h. forget (update_template i cur.version f h)) g
    ]
  ]
]

-- The params of a printer are validated before its name is looked up.
unfoldable pub import_printer : Entry PrinterCreate → Registry → Result (Unit {0}) × Registry
unfolding printer_id_by_name
import_printer e g = elim e.body [
  | err x ↦ (err x, g)
  | ok p ↦ elim e.entry_name [
    | err x ↦ (err x, g)
    | ok n ↦ elim (printer_id_by_name n g) [
      | none ↦ forget (create_printer p g)
      | some i ↦ elim (get_printer i g) [
        | err x ↦ (err x, g)
        | ok cur ↦ forget (update_printer i cur.version p g)
      ]
    ]
  ]
]

-- One write after another: an exception passes on, with what has been written.
abbrev pub and_then :
    Result (Unit {0}) × Registry
    → (Registry → Result (Unit {0}) × Registry)
    → Result (Unit {0}) × Registry
and_then (err x, g) next = (err x, g)
and_then (ok u, g) next = next g

-- A loop: an exception ends it, with what it has written.
unfoldable pub import_each :
    {C : Type 0}
    → (Entry C → Registry → Result (Unit {0}) × Registry)
    → List (Entry C)
    → Registry
    → Result (Unit {0}) × Registry
import_each step [] g = (ok tt, g)
import_each step (e ∷ es) g = and_then (step e g) (import_each step es)

unfoldable pub plan_of : (dry_run : Bool) → Document → Registry → Result Plan
unfolding split
plan_of dry_run doc g = do
  fs ← split (λ n. format_id_by_name n g) doc.formats
  ts ← split (λ n. template_id_by_name n g) doc.templates
  ps ← split (λ n. printer_id_by_name n g) doc.printers
  ok (record { formats = fs; templates = ts; printers = ps; dry_run = dry_run })

unfoldable pub import_doc : Document → Registry → Result (Unit {0}) × Registry
unfolding import_each
import_doc doc g =
    and_then
      (and_then (import_each import_format doc.formats g)
        (import_each import_template doc.templates))
      (import_each import_printer doc.printers)

-- `import_yaml` on what `yaml.safe_load` makes of the text.
unfoldable pub import_yaml : Result Document → (dry_run : Bool) → Registry → Result Plan × Registry
unfolding plan_of import_doc
import_yaml (err x) dry_run g = (err x, g)
import_yaml (ok doc) dry_run g = elim (plan_of dry_run doc g) [
  | err x ↦ (err x, g)
  | ok plan ↦
      if dry_run
      then (ok plan, g)
      else (let (r, h) = import_doc doc g in elim r [ err x ↦ (err x, h) | ok u ↦ (ok plan, h) ])
]
