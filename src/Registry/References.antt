-- ===== src/Registry/References.antt =====
-- Referential integrity: no printer's default format or template is missing, after any method.
use vibe_printer.Prelude.{
  ℕ, ◌≡◌, refl, true, Option, none, some, arith, All-append, String, All-map, Bool-cases, inl, inr,
}
use vibe_printer.Errors.{Result-cases, unknown_printer, not_found}
use vibe_printer.Json.{Json, Fields}
use vibe_printer.Models.{Capabilities}
use vibe_printer.Registry.Versioned
use vibe_printer.Registry.Versioned.{Row, Table, select_row, update_rows, delete_rows}
use vibe_printer.Registry.Updates.{update_cases, delete_cases}
use vibe_printer.Registry.Config.{
  Printer, PrinterCreate, Format, Template, Registry, refers, keys_hold, create_printer,
  update_printer, patch_rows, patch_params, get_printer, set_capabilities, update_printer_params,
  delete_printer, unlink_format, create_format, update_format, delete_format, create_template,
  update_template, delete_template, unlink_template, create_overlay, update_overlay, delete_overlay,
  update_device, Overlay, restart_ids,
}
use vibe_printer.Registry.Keys.{
  KeyHold, IsLinked, update_rows-KeyHold, patch_rows-KeyHold, delete_rows-KeyHold, refers-insert,
  refers-update, refers-delete, KeyHold-map,
}

-- A call of a method of the class Registry that writes.
pub data Call : Type 0 where
  make_printer : PrinterCreate → Call
  change_printer : (i supplied : ℕ) → PrinterCreate → Call
  cache_capabilities : ℕ → Capabilities → Call
  patch_printer : ℕ → Fields → Call
  drop_printer drop_format drop_template drop_overlay : ℕ → Call
  make_format : Format → Call
  change_format : (i supplied : ℕ) → Format → Call
  make_template : Template → Call
  change_template : (i supplied : ℕ) → Template → Call
  make_overlay : Overlay → Call
  change_overlay : (i supplied : ℕ) → Overlay → Call
  change_device : (name timezone : String) → Json → ℕ → Call

-- The registry after the call, whether it returns or raises.
unfoldable pub after : Call → Registry → Registry
after (make_printer p) g = (create_printer p g).1
after (change_printer i v p) g = (update_printer i v p g).1
after (cache_capabilities i caps) g = set_capabilities i caps g
after (patch_printer i patch) g = (update_printer_params i patch g).1
after (drop_printer i) g = (delete_printer i g).1
after (make_format f) g = (create_format f g).1
after (change_format i v f) g = (update_format i v f g).1
after (drop_format i) g = (delete_format i g).1
after (make_template f) g = (create_template f g).1
after (change_template i v f) g = (update_template i v f g).1
after (drop_template i) g = (delete_template i g).1
after (make_overlay o) g = (create_overlay o g).1
after (change_overlay i v o) g = (update_overlay i v o g).1
after (drop_overlay i) g = (delete_overlay i g).1
after (change_device name timezone config v) g = (update_device name timezone config v g).1

create_printer-IsLinked :
    (p : PrinterCreate) (g : Registry) → IsLinked g → IsLinked (create_printer p g).1
unfolding create_printer Versioned.create
create_printer-IsLinked p g h = elim (Bool-cases (keys_hold g p)) [
  | inr e ↦ rw e h
  | inl e ↦ rw e (
      All-append (KeyHold g.formats g.templates) g.printers.rows _ h
        (unfold keys_hold in ground arith))
]

update_printer-IsLinked :
    (i v : ℕ) (p : PrinterCreate) (g : Registry) → IsLinked g → IsLinked (update_printer i v p g).1
unfolding update_printer
update_printer-IsLinked i v p g h =
    let c : Printer = record { config = p; capabilities = none } in
    elim (update_cases unknown_printer i v c g.printers) [
      | inl (x, e) ↦ rw (e, update_printer) h
      | inr (r, e) ↦ elim (Bool-cases (keys_hold g p)) [
        | inr k ↦ rw (e, update_printer, k) h
        | inl k ↦
            rw (e, update_printer, k)
              (rw e (
                update_rows-KeyHold g.formats g.templates i c g.printers.rows
                  (unfold keys_hold in ground arith) (unfold keys_hold in ground arith) h))
      ]
    ]

patch-IsLinked :
    (i : ℕ) (set : Printer → Printer) (g : Registry)
    → ((p : Printer)
        → ((set p).config.default_format_id ≡ p.config.default_format_id)
          × ((set p).config.default_template_id ≡ p.config.default_template_id))
    → IsLinked g
    → IsLinked
        (record g { printers = record g.printers { rows = patch_rows i set g.printers.rows } })
patch-IsLinked i set g same h =
    patch_rows-KeyHold g.formats g.templates i set g.printers.rows same h

update_printer_params-IsLinked :
    (i : ℕ) (patch : Fields) (g : Registry)
    → IsLinked g
    → IsLinked (update_printer_params i patch g).1
unfolding update_printer_params
update_printer_params-IsLinked i patch g h = elim (Result-cases (get_printer i g)) [
  | inl (r, e) ↦
      rw (e, update_printer_params) (patch-IsLinked i (patch_params patch) g (λ p. (refl, refl)) h)
  | inr (x, e) ↦ rw (e, update_printer_params) h
]

restart_ids-rows : {C : Type 0} (t : Table C) → (restart_ids t).rows ≡ t.rows
unfolding restart_ids
restart_ids-rows t = ground arith

delete_printer-IsLinked : (i : ℕ) (g : Registry) → IsLinked g → IsLinked (delete_printer i g).1
unfolding delete_printer
delete_printer-IsLinked i g h = elim (delete_cases unknown_printer i g.printers) [
  | inl (x, e) ↦ rw (e, delete_printer) h
  | inr e ↦
      rw (e, delete_printer)
        (rw restart_ids-rows (rw e (delete_rows-KeyHold g.formats g.templates i g.printers.rows h)))
]

formats-IsLinked :
    (g : Registry) (f : Table Format)
    → ((o : Option ℕ) → refers g.formats o ≡ true → refers f o ≡ true)
    → IsLinked g
    → IsLinked (record g { formats = f })
formats-IsLinked g f grow h =
    All-map (KeyHold g.formats g.templates) (KeyHold f g.templates)
      (λ r k. (grow r.content.config.default_format_id k.0, k.1)) g.printers.rows h

templates-IsLinked :
    (g : Registry) (t : Table Template)
    → ((o : Option ℕ) → refers g.templates o ≡ true → refers t o ≡ true)
    → IsLinked g
    → IsLinked (record g { templates = t })
templates-IsLinked g t grow h =
    All-map (KeyHold g.formats g.templates) (KeyHold g.formats t)
      (λ r k. (k.0, grow r.content.config.default_template_id k.1)) g.printers.rows h

delete_format-IsLinked : (i : ℕ) (g : Registry) → IsLinked g → IsLinked (delete_format i g).1
unfolding delete_format
delete_format-IsLinked i g h = elim (delete_cases not_found i g.formats) [
  | inl (x, e) ↦ rw (e, delete_format) h
  | inr e ↦
      rw (e, delete_format)
        (rw e (
          KeyHold-map g.formats (record g.formats { rows = delete_rows i g.formats.rows })
            g.templates g.templates (unlink_format i)
            (λ r k. (refers-delete g.formats i r.content.config.default_format_id k.0, k.1))
            g.printers.rows h))
]

delete_template-IsLinked : (i : ℕ) (g : Registry) → IsLinked g → IsLinked (delete_template i g).1
unfolding delete_template
delete_template-IsLinked i g h = elim (delete_cases not_found i g.templates) [
  | inl (x, e) ↦ rw (e, delete_template) h
  | inr e ↦
      rw (e, delete_template)
        (rw e (
          KeyHold-map g.formats g.formats g.templates
            (record g.templates { rows = delete_rows i g.templates.rows }) (unlink_template i)
            (λ r k. (k.0, refers-delete g.templates i r.content.config.default_template_id k.1))
            g.printers.rows h))
]

update_format-IsLinked :
    (i v : ℕ) (f : Format) (g : Registry) → IsLinked g → IsLinked (update_format i v f g).1
unfolding update_format
update_format-IsLinked i v f g h = elim (update_cases not_found i v f g.formats) [
  | inl (x, e) ↦ rw e h
  | inr (r, e) ↦ rw e (
      formats-IsLinked g (record g.formats { rows = update_rows i f g.formats.rows })
        (refers-update g.formats i f) h)
]

update_template-IsLinked :
    (i v : ℕ) (t : Template) (g : Registry) → IsLinked g → IsLinked (update_template i v t g).1
unfolding update_template
update_template-IsLinked i v t g h = elim (update_cases not_found i v t g.templates) [
  | inl (x, e) ↦ rw e h
  | inr (r, e) ↦ rw e (
      templates-IsLinked g (record g.templates { rows = update_rows i t g.templates.rows })
        (refers-update g.templates i t) h)
]

-- Every method, whether it returns or raises, leaves each printer's default format and default
-- template null or present, if they were so before it.
pub after-IsLinked : (c : Call) (g : Registry) → IsLinked g → IsLinked (after c g)
unfolding after
after-IsLinked (make_printer p) g h = create_printer-IsLinked p g h
after-IsLinked (change_printer i v p) g h = update_printer-IsLinked i v p g h
after-IsLinked (cache_capabilities i caps) g h =
    unfold set_capabilities in
    patch-IsLinked i (λ p. record p { capabilities = some caps }) g (λ p. (refl, refl)) h
after-IsLinked (patch_printer i patch) g h = update_printer_params-IsLinked i patch g h
after-IsLinked (drop_printer i) g h = delete_printer-IsLinked i g h
after-IsLinked (make_format f) g h =
    unfold create_format Versioned.create in formats-IsLinked g _ (refers-insert g.formats _ _) h
after-IsLinked (change_format i v f) g h = update_format-IsLinked i v f g h
after-IsLinked (drop_format i) g h = delete_format-IsLinked i g h
after-IsLinked (make_template f) g h =
    unfold create_template Versioned.create in
    templates-IsLinked g _ (refers-insert g.templates _ _) h
after-IsLinked (change_template i v f) g h = update_template-IsLinked i v f g h
after-IsLinked (drop_template i) g h = delete_template-IsLinked i g h
after-IsLinked (make_overlay o) g h = unfold create_overlay in h
after-IsLinked (change_overlay i v o) g h = unfold update_overlay in h
after-IsLinked (drop_overlay i) g h = unfold delete_overlay in h
after-IsLinked (change_device name timezone config v) g h = unfold update_device in ground arith
