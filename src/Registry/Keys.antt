-- ===== src/Registry/Keys.antt =====
-- The foreign keys of the printers, under writes to the tables they stand in and point into.
use vibe_printer.Prelude.{
  ℕ, ◌≡◌, refl, true, Option, none, some, List, [], ◌∷◌, ◌++◌, ◌==◌, arith, All, map, Bool-cases,
  inl, inr,
}
use vibe_printer.Registry.Versioned.{Row, Table, update_rows, delete_rows}
use vibe_printer.Registry.Updates.{select-update_rows, select-delete_rows, select_row-append}
use vibe_printer.Registry.Config.{Printer, Format, Template, Registry, refers, patch_rows, unlink}

-- The keys of one printer, over the two tables that they point into.
abbrev pub KeyHold : Table Format → Table Template → Row Printer → Type 0
KeyHold f t r =
    (refers f r.content.config.default_format_id ≡ true)
    × (refers t r.content.config.default_template_id ≡ true)

abbrev pub IsLinked : Registry → Type 0
IsLinked g = All (KeyHold g.formats g.templates) g.printers.rows

module _ (f : Table Format) (t : Table Template) where
  pub update_rows-KeyHold :
      (i : ℕ) (p : Printer) (rows : List (Row Printer))
      → refers f p.config.default_format_id ≡ true
      → refers t p.config.default_template_id ≡ true
      → All (KeyHold f t) rows
      → All (KeyHold f t) (update_rows i p rows)
  unfolding update_rows
  update_rows-KeyHold i p [] a b h = tt
  update_rows-KeyHold i p (r ∷ rows) a b h = (ground arith, update_rows-KeyHold i p rows a b h.1)

  pub patch_rows-KeyHold :
      (i : ℕ) (set : Printer → Printer) (rows : List (Row Printer))
      → ((p : Printer)
          → ((set p).config.default_format_id ≡ p.config.default_format_id)
            × ((set p).config.default_template_id ≡ p.config.default_template_id))
      → All (KeyHold f t) rows
      → All (KeyHold f t) (patch_rows i set rows)
  unfolding patch_rows
  patch_rows-KeyHold i set [] same h = tt
  patch_rows-KeyHold i set (r ∷ rows) same h =
      (ground (arith, same r.content), patch_rows-KeyHold i set rows same h.1)

  pub delete_rows-KeyHold :
      (i : ℕ) (rows : List (Row Printer))
      → All (KeyHold f t) rows
      → All (KeyHold f t) (delete_rows i rows)
  unfolding delete_rows
  delete_rows-KeyHold i [] h = tt
  delete_rows-KeyHold i (r ∷ rows) h = elim (Bool-cases (r.id == i)) [
    | inl e ↦ rw e (delete_rows-KeyHold i rows h.1)
    | inr e ↦ rw e (h.0, delete_rows-KeyHold i rows h.1)
  ]

module _ {C : Type 0} (t : Table C) where
  pub refers-insert :
      (r : Row C) (n : ℕ) (o : Option ℕ)
      → refers t o ≡ true
      → refers (record { rows = t.rows ++ r ∷ []; sequence = n }) o ≡ true
  unfolding refers
  refers-insert r n none h = refl
  refers-insert r n (some k) h = ground (arith, select_row-append k t.rows r)

  pub refers-update :
      (i : ℕ) (c : C) (o : Option ℕ)
      → refers t o ≡ true
      → refers (record t { rows = update_rows i c t.rows }) o ≡ true
  unfolding refers
  refers-update i c none h = refl
  refers-update i c (some k) h = ground (arith, select-update_rows i k c t.rows)

  pub refers-delete :
      (i : ℕ) (o : Option ℕ)
      → refers t o ≡ true
      → refers (record t { rows = delete_rows i t.rows }) (unlink i o) ≡ true
  unfolding refers unlink
  refers-delete i none h = refl
  refers-delete i (some k) h = ground (arith, select-delete_rows i k t.rows)

-- A write to the two tables that keys point into, with what it does to each key.
pub KeyHold-map :
    (f f' : Table Format) (t t' : Table Template) (set : Row Printer → Row Printer)
    → ((r : Row Printer) → KeyHold f t r → KeyHold f' t' (set r))
    → (rows : List (Row Printer)) → All (KeyHold f t) rows
    → All (KeyHold f' t') (map set rows)
KeyHold-map f f' t t' set step [] h = tt
KeyHold-map f f' t t' set step (r ∷ rows) h = (step r h.0, KeyHold-map f f' t t' set step rows h.1)
