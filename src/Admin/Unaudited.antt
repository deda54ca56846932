-- ===== src/Admin/Unaudited.antt =====
-- An import that fails on the way.
use vibe_printer.Prelude.{
  ◌≡◌, refl, true, false, String, List, [], ◌∷◌, ◌++◌, Option-cases, inl, inr,
}
use vibe_printer.Errors.{Failure, not_found, Result, ok, err}
use vibe_printer.Json.{Json, bool, str, Fields, truthy}
use vibe_printer.Json.Values.{get_or}
use vibe_printer.Registry.Config.{Format, Registry}
use vibe_printer.Registry.Named.{named-select_row}
use vibe_printer.Registry.Upserted.{entries, upsert_all, upserted, updated, import_format-upserted}
use vibe_printer.Registry.Yaml.{
  Entry, Document, Plan, id_by_name, format_id_by_name, import_each, import_format, plan_of,
  import_doc, import_yaml,
}
use vibe_printer.Admin.{AdminState, Request}
use vibe_printer.Admin.Importing.{import_config}

-- An entry that its request model refuses writes nothing.
refused_format :
    (bad : Entry Format) (n : String) (x : Failure) (g : Registry)
    → bad.entry_name ≡ ok n
    → bad.body ≡ err x
    → import_format bad g ≡ (err x, g)
unfolding import_format format_id_by_name
refused_format bad n x g named refused =
    elim (Option-cases (id_by_name Format.name n g.formats.rows)) [
      | inl new ↦ rw (import_format, named, new, refused) refl
      | inr (i, old) ↦
          let (cur, here) = named-select_row Format.name i n g.formats.rows old in
          let (got, _) = updated not_found cur.content g.formats i cur here in
          rw (import_format, named, old, got, refused) refl
    ]

partial_formats :
    (fs : List Format) (bad : Entry Format) (rest : List (Entry Format)) (n : String) (x : Failure)
    (g : Registry)
    → bad.entry_name ≡ ok n
    → bad.body ≡ err x
    → import_each import_format (entries Format.name fs ++ bad ∷ rest) g
      ≡ (err x, record g { formats = upsert_all Format.name fs g.formats })
unfolding import_each upsert_all
partial_formats [] bad rest n x g named refused =
    rw (import_each, refused_format bad n x g named refused) refl
partial_formats (f ∷ fs) bad rest n x g named refused =
    rw (import_each, import_format-upserted f g)
      (partial_formats fs bad rest n x (record g { formats = upserted Format.name f g.formats })
        named refused)

partial_import :
    (doc : Document) (fs : List Format) (bad : Entry Format) (rest : List (Entry Format))
    (n : String) (x : Failure) (p : Plan) (g : Registry)
    → doc.formats ≡ entries Format.name fs ++ bad ∷ rest
    → bad.entry_name ≡ ok n
    → bad.body ≡ err x
    → plan_of false doc g ≡ ok p
    → import_yaml (ok doc) false g
      ≡ (err x, record g { formats = upsert_all Format.name fs g.formats })
unfolding import_yaml import_doc
partial_import doc fs bad rest n x p g formats named refused plans =
    let stops : import_doc doc g
        ≡ (err x, record g { formats = upsert_all Format.name fs g.formats }) =
      rw (import_doc, formats, partial_formats fs bad rest n x g named refused) refl in
    rw (import_yaml, plans, stops) (cc)

-- An import that is not a dry run and comes to a format that its request model refuses, behind formats
-- that are accepted: it ends with the exception, and the formats before have been written, while the
-- config audit is as it was.
pub import_unaudited :
    (q : Request) (read_yaml : Json → Result Document) (diff_of : Plan → String) (body : Fields)
    (s : AdminState) (doc : Document) (fs : List Format) (bad : Entry Format)
    (rest : List (Entry Format)) (n : String) (x : Failure) (p : Plan)
    → truthy (get_or "dry_run" (bool true) body) ≡ false
    → read_yaml (get_or "yaml" (str "") body) ≡ ok doc
    → doc.formats ≡ entries Format.name fs ++ bad ∷ rest
    → bad.entry_name ≡ ok n
    → bad.body ≡ err x
    → plan_of false doc s.registry ≡ ok p
    → import_config q read_yaml diff_of body s ≡ (
      err x,
      record s {
        registry = record s.registry { formats = upsert_all Format.name fs s.registry.formats };
      },
    )
unfolding import_config
import_unaudited q read_yaml diff_of body s doc fs bad rest n x p real reads formats named refused
      plans =
    let stops = partial_import doc fs bad rest n x p s.registry formats named refused plans in
    rw (import_config, real, reads, stops) (cc)
