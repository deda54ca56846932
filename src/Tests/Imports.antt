-- ===== src/Tests/Imports.antt =====
-- The theorems on the import of a configuration, applied.
use vibe_printer.Prelude.{◌≡◌, refl, false, [], ◌∷◌, ◌++◌}
use vibe_printer.Errors.{Failure, ok, err}
use vibe_printer.Json.{bool, end, field, truthy, get_field}
use vibe_printer.Json.Values.{get_or}
use vibe_printer.Registry.Config.{Format, Registry}
use vibe_printer.Registry.Upserted.{upsert_all, entries}
use vibe_printer.Registry.Yaml.{Document, Entry, plan_of, split, id_by_name, format_id_by_name}
use vibe_printer.Admin.Importing.{import_config}
use vibe_printer.Admin.Unaudited.{import_unaudited}
use vibe_printer.Tests.{shop, slip}
use vibe_printer.Tests.Admin.{office, request}

abbrev note : Format
note = record slip { name = "note" }

abbrev refused : Entry Format
refused = record { entry_name = ok "bad"; body = err (Failure.other_exception "ValidationError") }

abbrev two_formats : Document
two_formats = record {
  formats = entries Format.name (note ∷ []) ++ refused ∷ [];
  templates = [];
  printers = [];
}

import_unaudited_example :
    import_config request
      (λ text. ok two_formats)
      (λ p. "plan")
      (field "dry_run" (bool false) end)
      office
    ≡ (
      err (Failure.other_exception "ValidationError"),
      record office {
        registry = record shop { formats = upsert_all Format.name (note ∷ []) shop.formats };
      },
    )
import_unaudited_example =
    import_unaudited request (λ text. ok two_formats) (λ p. "plan")
      (field "dry_run" (bool false) end) office two_formats (note ∷ []) refused [] "bad"
      (Failure.other_exception "ValidationError")
      (record {
        formats = record { create = 2; update = 0 };
        templates = record { create = 0; update = 0 };
        printers = record { create = 0; update = 0 };
        dry_run = false;
      })
      (unfold truthy get_or get_field in refl) refl refl refl refl
      (unfold plan_of split format_id_by_name id_by_name in refl)
