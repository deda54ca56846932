-- ===== src/Registry/Planned.antt =====
-- An import against the plan that it shows.
use vibe_printer.Prelude.{◌≡◌, false, List, []}
use vibe_printer.Errors.{ok}
use vibe_printer.Registry.Config.{Format, Template, Registry}
use vibe_printer.Registry.Upserted.{entries, upsert_all, creates, updates}
use vibe_printer.Registry.Yaml.{Document, Plan, plan_of, import_doc, import_yaml}

abbrev pub without_printers : List Format → List Template → Document
without_printers fs ts = record {
  formats = entries Format.name fs;
  templates = entries Template.name ts;
  printers = [];
}

pub import_yaml-runs :
    (doc : Document) (g h : Registry) (p : Plan)
    → plan_of false doc g ≡ ok p
    → import_doc doc g ≡ (ok tt, h)
    → import_yaml (ok doc) false g ≡ (ok p, h)
unfolding import_yaml
import_yaml-runs doc g h p plans runs = rw (import_yaml, plans, runs) (cc)

module _ (fs : List Format) (ts : List Template) (g : Registry) where
  planned : Plan
  planned = record {
    formats = record {
      create = creates Format.name fs g.formats.rows;
      update = updates Format.name fs g.formats.rows;
    };
    templates = record {
      create = creates Template.name ts g.templates.rows;
      update = updates Template.name ts g.templates.rows;
    };
    printers = record { create = 0; update = 0 };
    dry_run = false;
  }

  imported : Registry
  imported = record g {
    formats = upsert_all Format.name fs g.formats;
    templates = upsert_all Template.name ts g.templates;
  }
