-- ===== src/Pools.antt =====
-- app/pools.py: a pool printer routes a job to one of its members. `probe` is what asking a member's
-- backend for its status gives within three seconds: True only for a reply with `reachable` set.
pub mod Targets
pub mod Common
use vibe_printer.Prelude.{
  ℕ, zero, suc, ◌+◌, ◌%◌, Bool, true, false, ◌&&◌, String, Option, none, some, List, [], ◌∷◌, ◌++◌,
  ◌==◌, str_eq, if◌then◌else◌, length, take, drop, keep, every, map, min,
}
use vibe_printer.Errors.{validation_error, Failure, Result, ok, err, raise, ◌>>=◌}
use vibe_printer.Json.{Json, Items, Fields, null, bool, num, str, arr, obj, nil, cons, get_field}
use vibe_printer.Models.{PrinterType, pool, Capabilities, no_capabilities, ContentType}
use vibe_printer.Registry.Versioned.{Row}
use vibe_printer.Registry.Config.{Printer, Registry, get_printer}

unfoldable pub is_pool : PrinterType → Bool
is_pool pool = true
is_pool _ = false

-- `params.get("members", [])`: the ids, which the request model keeps to integers.
unfoldable pub ids_of : Items → List ℕ
ids_of nil = []
ids_of (cons (num i) rest) = i ∷ ids_of rest
ids_of (cons _ rest) = ids_of rest

unfoldable pub member_ids : Row Printer → List ℕ
unfolding ids_of get_field
member_ids p = elim (get_field "members" p.content.config.params) [
  | some (arr ids) ↦ ids_of ids
  | _ ↦ []
]

-- The loop of `_members`: a missing printer is skipped, a pool among the members is an error.
unfoldable pub members_from : Registry → List ℕ → Result (List (Row Printer))
unfolding get_printer is_pool
members_from g [] = ok []
members_from g (i ∷ ids) =
    let rest = members_from g ids in
    elim (get_printer i g) [
      | err e ↦ rest
      | ok m ↦
          if is_pool m.content.config.type
          then raise validation_error
          else (do ms ← rest; ok (m ∷ ms))
    ]

unfoldable pub members : Registry → Row Printer → Result (List (Row Printer))
members g p = members_from g (member_ids p)

-- The dict of round-robin cursors.
abbrev pub Cursors : Type 0
Cursors = List (ℕ × ℕ)

unfoldable pub cursor : ℕ → Cursors → ℕ
cursor p [] = 0
cursor p ((q, n) ∷ rest) = if q == p then n else cursor p rest

unfoldable pub set_cursor : ℕ → ℕ → Cursors → Cursors
set_cursor p n [] = (p, n) ∷ []
set_cursor p n ((q, k) ∷ rest) = if q == p then (q, n) ∷ rest else (q, k) ∷ set_cursor p n rest

unfoldable pub is_round_robin : Row Printer → Bool
unfolding get_field
is_round_robin p = elim (get_field "strategy" p.content.config.params) [
  | some (str s) ↦ str_eq s "round_robin"
  | _ ↦ false
]

-- Where a round starts, and the order in which the members are then asked.
unfoldable pub start_at : Row Printer → ℕ → Cursors → ℕ
unfolding cursor
start_at p n c = cursor p.id c % n

unfoldable pub asking_order : Row Printer → List (Row Printer) → Cursors → List (Row Printer)
unfolding is_round_robin start_at
asking_order p ms c =
    if is_round_robin p then (let i = start_at p (length ms) c in drop i ms ++ take i ms) else ms

unfoldable pub next_cursors : Row Printer → ℕ → Cursors → Cursors
unfolding is_round_robin start_at set_cursor
next_cursors p n c = if is_round_robin p then set_cursor p.id ((start_at p n c + 1) % n) c else c

-- The outcome of `resolve_target`: a printer, PrinterUnreachable (which is retried), or another error.
pub data Target : Type 0 where
  found : Row Printer → Target
  unreachable : Target
  broken : Failure → Target

unfoldable pub first_reachable : (probe : ℕ → Bool) → List (Row Printer) → Target
first_reachable probe [] = unreachable
first_reachable probe (m ∷ ms) =
    let rest = first_reachable probe ms in if probe m.id then found m else rest

unfoldable pub choose :
    (probe : ℕ → Bool) → Row Printer → List (Row Printer) → Cursors → Target × Cursors
choose probe p [] c = (unreachable, c)
choose probe p (m ∷ ms) c =
    (first_reachable probe (asking_order p (m ∷ ms) c), next_cursors p (length (m ∷ ms)) c)

unfoldable pub resolve_target :
    (probe : ℕ → Bool) → Registry → Row Printer → Cursors → Target × Cursors
resolve_target probe g p c =
    if is_pool p.content.config.type
    then elim (members g p) [ err e ↦ (broken e, c) | ok ms ↦ choose probe p ms c ]
    else (found p, c)

-- `aggregate_capabilities`: what every member can do.
unfoldable pub has_format : String → List String → Bool
has_format f [] = false
has_format f (g ∷ gs) = if str_eq f g then true else has_format f gs

-- `min(c.columns for c in caps if c.columns)`: a missing or zero width does not count.
unfoldable pub least : List (Option ℕ) → Option ℕ
least [] = none
least (none ∷ rest) = least rest
least (some zero ∷ rest) = least rest
least (some (suc n) ∷ rest) = elim (least rest) [
  | none ↦ some (suc n)
  | some m ↦ some (min (suc n) m)
]

unfoldable pub common_barcodes : List String → List Capabilities → List String
unfolding has_format
common_barcodes acc [] = acc
common_barcodes acc (c ∷ rest) = common_barcodes (keep (λ f. has_format f c.barcode) acc) rest

-- The union of two equal names and `sorted` do not matter to a membership test, and are left out.
unfoldable pub intersect : List Capabilities → Capabilities
unfolding common_barcodes least
intersect [] = no_capabilities
intersect (c ∷ rest) = record {
  cut = every (λ x. x.cut) (c ∷ rest);
  qr = every (λ x. x.qr) (c ∷ rest);
  barcode = common_barcodes c.barcode rest;
  raster = every (λ x. x.raster) (c ∷ rest);
  columns = least (map (λ x. x.columns) (c ∷ rest));
  paper_width_dots = least (map (λ x. x.paper_width_dots) (c ∷ rest));
  pulse = every (λ x. x.pulse) (c ∷ rest);
  pdf = every (λ x. x.pdf) (c ∷ rest);
  document_formats = [];
}
