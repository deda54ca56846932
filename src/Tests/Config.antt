-- ===== src/Tests/Config.antt =====
-- The theorems on the configuration and on pools, applied.
use vibe_printer.Prelude.{ℕ, Bool, get_elem?, ◌+◌, ◌%◌, ◌≡◌, refl, true, some, [], ◌∷◌, ◌==◌}
use vibe_printer.Errors.{raise, not_found, conflict}
use vibe_printer.Json.{get_field}
use vibe_printer.Models.{Capabilities, no_capabilities}
use vibe_printer.Registry.Versioned
use vibe_printer.Registry.Versioned.{Row, update, select_row}
use vibe_printer.Registry.Config.{Format, refers, get_printer}
use vibe_printer.Registry.Updates.{update_once}
use vibe_printer.Registry.Keys.{IsLinked}
use vibe_printer.Registry.References.{drop_format, after, after-IsLinked}
use vibe_printer.Pools.{members_from, member_ids, ids_of, resolve_target, members, is_pool}
use vibe_printer.Pools.Targets.{Answered, starts_at, resolve_target-Answered}
use vibe_printer.Tests.{front, all_printers, shop, slip}

abbrev note : Format
note = record slip { name = "note" }

update_once_example :
    let t' = (update not_found 1 1 note shop.formats).1 in
    update not_found 1 1 slip t' ≡ (raise conflict, t')
update_once_example =
    update_once not_found 1 1 note shop.formats (record { id = 1; version = 2; content = note })
      slip (unfold update Versioned.get Versioned.update_rows Versioned.found select_row in refl)

shop-IsLinked : IsLinked shop
shop-IsLinked = unfold refers select_row in ((refl, refl), ((refl, refl), tt))

after-IsLinked_example : IsLinked (after (drop_format 1) shop)
after-IsLinked_example = after-IsLinked (drop_format 1) shop shop-IsLinked

resolve_target-Answered_example :
    let up : ℕ → Bool = λ i. i == 1 in
    Answered up
      (front ∷ [])
      (λ k. get_elem? (front ∷ []) ((starts_at up all_printers 1 [] + k) % 1))
      (resolve_target up shop all_printers []).0
resolve_target-Answered_example =
    resolve_target-Answered (λ i. i == 1) shop all_printers [] (front ∷ []) (unfold is_pool in refl)
      (unfold members member_ids ids_of get_field members_from get_printer Versioned.get
          Versioned.found select_row is_pool in
        refl)

abbrev star_like : Capabilities
star_like = record no_capabilities { cut = true; columns = some 48; barcode = "CODE128" ∷ [] }

abbrev wide : Capabilities
wide = record no_capabilities { cut = true; columns = some 64; barcode = "EAN13" ∷ "CODE128" ∷ [] }
