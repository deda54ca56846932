-- ===== src/Tests/Ipp.antt =====
-- The theorem on the parser of IPP responses, applied.
use vibe_printer.Prelude.{◌≡◌, refl, List, [], ◌∷◌, ◌++◌}
use vibe_printer.Prelude.Texts.{Text, codes}
use vibe_printer.Ipp.{values_of, attr, two_bytes, join, parse_attributes}
use vibe_printer.Ipp.Attributes.{Attribute, values_under, parse_attributes-join}

abbrev trays : List Attribute
trays = (68, codes "media", codes "a4") ∷ (33, codes "copies", 0 ∷ []) ∷ []

abbrev tray_bytes : Text
tray_bytes =
    68 ∷ 0 ∷ 5 ∷ codes "media"
    ++ 0 ∷ 2 ∷ codes "a4"
    ++ 33 ∷ 0 ∷ 6 ∷ codes "copies"
    ++ 0 ∷ 1 ∷ 0 ∷ []

parse_attributes-join_example :
    values_of
      (codes "media")
      (parse_attributes (2 ∷ 0 ∷ 0 ∷ 0 ∷ 0 ∷ 0 ∷ 0 ∷ 1 ∷ 1 ∷ tray_bytes ++ 3 ∷ 7 ∷ []))
    ≡ values_under (codes "media") trays
parse_attributes-join_example =
    parse_attributes-join 2 0 0 0 0 0 0 1 trays tray_bytes (7 ∷ []) (codes "media")
      (refl, (refl, tt)) (unfold join attr two_bytes in refl)
