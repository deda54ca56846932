-- ===== src/Tests/Stamped.antt =====
-- The theorem on overlays, applied.
use vibe_printer.Prelude.{ℕ, ◌-◌, refl, true, List, [], ◌∷◌}
use vibe_printer.Prelude.Texts.{codes}
use vibe_printer.Errors.{Result, ok}
use vibe_printer.Json.{Json, null, num, str, Fields, end, field, get_field}
use vibe_printer.Json.Values.{get_or, int_of, is_text, text_of}
use vibe_printer.Templating.{output, render_str}
use vibe_printer.Overlay.{
  Canvas, draw_text, render_overlay, draw_pages, page_fields, page_of, strokes, stroke, text_stroke,
  value_of,
}
use vibe_printer.Overlay.Drawn.{PagesDrawn, render_overlay-drawn}
use vibe_printer.Tests.Sent.{python}

number : Json → Result ℕ
number (num n) = ok n
number v = ok 0

abbrev canvas : Canvas ℕ
canvas = record {
  py = python;
  jinja = λ e t m. output "Ann";
  float = number;
  minus = λ a b. a - b;
  set_font = λ f. ok tt;
  asset_exists = λ v. true;
}

-- A field on the first page, and one on a page that the PDF does not have.
abbrev fields : List Fields
fields = field "y" (num 100) end ∷ field "page" (num 7) end ∷ []

render_overlay-drawn_example :
    PagesDrawn canvas null 0
      (800 ∷ [])
      fields
      ((draw_text (str "Helvetica") 12 (codes "#000000") (str "left") 0 688 "Ann" ∷ []) ∷ [])
render_overlay-drawn_example =
    render_overlay-drawn canvas null (800 ∷ []) fields
      ((draw_text (str "Helvetica") 12 (codes "#000000") (str "left") 0 688 "Ann" ∷ []) ∷ [])
      (unfold render_overlay draw_pages page_fields page_of strokes stroke text_stroke value_of
          render_str get_or get_field int_of is_text text_of number in
        refl)
