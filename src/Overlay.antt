-- ===== src/Overlay.antt =====
-- app/overlay.py: what `render_overlay` draws on each page of a base PDF, as values. Floats, reportlab, pypdf and
-- the file system are arguments; `base` has the heights of the pages, or the failure of the PDF reader.
pub mod Drawn
use vibe_printer.Prelude.{
  ℕ, suc, Bool, String, Option, none, some, List, [], ◌∷◌, ◌++◌, ◌==◌, if◌then◌else◌,
}
use vibe_printer.Prelude.Texts.{Text}
use vibe_printer.Errors.{Result, ok, err, raise, render_error, validation_error, ◌>>=◌}
use vibe_printer.Json.{Json, null, num, str, Fields, truthy}
use vibe_printer.Json.Values.{Python, int_of, text_of, get_or, is_text}
use vibe_printer.Templating.{Jinja, strict, render_str, only_data}

-- What a page is drawn with.
pub data Stroke (F : Type 0) : Type 0 where
  draw_text :
      (font : Json) (size : F) (color : Text) (align : Json) (x baseline : F) → String → Stroke F
  draw_qr : (x bottom box : F) → String → Stroke F
  draw_image : (asset : Json) (x bottom width height : F) → Stroke F

-- `float` and the subtraction of floats, the fonts that reportlab has, and the assets that are there.
pub record Canvas (F : Type 0) : Type 0 where
  pub py : Python
  pub jinja : Jinja
  pub float : Json → Result F
  pub minus : F → F → F
  pub set_font : Json → Result (Unit {0})
  pub asset_exists : Json → Bool

-- int(f.get("page", 0))
unfoldable pub page_of : Python → Fields → Result ℕ
unfolding int_of get_or
page_of py f = int_of py (get_or "page" (num 0) f)

-- [f for f in fields if int(f.get("page", 0)) == i]
unfoldable pub page_fields : Python → ℕ → List Fields → Result (List Fields)
unfolding page_of
page_fields py i [] = ok []
page_fields py i (f ∷ fields) =
    let rest = page_fields py i fields in
    (do n ← page_of py f; fs ← rest; ok (if n == i then f ∷ fs else fs))

module _ {F : Type 0} (c : Canvas F) (given : Json) where
  unfoldable pub value_of : Fields → Result String
  unfolding render_str text_of get_or
  value_of f =
      render_str c.jinja strict (text_of c.py (get_or "value" (str "") f)) (only_data given)

  -- `_draw_text`
  unfoldable pub text_stroke : (page_h : F) → Fields → Result (List (Stroke F))
  unfolding value_of get_or text_of
  text_stroke page_h f = do
    text ← value_of f
    size ← c.float (get_or "size" (num 12) f)
    font ← c.set_font (get_or "font" (str "Helvetica") f)
    x ← c.float (get_or "x" (num 0) f)
    y ← c.float (get_or "y" (num 0) f)
    ok (
        draw_text (get_or "font" (str "Helvetica") f) size
          (text_of c.py (get_or "color" (str "#000000") f)) (get_or "align" (str "left") f) x
          (c.minus (c.minus page_h y) size) text
        ∷ [])

  -- `_draw_qr`
  unfoldable pub qr_stroke : (page_h : F) → Fields → Result (List (Stroke F))
  unfolding value_of get_or
  qr_stroke page_h f = do
    text ← value_of f
    box ← c.float (get_or "size" (num 72) f)
    x ← c.float (get_or "x" (num 0) f)
    y ← c.float (get_or "y" (num 0) f)
    ok (draw_qr x (c.minus (c.minus page_h y) box) box text ∷ [])

  -- `f.get("width") or f.get("size", 72)`
  unfoldable pub width_of : Fields → Json
  unfolding get_or truthy
  width_of f =
      let width = get_or "width" null f in if truthy width then width else get_or "size" (num 72) f

  unfoldable pub height_of : (width : F) → Fields → Result F
  unfolding get_or truthy
  height_of width f =
      let height = get_or "height" null f in if truthy height then c.float height else ok width

  -- `_draw_image`: without an asset nothing is drawn.
  unfoldable pub image_stroke : (page_h : F) → Fields → Result (List (Stroke F))
  unfolding width_of height_of get_or truthy
  image_stroke page_h f =
      let asset = get_or "asset" null f in
      if truthy asset
      then (if c.asset_exists asset
          then (do
            w ← c.float (width_of f)
            h ← height_of w f
            x ← c.float (get_or "x" (num 0) f)
            y ← c.float (get_or "y" (num 0) f)
            ok (draw_image asset x (c.minus (c.minus page_h y) h) w h ∷ []))
          else raise render_error)
      else ok []

  unfoldable pub stroke : (page_h : F) → Fields → Result (List (Stroke F))
  unfolding text_stroke qr_stroke image_stroke is_text get_or
  stroke page_h f =
      let t = get_or "type" (str "text") f in
      if is_text t "text"
      then text_stroke page_h f
      else if is_text t "qr"
      then qr_stroke page_h f
      else if is_text t "image"
      then image_stroke page_h f
      else raise validation_error

  unfoldable pub strokes : (page_h : F) → List Fields → Result (List (Stroke F))
  unfolding stroke
  strokes page_h [] = ok []
  strokes page_h (f ∷ fields) =
      let rest = strokes page_h fields in
      (do now ← stroke page_h f; later ← rest; ok (now ++ later))

  -- The loop over the pages, from page i on.
  unfoldable pub draw_pages : ℕ → (pages : List F) → List Fields → Result (List (List (Stroke F)))
  unfolding page_fields strokes
  draw_pages i [] fields = ok []
  draw_pages i (page_h ∷ pages) fields =
      let rest = draw_pages (suc i) pages fields in
      (do
        fs ← page_fields c.py i fields
        drawn ← strokes page_h fs
        others ← rest
        ok (drawn ∷ others))

  -- A base PDF that cannot be read is a render_error.
  unfoldable pub render_overlay :
      (base : Option (List F)) → List Fields → Result (List (List (Stroke F)))
  unfolding draw_pages
  render_overlay none fields = raise render_error
  render_overlay (some pages) fields = draw_pages 0 pages fields
