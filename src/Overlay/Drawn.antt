-- ===== src/Overlay/Drawn.antt =====
-- What an overlay draws, field by field and page by page.
use mathlib.Core.Path.{subst}
use vibe_printer.Prelude.{
  ℕ, suc, ◌≡◌, ◌≢◌, refl, Bool, true, false, ◌&&◌, String, some, List, [], ◌∷◌, ◌++◌, ◌==◌, eq_iff,
  keep, if◌then◌else◌, arith, Bool-cases, inl, inr,
}
use vibe_printer.Errors.{Result, ok, err, Result-cases, ◌>>=◌}
use vibe_printer.Json.{Json, null, num, str, Fields, truthy}
use vibe_printer.Json.Values.{Python, get_or, is_text}
use vibe_printer.Overlay.{
  Stroke, draw_text, draw_qr, draw_image, Canvas, page_of, page_fields, value_of, text_stroke,
  qr_stroke, width_of, height_of, image_stroke, stroke, strokes, draw_pages, render_overlay,
}

-- Every field but an image without an asset.
abbrev pub is_drawn : Fields → Bool
is_drawn f =
    if is_text (get_or "type" (str "text") f) "image" then truthy (get_or "asset" null f) else true

-- A field whose page is page i, and that is drawn.
abbrev pub is_page : ℕ → Result ℕ → Bool
is_page i (err e) = false
is_page i (ok p) = p == i

abbrev pub is_drawn_on : Python → ℕ → Fields → Bool
is_drawn_on py i f = is_drawn f && is_page i (page_of py f)

one-text : (v : Json) (s t : String) → s ≢ t → is_text v s ≡ true → is_text v t ≡ false
unfolding is_text
one-text (str u) s t ne h = ground (arith, eq_iff u s, eq_iff u t)
one-text _ s t ne h = absurd (cc)

-- What holds of the value of a call, if it returns.
abbrev OnOk : {A : Type 0} → (A → Type 0) → Result A → Type 0
OnOk P (ok a) = P a
OnOk P (err e) = Unit

OnOk-bind :
    {A B : Type 0} (P : B → Type 0) (m : Result A) (f : A → Result B)
    → ((a : A) → m ≡ ok a → OnOk P (f a))
    → OnOk P (m >>= f)
OnOk-bind P (ok a) f h = h a refl
OnOk-bind P (err e) f h = tt

-- The fields of a page that are drawn.
drawn-page_fields :
    (py : Python) (i : ℕ) (fields fs : List Fields)
    → page_fields py i fields ≡ ok fs
    → keep is_drawn fs ≡ keep (is_drawn_on py i) fields
unfolding page_fields
drawn-page_fields py i [] fs h = let none_ : [] ≡ fs = ground (arith, h) in rw (← none_) refl
drawn-page_fields py i (f ∷ fields) fs h = elim (Result-cases (page_of py f)) [
  | inr (e, bad) ↦ absurd (ground (arith, bad, h))
  | inl (p, read) ↦ elim (Result-cases (page_fields py i fields)) [
    | inr (e, bad) ↦ absurd (ground (arith, bad, read, h))
    | inl (rest, got) ↦
        let ih = drawn-page_fields py i fields rest got in
        let here : (if p == i then f ∷ rest else rest) ≡ fs = ground (arith, got, read, h) in
        rw (← here, read)
          (elim (Bool-cases (p == i)) [
            | inr elsewhere ↦ rw elsewhere (elim (Bool-cases (is_drawn f)) [
              | inl shown ↦ rw shown ih
              | inr hidden ↦ rw hidden ih
            ])
            | inl on_it ↦ rw on_it (elim (Bool-cases (is_drawn f)) [
              | inl shown ↦ rw (shown, ih) refl
              | inr hidden ↦ rw hidden ih
            ])
          ])
  ]
]

module _ {F : Type 0} (c : Canvas F) (given : Json) where
  -- A stroke that a field asks for: of the field's type, at the field's x, with the text that its value
  -- renders to, or with its asset.
  abbrev pub Draws : Fields → Stroke F → Type 0
  Draws f (draw_text font size color align x baseline text) =
      (is_text (get_or "type" (str "text") f) "text" ≡ true)
      × (value_of c given f ≡ ok text)
      × (c.float (get_or "x" (num 0) f) ≡ ok x)
  Draws f (draw_qr x bottom box text) =
      (is_text (get_or "type" (str "text") f) "qr" ≡ true)
      × (value_of c given f ≡ ok text)
      × (c.float (get_or "x" (num 0) f) ≡ ok x)
  Draws f (draw_image asset x bottom width height) =
      (is_text (get_or "type" (str "text") f) "image" ≡ true)
      × (asset ≡ get_or "asset" null f)
      × (c.float (get_or "x" (num 0) f) ≡ ok x)

  -- One stroke for each field, in their order.
  abbrev pub AllDrawn : List Fields → List (Stroke F) → Type 0
  AllDrawn [] [] = Unit
  AllDrawn (f ∷ fs) (s ∷ ss) = Draws f s × AllDrawn fs ss
  AllDrawn [] (s ∷ ss) = ⊥
  AllDrawn (f ∷ fs) [] = ⊥

  -- The strokes of each page, from page i on.
  abbrev pub PagesDrawn : ℕ → List F → List Fields → List (List (Stroke F)) → Type 0
  PagesDrawn i [] fields [] = Unit
  PagesDrawn i (page_h ∷ pages) fields (ss ∷ out) =
      AllDrawn (keep (is_drawn_on c.py i) fields) ss × PagesDrawn (suc i) pages fields out
  PagesDrawn i [] fields (ss ∷ out) = ⊥
  PagesDrawn i (page_h ∷ pages) fields [] = ⊥

  abbrev own : Fields → List Fields
  own f = if is_drawn f then f ∷ [] else []

  abbrev type_of : Fields → Json
  type_of f = get_or "type" (str "text") f

  text-drawn :
      (page_h : F) (f : Fields)
      → is_text (type_of f) "text" ≡ true
      → OnOk (AllDrawn (f ∷ [])) (text_stroke c given page_h f)
  unfolding text_stroke
  text-drawn page_h f is_one =
      let P = AllDrawn (f ∷ []) in
      OnOk-bind P (value_of c given f) _ (λ text v.
        OnOk-bind P (c.float (get_or "size" (num 12) f)) _ (λ size s.
          OnOk-bind P (c.set_font (get_or "font" (str "Helvetica") f)) _ (λ font n.
            OnOk-bind P (c.float (get_or "x" (num 0) f)) _ (λ x at.
              OnOk-bind P (c.float (get_or "y" (num 0) f)) _ (λ y h. ((is_one, v, at), tt))))))

  qr-drawn :
      (page_h : F) (f : Fields)
      → is_text (type_of f) "qr" ≡ true
      → OnOk (AllDrawn (f ∷ [])) (qr_stroke c given page_h f)
  unfolding qr_stroke
  qr-drawn page_h f is_one =
      let P = AllDrawn (f ∷ []) in
      OnOk-bind P (value_of c given f) _ (λ text v.
        OnOk-bind P (c.float (get_or "size" (num 72) f)) _ (λ box b.
          OnOk-bind P (c.float (get_or "x" (num 0) f)) _ (λ x at.
            OnOk-bind P (c.float (get_or "y" (num 0) f)) _ (λ y h. ((is_one, v, at), tt)))))

  image-drawn :
      (page_h : F) (f : Fields)
      → is_text (type_of f) "image" ≡ true
      → OnOk
          (AllDrawn (if truthy (get_or "asset" null f) then f ∷ [] else []))
          (image_stroke c given page_h f)
  unfolding image_stroke
  image-drawn page_h f is_one =
      let P = AllDrawn (f ∷ []) in
      elim (Bool-cases (truthy (get_or "asset" null f))) [
        | inr without ↦ rw without tt
        | inl named ↦ elim (Bool-cases (c.asset_exists (get_or "asset" null f))) [
          | inr missing ↦ rw (named, missing) tt
          | inl there ↦
              rw (named, there)
                (OnOk-bind P (c.float (width_of c given f)) _ (λ w b.
                  OnOk-bind P (height_of c given w f) _ (λ h b'.
                    OnOk-bind P (c.float (get_or "x" (num 0) f)) _ (λ x at.
                      OnOk-bind P (c.float (get_or "y" (num 0) f)) _
                        (λ y e. ((is_one, refl, at), tt))))))
        ]
      ]

  stroke-drawn : (page_h : F) (f : Fields) → OnOk (AllDrawn (own f)) (stroke c given page_h f)
  unfolding stroke
  stroke-drawn page_h f =
      let t = type_of f in
      elim (Bool-cases (is_text t "text")) [
        | inl text ↦
            rw (text, one-text t "text" "image" (ground (arith, eq_iff "text" "image")) text)
              (text-drawn page_h f text)
        | inr not_text ↦ elim (Bool-cases (is_text t "qr")) [
          | inl qr ↦
              rw (not_text, qr, one-text t "qr" "image" (ground (arith, eq_iff "qr" "image")) qr)
                (qr-drawn page_h f qr)
          | inr not_qr ↦ elim (Bool-cases (is_text t "image")) [
            | inl image ↦ rw (not_text, not_qr, image) (image-drawn page_h f image)
            | inr unknown ↦ rw (not_text, not_qr, unknown) tt
          ]
        ]
      ]

  AllDrawn-append :
      (fs gs : List Fields) (ss ts : List (Stroke F))
      → AllDrawn fs ss
      → AllDrawn gs ts
      → AllDrawn (fs ++ gs) (ss ++ ts)
  AllDrawn-append [] gs [] ts h k = k
  AllDrawn-append (f ∷ fs) gs (s ∷ ss) ts h k = (h.0, AllDrawn-append fs gs ss ts h.1 k)
  AllDrawn-append [] gs (s ∷ ss) ts h k = elim h [ ]
  AllDrawn-append (f ∷ fs) gs [] ts h k = elim h [ ]

  add-drawn :
      (fs gs : List Fields) (now later : Result (List (Stroke F)))
      → OnOk (AllDrawn fs) now
      → OnOk (AllDrawn gs) later
      → OnOk (AllDrawn (fs ++ gs)) (now >>= λ a. later >>= λ b. ok (a ++ b))
  add-drawn fs gs (err e) later h k = tt
  add-drawn fs gs (ok a) (err e) h k = tt
  add-drawn fs gs (ok a) (ok b) h k = AllDrawn-append fs gs a b h k

  own-append : (f : Fields) (fs : List Fields) → own f ++ keep is_drawn fs ≡ keep is_drawn (f ∷ fs)
  own-append f fs = elim (Bool-cases (is_drawn f)) [
    | inl shown ↦ rw shown refl
    | inr hidden ↦ rw hidden refl
  ]

  strokes-drawn :
      (page_h : F) (fields : List Fields)
      → OnOk (AllDrawn (keep is_drawn fields)) (strokes c given page_h fields)
  unfolding strokes
  strokes-drawn page_h [] = tt
  strokes-drawn page_h (f ∷ fields) =
      subst
        (λ l.
          OnOk (AllDrawn l)
            (stroke c given page_h f >>= λ a. strokes c given page_h fields >>= λ b. ok (a ++ b)))
        (own-append f fields)
        (add-drawn (own f) (keep is_drawn fields) (stroke c given page_h f)
          (strokes c given page_h fields) (stroke-drawn page_h f) (strokes-drawn page_h fields))

  draw_pages-drawn :
      (i : ℕ) (pages : List F) (fields : List Fields) (out : List (List (Stroke F)))
      → draw_pages c given i pages fields ≡ ok out
      → PagesDrawn i pages fields out
  unfolding draw_pages
  draw_pages-drawn i [] fields out h = let none_ : [] ≡ out = ground (arith, h) in rw (← none_) tt
  draw_pages-drawn i (page_h ∷ pages) fields out h =
      elim (Result-cases (page_fields c.py i fields)) [
        | inr (e, bad) ↦ absurd (ground (arith, bad, h))
        | inl (fs, got) ↦ elim (Result-cases (strokes c given page_h fs)) [
          | inr (e, bad) ↦ absurd (ground (arith, got, bad, h))
          | inl (drawn, made) ↦ elim (Result-cases (draw_pages c given (suc i) pages fields)) [
            | inr (e, bad) ↦ absurd (ground (arith, got, made, bad, h))
            | inl (others, rest) ↦
                let all_ : drawn ∷ others ≡ out = ground (arith, got, made, rest, h) in
                let here : AllDrawn (keep is_drawn fs) drawn =
                  rw made at (strokes-drawn page_h fs) in
                rw (← all_) (
                  subst (λ l. AllDrawn l drawn) (drawn-page_fields c.py i fields fs got) here,
                  draw_pages-drawn (suc i) pages fields others rest,
                )
          ]
        ]
      ]

  -- An overlay that is rendered has as many pages of strokes as the base PDF has pages. On each page it
  -- has one stroke for every field of that page, in the order of the fields and but for images without
  -- an asset, and no other: a text for a field of type text and a QR code for one of type qr, each with
  -- what the field's value renders to, an image with the field's asset, and all at the field's x.
  pub render_overlay-drawn :
      (pages : List F) (fields : List Fields) (out : List (List (Stroke F)))
      → render_overlay c given (some pages) fields ≡ ok out
      → PagesDrawn 0 pages fields out
  unfolding render_overlay
  render_overlay-drawn pages fields out h = draw_pages-drawn 0 pages fields out h
