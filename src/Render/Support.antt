-- ===== src/Render/Support.antt =====
-- What `render_escpos` refuses: the elements that the printer cannot print, in the order of the document.
use vibe_printer.Prelude.{
  ℕ, ◌≡◌, refl, ◌⊎◌, inl, inr, Bool, false, some, List, [], ◌∷◌, ◌++◌, str_eq, eq_iff, All,
  Bool-cases, sym, ap, ◌∙◌,
}
use vibe_printer.Errors.{Failure, Result, ok, err, Result-cases, api_error}
use vibe_printer.Json.{Json, num, str, Fields}
use vibe_printer.Json.Values.{Python, int_of, get_or}
use vibe_printer.Models.{Capabilities}
use vibe_printer.Devices.{number_param}
use vibe_printer.Render.Layout.{table_lines, type_of}
use vibe_printer.Render.Zpl.{scale_of, supports_code}
use vibe_printer.Render.Escpos.{
  Command, qr_options, drawer_kick, width_scale, escpos_element, escpos_elements, render_escpos,
}
use vibe_printer.Render.Refused.{
  is_unsupported, refused, lacks, refused-int_of, refused-table_lines, refused-qr_options,
  refused-drawer_kick, refused-then, refused-scale, refused-width,
}

module _ (py : Python) (exists : Json → Bool) (columns dots : ℕ) (caps : Capabilities) where
  abbrev Fits : Fields → Type 0
  Fits el = refused (escpos_element py exists columns dots caps el) ≡ lacks caps el

  -- The elements of a known type, type by type.
  Fits-plain :
      (el : Fields)
      → (type_of el ≡ "text")
        ⊎ ((type_of el ≡ "table") ⊎ ((type_of el ≡ "pulse") ⊎ (type_of el ≡ "feed")))
      → Fits el
  unfolding escpos_element
  Fits-plain el (inl e) =
      rw (escpos_element, e)
        (refused-then (width_scale py el) _ (refused-width py el)
          (λ w. refused-then (scale_of py el) _ (refused-scale py el) (λ h. refl)))
  Fits-plain el (inr (inl e)) =
      rw (escpos_element, e)
        (refused-then (table_lines py el columns) _ (refused-table_lines py el columns) (λ w. refl))
  Fits-plain el (inr (inr (inl e))) = elim (Bool-cases caps.pulse) [
    | inl able ↦
        rw (escpos_element, e, able)
          (refused-then (drawer_kick py el) _ (refused-drawer_kick py el) (λ w. refl))
    | inr unable ↦ rw (escpos_element, e, unable) refl
  ]
  Fits-plain el (inr (inr (inr e))) =
      rw (escpos_element, e)
        (refused-then (int_of py (get_or "lines" (num 1) el)) _
          (refused-int_of py (get_or "lines" (num 1) el)) (λ w. refl))

  Fits-special :
      (el : Fields)
      → (type_of el ≡ "qr") ⊎ ((type_of el ≡ "barcode") ⊎ (type_of el ≡ "image"))
      → Fits el
  unfolding escpos_element api_error
  Fits-special el (inl e) = elim (Bool-cases caps.qr) [
    | inl able ↦
        rw (escpos_element, e, able)
          (refused-then (qr_options py el) _ (refused-qr_options py el) (λ w. refl))
    | inr unable ↦ rw (escpos_element, e, unable) refl
  ]
  Fits-special el (inr (inl e)) =
      elim (Bool-cases (supports_code caps (get_or "format" (str "CODE128") el))) [
        | inl able ↦ rw (escpos_element, e, able) refl
        | inr unable ↦ rw (escpos_element, e, unable) refl
      ]
  Fits-special el (inr (inr e)) = elim (Bool-cases caps.raster) [
    | inl able ↦ elim (Bool-cases (exists (get_or "asset" (str "") el))) [
      | inl here ↦ rw (escpos_element, e, able, here) refl
      | inr gone ↦ rw (escpos_element, e, able, gone) refl
    ]
    | inr unable ↦ rw (escpos_element, e, unable) refl
  ]

  refused-escpos_element : (el : Fields) → Fits el
  unfolding escpos_element api_error
  refused-escpos_element el =
      let t = type_of el in
      elim (Bool-cases (str_eq t "text")) [
        | inl h₁ ↦ Fits-plain el (inl ((eq_iff t "text").0 h₁))
        | inr h ↦ elim (Bool-cases (str_eq t "table")) [
          | inl h ↦ Fits-plain el (inr (inl ((eq_iff t "table").0 h)))
          | inr h₁ ↦ elim (Bool-cases (str_eq t "pulse")) [
            | inl h ↦ Fits-plain el (inr (inr (inl ((eq_iff t "pulse").0 h))))
            | inr h₂ ↦ elim (Bool-cases (str_eq t "feed")) [
              | inl h ↦ Fits-plain el (inr (inr (inr ((eq_iff t "feed").0 h))))
              | inr h₃ ↦ elim (Bool-cases (str_eq t "qr")) [
                | inl h ↦ Fits-special el (inl ((eq_iff t "qr").0 h))
                | inr h₄ ↦ elim (Bool-cases (str_eq t "barcode")) [
                  | inl h ↦ Fits-special el (inr (inl ((eq_iff t "barcode").0 h)))
                  | inr h₅ ↦ elim (Bool-cases (str_eq t "image")) [
                    | inl h ↦ Fits-special el (inr (inr ((eq_iff t "image").0 h)))
                    | inr h₆ ↦ elim (Bool-cases (str_eq t "rule")) [
                      | inl h₇ ↦
                          let e : type_of el ≡ "rule" = (eq_iff t "rule").0 h₇ in
                          rw (escpos_element, e) refl
                      | inr h₇ ↦ elim (Bool-cases (str_eq t "cut")) [
                        | inl h₈ ↦
                            let e : type_of el ≡ "cut" = (eq_iff t "cut").0 h₈ in
                            rw (escpos_element, e) refl
                        | inr h₈ ↦ rw (escpos_element, h, h₁, h₂, h₃, h₄, h₅, h₆, h₇, h₈) refl
                      ]
                    ]
                  ]
                ]
              ]
            ]
          ]
        ]
      ]

  -- Where the rendering of a document stops, and why.
  abbrev pub StopsAt : List Fields → Failure → Type 0
  StopsAt elements e =
      (before : List Fields) × (el : Fields) × (after : List Fields) × (commands : List Command)
      × (elements ≡ before ++ (el ∷ after))
      × (escpos_elements py exists columns dots caps before ≡ ok commands)
      × (escpos_element py exists columns dots caps el ≡ err e)
      × (is_unsupported e ≡ lacks caps el)

  abbrev pub Outcome : List Fields → Result (List Command) → Type 0
  Outcome elements r =
      ((commands : List Command) × (r ≡ ok commands) × All (λ el. lacks caps el ≡ false) elements)
      ⊎ ((e : Failure) × (r ≡ err e) × StopsAt elements e)

  escpos_elements-Outcome :
      (elements : List Fields)
      → Outcome elements (escpos_elements py exists columns dots caps elements)
  unfolding escpos_elements
  escpos_elements-Outcome [] = inl ([], refl, tt)
  escpos_elements-Outcome (el ∷ elements) =
      let fits = refused-escpos_element el in
      elim (Result-cases (escpos_element py exists columns dots caps el)) [
        | inr (e, bad) ↦ inr (
          e,
          rw (escpos_elements, bad) refl,
          ([], el, elements, [], refl, refl, bad, sym (ap (λ r. refused r) bad) ∙ fits),
        )
        | inl (commands, good) ↦ elim (escpos_elements-Outcome elements) [
          | inl (rest, fine, none_lacks) ↦ inl (
            commands ++ rest,
            rw (escpos_elements, good, fine) refl,
            (sym fits ∙ ap (λ r. refused r) good, none_lacks),
          )
          | inr (e, bad, (before, stop, after, some_commands, split, done, here, why)) ↦ inr (
            e,
            rw (escpos_elements, good, bad) refl,
            (
              el ∷ before,
              stop,
              after,
              commands ++ some_commands,
              ap (λ l. el ∷ l) split,
              rw (escpos_elements, good, done) refl,
              here,
              why,
            ),
          )
        ]
      ]

-- `render_escpos`, for params whose sizes are numbers: either every element makes its commands and
-- needs nothing that the printer lacks, or the rendering fails as its first failing element does,
-- after elements that succeed, and the error is `unsupported_for_printer` exactly if that element
-- needs what the printer lacks (a QR code, a format of barcode, images).
pub render_escpos-Outcome :
    (py : Python) (exists : Json → Bool) (columns dots : ℕ) (params : Fields) (caps : Capabilities)
    (elements : List Fields)
    → number_param "columns" 48 params ≡ some columns
    → number_param "paper_width_dots" 576 params ≡ some dots
    → Outcome py exists columns dots caps elements (render_escpos py exists elements params caps)
unfolding render_escpos
render_escpos-Outcome py exists columns dots params caps elements c d =
    rw (render_escpos, c, d) (escpos_elements-Outcome py exists columns dots caps elements)
