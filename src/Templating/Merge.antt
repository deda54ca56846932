-- ===== src/Templating/Merge.antt =====
-- What the data of a request cannot change in a document.
use vibe_printer.Prelude.{
  ◌≡◌, refl, ◌∙◌, inl, inr, Bool, false, ◌||◌, String, Option, none, some, List, [], ◌∷◌, str_eq,
  eq_iff, arith, Bool-cases,
}
use vibe_printer.Prelude.Texts.{codes}
use vibe_printer.Errors.{ok, Result-cases}
use vibe_printer.Json.{
  Json, null, bool, num, str, arr, obj, nil, Fields, end, field, get_field, set_field, truthy,
}
use vibe_printer.Json.Values.{Python, get_or, iterate, is_text}
use vibe_printer.Templating.{
  Jinja, strict, pop_field, rows_from, fixed_rows, items_at, merge_table, render_key, merge_element,
  merge_elements, merge_format, render_str, only_data,
}

-- The keys that merging writes or drops.
abbrev pub is_merged : String → Bool
is_merged k =
    str_eq k "value"
    || (str_eq k "asset" || (str_eq k "rows" || (str_eq k "rows_from" || str_eq k "row")))

pub get_field-set_field :
    (k j : String) (v : Json) (m : Fields)
    → str_eq k j ≡ false
    → get_field k (set_field j v m) ≡ get_field k m
unfolding get_field set_field
get_field-set_field k j v end h = ground (arith, eq_iff k j, eq_iff j k)
get_field-set_field k j v (field i w m) h =
    ground (arith, eq_iff k j, eq_iff j k, eq_iff i j, eq_iff i k, get_field-set_field k j v m h)

get_field-pop_field :
    (k j : String) (m : Fields) → str_eq k j ≡ false → get_field k (pop_field j m) ≡ get_field k m
unfolding get_field pop_field
get_field-pop_field k j end h = refl
get_field-pop_field k j (field i w m) h =
    ground (arith, eq_iff k j, eq_iff j k, eq_iff i j, eq_iff i k, get_field-pop_field k j m h)

-- Element by element, the same value under `k`.
abbrev pub Alike : (k : String) → List Json → List Fields → Type 0
Alike k [] [] = Unit
Alike k [] (m ∷ ms) = ⊥
Alike k (v ∷ elements) [] = ⊥
Alike k (obj el ∷ elements) (m ∷ ms) = (get_field k m ≡ get_field k el) × Alike k elements ms
Alike k (_ ∷ elements) (m ∷ ms) = ⊥

module _ (py : Python) (jinja : Jinja) (given : Json) (k : String)
    (kept : is_merged k ≡ false) where
  merge_table-keeps :
      (el merged : Fields)
      → merge_table py jinja el given ≡ ok merged
      → get_field k merged ≡ get_field k el
  unfolding merge_table
  merge_table-keeps el merged h =
      let path = get_or "rows_from" null el in
      elim (Bool-cases (truthy path)) [
        | inl named ↦ elim (Result-cases (items_at py jinja given path)) [
          | inr (e, bad) ↦ ground arith
          | inl (items, good) ↦
              elim (Result-cases (rows_from py jinja given (get_or "row" (arr nil) el) items)) [
                | inr (e, bad) ↦ ground arith
                | inl (rows, fine) ↦ ground (
                  arith,
                  get_field-pop_field k "row"
                      (pop_field "rows_from" (set_field "rows" (arr rows) el)),
                  get_field-pop_field k "rows_from" (set_field "rows" (arr rows) el),
                  get_field-set_field k "rows" (arr rows) el,
                )
              ]
        ]
        | inr fixed ↦ elim (Result-cases (iterate (get_or "rows" (arr nil) el))) [
          | inr (e, bad) ↦ ground arith
          | inl (rows, good) ↦ elim (Result-cases (fixed_rows py jinja given rows)) [
            | inr (e, bad) ↦ ground arith
            | inl (rows', fine) ↦ ground (arith, get_field-set_field k "rows" (arr rows') el)
          ]
        ]
      ]

  render_key-at :
      (key : String) (el merged : Fields) (v : Option Json)
      → str_eq k key ≡ false
      → get_field key el ≡ v
      → render_key py jinja given key el ≡ ok merged
      → get_field k merged ≡ get_field k el
  unfolding render_key
  render_key-at key el merged (some (str s)) other found h =
      elim (Result-cases (render_str jinja strict (codes s) (only_data given))) [
        | inr (e, bad) ↦ ground arith
        | inl (s', good) ↦ ground (arith, get_field-set_field k key (str s') el)
      ]
  render_key-at key el merged (some null) other found h = ground arith
  render_key-at key el merged (some (bool b)) other found h = ground arith
  render_key-at key el merged (some (num n)) other found h = ground arith
  render_key-at key el merged (some (arr xs)) other found h = ground arith
  render_key-at key el merged (some (obj m)) other found h = ground arith
  render_key-at key el merged none other found h = ground arith

  merge_element-keeps :
      (el merged : Fields)
      → merge_element py jinja given el ≡ ok merged
      → get_field k merged ≡ get_field k el
  unfolding merge_element
  merge_element-keeps el merged h = elim (Bool-cases (is_text (get_or "type" null el) "table")) [
    | inl table ↦ merge_table-keeps el merged (ground arith)
    | inr other ↦ elim (Result-cases (render_key py jinja given "value" el)) [
      | inr (e, bad) ↦ ground arith
      | inl (el', good) ↦
          render_key-at "asset" el' merged (get_field "asset" el') (ground arith) refl
            (ground arith)
          ∙ render_key-at "value" el el' (get_field "value" el) (ground arith) refl good
    ]
  ]

  merge_elements-Alike :
      (elements : List Json) (out : List Fields)
      → merge_elements py jinja given elements ≡ ok out
      → Alike k elements out
  unfolding merge_elements
  merge_elements-Alike [] out h = let e : out ≡ [] = ground arith in rw e tt
  merge_elements-Alike (obj el ∷ elements) out h =
      elim (Result-cases (merge_element py jinja given el)) [
        | inr (e, bad) ↦ absurd (ground arith)
        | inl (m, good) ↦ elim (Result-cases (merge_elements py jinja given elements)) [
          | inr (e, bad) ↦ absurd (ground arith)
          | inl (ms, fine) ↦
              let e : out ≡ m ∷ ms = ground arith in
              rw e (merge_element-keeps el m good, merge_elements-Alike elements ms fine)
        ]
      ]
  merge_elements-Alike (null ∷ elements) out h = absurd (ground arith)
  merge_elements-Alike (bool b ∷ elements) out h = absurd (ground arith)
  merge_elements-Alike (num n ∷ elements) out h = absurd (ground arith)
  merge_elements-Alike (str s ∷ elements) out h = absurd (ground arith)
  merge_elements-Alike (arr xs ∷ elements) out h = absurd (ground arith)

-- Merging a document with the data of a request keeps its elements: as many come out, in their order,
-- and each has its old value under every key but the five that merging writes or drops (`value`,
-- `asset`, `rows`, `rows_from`, `row`). So no data change what type an element has, which format its
-- barcode has, how large it is or which pin a drawer opens.
pub merge_format-Alike :
    (py : Python) (jinja : Jinja) (given : Json) (k : String) (doc : Fields) (elements : List Json)
    (out : List Fields)
    → is_merged k ≡ false
    → iterate (get_or "elements" (arr nil) doc) ≡ ok elements
    → merge_format py jinja (obj doc) given ≡ ok out
    → Alike k elements out
unfolding merge_format
merge_format-Alike py jinja given k doc elements out kept listed h =
    merge_elements-Alike py jinja given k kept elements out (ground arith)
