-- ===== src/Templating.antt =====
-- app/templating.py: a format's elements and the data of a request become elements that can be rendered.
-- Jinja is an argument: what one template and its variables give. Paths of the file system are lists of names.
pub mod Merge
pub mod Fetch
use vibe_printer.Prelude.{
  ℕ, Bool, true, false, ◌||◌, ◌&&◌, String, Option, none, some, List, [], ◌∷◌, ◌++◌, str_eq,
  if◌then◌else◌, ◌==◌,
}
use vibe_printer.Prelude.Texts.{Text, codes, text_eq}
use vibe_printer.Errors.{Failure, Result, ok, err, raise, render_error}
use vibe_printer.Json.{
  Json, null, bool, num, str, arr, obj, Items, nil, cons, Fields, end, field, get_field, set_field,
  truthy,
}
use vibe_printer.Json.Values.{Python, type_error, text_of, get_or, iterate, list_of, is_text}

-- How `env.from_string(template).render(...)` ends.
pub data Rendered : Type 0 where
  output : String → Rendered
  undefined_error template_error : Rendered
  other_error : String → Rendered

-- The strict environment of elements, and the lenient one of HTML.
pub data Environment : Type 0 where
  strict html : Environment

abbrev pub Jinja : Type 0
Jinja = Environment → (template : Text) → (variables : Fields) → Rendered

-- `_render_str`
unfoldable pub render_str : Jinja → Environment → Text → Fields → Result String
render_str jinja e template ctx = elim (jinja e template ctx) [
  | output s ↦ ok s
  | undefined_error ↦ raise render_error
  | template_error ↦ raise render_error
  | other_error s ↦ err (Failure.other_exception s)
]

-- path.split(".")
unfoldable pub split_path : Text → List Text
split_path [] = [] ∷ []
split_path (c ∷ t) = elim (split_path t) [
  | [] ↦ (c ∷ []) ∷ []
  | part ∷ parts ↦ if c == b'.' then [] ∷ part ∷ parts else (c ∷ part) ∷ parts
]

-- d[part]
unfoldable pub get_part : Text → Fields → Option Json
get_part part end = none
get_part part (field k v m) = if text_eq (codes k) part then some v else get_part part m

-- `_resolve_path`: a part that is not there gives no items.
unfoldable pub walk : List Text → Json → Json
unfolding get_part
walk [] cur = cur
walk (part ∷ parts) (obj m) = elim (get_part part m) [ none ↦ arr nil | some v ↦ walk parts v ]
walk (part ∷ parts) _ = arr nil

abbrev pub only_data : Json → Fields
only_data given = field "data" given end

unfoldable pub resolve_path : (given : Json) → (path : Text) → Json
unfolding split_path walk
resolve_path given path = walk (split_path path) (obj (only_data given))

-- m.pop(k, None)
unfoldable pub pop_field : String → Fields → Fields
pop_field k end = end
pop_field k (field j v m) = let rest = pop_field k m in if str_eq j k then rest else field j v rest

module _ (py : Python) (jinja : Jinja) where
  -- [_render_str(str(cell), ctx) for cell in cells]
  unfoldable pub render_cells : (ctx : Fields) → List Json → Result Items
  unfolding render_str text_of
  render_cells ctx [] = ok nil
  render_cells ctx (cell ∷ cells) = elim (render_str jinja strict (text_of py cell) ctx) [
    | err e ↦ err e
    | ok s ↦ elim (render_cells ctx cells) [ err e ↦ err e | ok row ↦ ok (cons (str s) row) ]
  ]

  -- A row for each item, with the item among the variables.
  unfoldable pub rows_from : (given row_template : Json) → (items : List Json) → Result Items
  unfolding iterate render_cells
  rows_from given row_template [] = ok nil
  rows_from given row_template (item ∷ items) = elim (iterate row_template) [
    | err e ↦ err e
    | ok cells ↦ elim (render_cells (field "data" given (field "item" item end)) cells) [
      | err e ↦ err e
      | ok row ↦ elim (rows_from given row_template items) [
        | err e ↦ err e
        | ok rows ↦ ok (cons (arr row) rows)
      ]
    ]
  ]

  unfoldable pub fixed_rows : (given : Json) → (rows : List Json) → Result Items
  unfolding iterate render_cells
  fixed_rows given [] = ok nil
  fixed_rows given (row ∷ rows) = elim (iterate row) [
    | err e ↦ err e
    | ok cells ↦ elim (render_cells (only_data given) cells) [
      | err e ↦ err e
      | ok row' ↦ elim (fixed_rows given rows) [
        | err e ↦ err e
        | ok rest ↦ ok (cons (arr row') rest)
      ]
    ]
  ]

  -- `path.split` and `for item in items`: only a text is a path.
  unfoldable pub items_at : (given path : Json) → Result (List Json)
  unfolding iterate resolve_path
  items_at given (str s) = iterate (resolve_path given (codes s))
  items_at given _ = err (Failure.other_exception "AttributeError")

  -- `_merge_table`
  unfoldable pub merge_table : Fields → (given : Json) → Result Fields
  unfolding get_or items_at rows_from fixed_rows iterate pop_field set_field truthy
  merge_table el given =
      let path = get_or "rows_from" null el in
      if truthy path
      then elim (items_at given path) [
        | err e ↦ err e
        | ok items ↦ elim (rows_from given (get_or "row" (arr nil) el) items) [
          | err e ↦ err e
          | ok rows ↦ ok (pop_field "row" (pop_field "rows_from" (set_field "rows" (arr rows) el)))
        ]
      ]
      else elim (iterate (get_or "rows" (arr nil) el)) [
        | err e ↦ err e
        | ok rows ↦ elim (fixed_rows given rows) [
          | err e ↦ err e
          | ok rows' ↦ ok (set_field "rows" (arr rows') el)
        ]
      ]

  -- One turn of `for key in ("value", "asset")`.
  unfoldable pub render_key : (given : Json) → String → Fields → Result Fields
  unfolding render_str get_field set_field
  render_key given key merged = elim (get_field key merged) [
    | some (str s) ↦ elim (render_str jinja strict (codes s) (only_data given)) [
      | err e ↦ err e
      | ok s' ↦ ok (set_field key (str s') merged)
    ]
    | _ ↦ ok merged
  ]

  unfoldable pub merge_element : (given : Json) → Fields → Result Fields
  unfolding get_or is_text merge_table render_key
  merge_element given el =
      if is_text (get_or "type" null el) "table"
      then merge_table el given
      else elim (render_key given "value" el) [
        | err e ↦ err e
        | ok merged ↦ render_key given "asset" merged
      ]

  -- The loop of `merge_format`. What is not a dict has no `get`.
  unfoldable pub merge_elements : (given : Json) → List Json → Result (List Fields)
  unfolding merge_element
  merge_elements given [] = ok []
  merge_elements given (obj el ∷ elements) = elim (merge_element given el) [
    | err e ↦ err e
    | ok merged ↦ elim (merge_elements given elements) [
      | err e ↦ err e
      | ok out ↦ ok (merged ∷ out)
    ]
  ]
  merge_elements given (_ ∷ elements) = err (Failure.other_exception "AttributeError")

  unfoldable pub merge_format : (elements_doc given : Json) → Result (List Fields)
  unfolding get_or iterate merge_elements
  merge_format (obj doc) given = elim (iterate (get_or "elements" (arr nil) doc)) [
    | err e ↦ err e
    | ok elements ↦ merge_elements given elements
  ]
  merge_format _ given = err (Failure.other_exception "AttributeError")

-- `_pdf_context`
unfoldable pub pdf_context : (given : Json) → Fields
unfolding set_field
pdf_context (obj m) = set_field "data" (obj m) m
pdf_context given = only_data given

-- `_page_css`
unfoldable pub page_css : Python → (page_setup : Fields) → Text
unfolding get_or text_of
page_css py page_setup =
    codes "@page { size: "
    ++ (text_of py (get_or "size" (str "A4") page_setup)
        ++ (codes "; margin: "
            ++ (text_of py (get_or "margins" (str "1cm") page_setup) ++ codes "; }")))

-- What a fetch of WeasyPrint gets: the content of a `data:` URL, an opened file, or URLFetchingError.
pub data Fetched : Type 0 where
  inline : (url : Text) → Fetched
  opened : (path : List String) → Fetched
  blocked : Fetched

unfoldable pub path_eq : List String → List String → Bool
path_eq [] [] = true
path_eq (a ∷ p) (b ∷ q) = str_eq a b && path_eq p q
path_eq _ _ = false

-- `root in target.parents`
unfoldable pub in_parents : (root target : List String) → Bool
in_parents [] [] = false
in_parents [] (b ∷ target) = true
in_parents (a ∷ root) [] = false
in_parents (a ∷ root) (b ∷ target) = str_eq a b && in_parents root target

-- target.parent: "/" is its own parent.
unfoldable pub parent : List String → List String
parent [] = []
parent (name ∷ []) = []
parent (name ∷ next ∷ path) = name ∷ parent (next ∷ path)

-- `url_fetcher` in `render_pdf`, with `urlparse`, and `Path(unquote(...)).resolve()` for `resolve`.
unfoldable pub url_fetcher :
    (urlparse : Text → Text × Text) (resolve : Text → List String) (assets_root : List String)
    → (url : Text) → Fetched
unfolding path_eq in_parents parent
url_fetcher urlparse resolve assets_root url =
    let (scheme, path) = urlparse url in
    let target = resolve path in
    if text_eq scheme (codes "data")
    then inline url
    else if text_eq scheme (codes "http") || text_eq scheme (codes "https")
    then blocked
    else if text_eq scheme (codes "file") || text_eq scheme []
    then (if in_parents assets_root target || path_eq (parent target) assets_root
        then opened target
        else blocked)
    else blocked
