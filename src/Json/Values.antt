-- ===== src/Json/Values.antt =====
-- What Python does with the JSON values that requests and formats carry: `str`, `int`, loops and
-- subscripts. The class of an exception is kept as a TypeError where a value has the wrong shape.
use vibe_printer.Prelude.{
  ℕ, Bool, true, false, String, Option, none, some, List, [], ◌∷◌, str_eq, if◌then◌else◌, get_elem?,
  length, ltb,
}
use vibe_printer.Prelude.Texts.{Text, codes, decimal}
use vibe_printer.Errors.{Failure, Result, ok, err}
use vibe_printer.Json.{
  Json, null, bool, num, str, arr, obj, Items, nil, cons, Fields, end, field, get_field,
}

-- Python's `int` on a text, and `repr` of a list or a dict.
pub record Python : Type 0 where
  pub int_of_text : String → Option ℕ
  pub repr_of : Json → Text

abbrev pub type_error : Failure
type_error = Failure.other_exception "TypeError"

-- str(v)
unfoldable pub text_of : Python → Json → Text
text_of py null = codes "None"
text_of py (bool true) = codes "True"
text_of py (bool false) = codes "False"
text_of py (num n) = decimal n
text_of py (str s) = codes s
text_of py (arr xs) = py.repr_of (arr xs)
text_of py (obj m) = py.repr_of (obj m)

-- int(v)
unfoldable pub int_of : Python → Json → Result ℕ
int_of py (num n) = ok n
int_of py (bool true) = ok 1
int_of py (bool false) = ok 0
int_of py (str s) = elim (py.int_of_text s) [
  | none ↦ err (Failure.other_exception "ValueError")
  | some n ↦ ok n
]
int_of py _ = err type_error

-- m.get(k, default)
unfoldable pub get_or : String → Json → Fields → Json
unfolding get_field
get_or k default m = elim (get_field k m) [ none ↦ default | some v ↦ v ]

unfoldable pub list_of : Items → List Json
list_of nil = []
list_of (cons x xs) = x ∷ list_of xs

unfoldable pub characters : String → List Json
characters String.[] = []
characters (String.◌∷◌ c s) = str (String.◌∷◌ c String.[]) ∷ characters s

unfoldable pub keys_of : Fields → List Json
keys_of end = []
keys_of (field k v m) = str k ∷ keys_of m

-- `for x in v`
unfoldable pub iterate : Json → Result (List Json)
unfolding list_of characters keys_of
iterate (arr xs) = ok (list_of xs)
iterate (str s) = ok (characters s)
iterate (obj m) = ok (keys_of m)
iterate _ = err type_error

-- `v[i] if i < len(v) else default`: a dict has no numbers among its keys.
unfoldable pub item_or : Json → ℕ → Json → Result Json
unfolding list_of characters keys_of
item_or (arr xs) i default = ok (elim (get_elem? (list_of xs) i) [ none ↦ default | some x ↦ x ])
item_or (str s) i default = ok (elim (get_elem? (characters s) i) [ none ↦ default | some x ↦ x ])
item_or (obj m) i default = if ltb i (length (keys_of m)) then err Failure.key_error else ok default
item_or _ i default = err type_error

-- `v == "..."`
unfoldable pub is_text : Json → String → Bool
is_text (str s) t = str_eq s t
is_text _ t = false
