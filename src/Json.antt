-- ===== src/Json.antt =====
-- The JSON values that requests, formats and payloads carry (Python dicts, lists and scalars), with
-- the dict operations that the program uses. Numbers are whole and not negative.
pub mod Values
use vibe_printer.Prelude.{
  ℕ, Bool, true, false, String, Option, none, some, str_eq, if◌then◌else◌, not, ◌==◌,
}

mutual
  pub data Json : Type 0 where
    null : Json
    bool : Bool → Json
    num : ℕ → Json
    str : String → Json
    arr : Items → Json
    obj : Fields → Json

  pub data Items : Type 0 where
    nil : Items
    cons : Json → Items → Items

  pub data Fields : Type 0 where
    end : Fields
    field : String → Json → Fields → Fields

-- d.get(k)
unfoldable pub get_field : String → Fields → Option Json
get_field k end = none
get_field k (field j v m) = if str_eq j k then some v else get_field k m

-- d[k] = v
unfoldable pub set_field : String → Json → Fields → Fields
set_field k v end = field k v end
set_field k v (field j w m) =
    let rest = set_field k v m in if str_eq j k then field j v m else field j w rest

-- Python's truth value of a value.
unfoldable pub truthy : Json → Bool
truthy null = false
truthy (bool b) = b
truthy (num n) = not (n == 0)
truthy (str s) = not (str_eq s "")
truthy (arr nil) = false
truthy (arr (cons x xs)) = true
truthy (obj end) = false
truthy (obj (field k v m)) = true
