-- ===== src/PrintApi/Quotas.antt =====
-- app/api/print.py: `_enforce_quota`, and what a handler reads of its request.
use vibe_printer.Prelude.{
  ℕ, zero, suc, String, Option, none, some, str_eq, leb, if◌then◌else◌, or_else,
}
use vibe_printer.Prelude.Texts.{Text, codes, text_eq, decimal}
use vibe_printer.Errors.{Result, ok, err, api, api_error, Failure, quota_exceeded}
use vibe_printer.Json.{Json, obj, Fields, end, field, get_field, truthy}
use vibe_printer.Models.{Payload}
use vibe_printer.Jobs.{JobStore, count_printer_jobs_since}
use vibe_printer.Registry.Config.{Registry}

pub record ApiState : Type 0 where
  pub registry : Registry
  pub store : JobStore

-- `request_hash` is `_canonical_hash({"printer": ..., **payload})`; `decoded_length` is the length of
-- a decoded base64 text, or none if it is not valid; `int_of` is Python's `int` on a JSON value.
pub record Reading : Type 0 where
  pub job_id : String
  pub created_at : Text
  pub updated_at : Text
  pub stored_at : Text
  pub midnight : Text
  pub request_hash : ℕ → Payload → String
  pub decoded_length : String → Option ℕ
  pub int_of : Json → Option ℕ

-- The truth of an optional id, dict or text: 0, {} and "" count as missing.
unfoldable pub given_id : Option ℕ → Option ℕ
given_id none = none
given_id (some zero) = none
given_id (some (suc n)) = some (suc n)

unfoldable pub given_json : Option Json → Option Json
unfolding truthy
given_json none = none
given_json (some v) = if truthy v then some v else none

unfoldable pub given_key : Option String → Option String
given_key none = none
given_key (some k) = if str_eq k "" then none else some k

-- quotas.get(str(printer_id))
unfoldable pub get_number : ℕ → Fields → Option Json
unfolding text_eq
get_number n end = none
get_number n (field k v m) =
    let rest = get_number n m in if text_eq (codes k) (decimal n) then some v else rest

-- `quotas.get(str(printer_id)) or quotas.get("default")`, if that is true.
unfoldable pub limit_of : ℕ → Fields → Option Json
unfolding given_json get_number get_field
limit_of printer_id quotas =
    given_json (or_else (given_json (get_number printer_id quotas)) (get_field "default" quotas))

-- `config.get("quotas", {})`: any other value than a dict has no `get`.
unfoldable pub quotas_of : Json → Result Fields
unfolding get_field
quotas_of (obj config) = elim (get_field "quotas" config) [
  | none ↦ ok end
  | some (obj quotas) ↦ ok quotas
  | some _ ↦ err (Failure.other_exception "AttributeError")
]
quotas_of _ = err (Failure.other_exception "AttributeError")

unfoldable pub enforce_quota : Reading → ℕ → ApiState → Result (Unit {0})
unfolding quotas_of limit_of
enforce_quota r printer_id s = elim (quotas_of s.registry.device.config) [
  | err e ↦ err e
  | ok quotas ↦ elim (limit_of printer_id quotas) [
    | none ↦ ok tt
    | some limit ↦ elim (r.int_of limit) [
      | none ↦ err (Failure.other_exception "ValueError")
      | some n ↦
          if leb n (count_printer_jobs_since printer_id r.midnight s.store)
          then err (api (api_error quota_exceeded (some 429)))
          else ok tt
    ]
  ]
]
