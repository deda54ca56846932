-- ===== src/Errors.antt =====
-- app/errors.py: the stable error codes, their HTTP statuses, and calls that may raise.
-- An `ApiError` is kept as its code and its status; the message text is not modelled.
use vibe_printer.Prelude.{ℕ, ◌≡◌, Option, none, some, String, refl, ◌⊎◌, inl, inr}

pub data ErrorCode : Type 0 where
  unauthorized forbidden validation_error unknown_printer not_found : ErrorCode
  unsupported_for_printer idempotency_conflict conflict rate_limited : ErrorCode
  queue_full quota_exceeded render_error printer_unreachable internal_error : ErrorCode

-- ERROR_STATUS
unfoldable pub error_status : ErrorCode → ℕ
error_status unauthorized = 401
error_status forbidden = 403
error_status validation_error = 422
error_status unknown_printer = 404
error_status not_found = 404
error_status unsupported_for_printer = 409
error_status idempotency_conflict = 409
error_status conflict = 409
error_status rate_limited = 429
error_status queue_full = 429
error_status quota_exceeded = 429
error_status render_error = 500
error_status printer_unreachable = 502
error_status internal_error = 500

pub record ApiError : Type 0 where
  pub code : ErrorCode
  pub status : ℕ

-- `ApiError(code, message, status=status)`: no status, or 0, falls back on the table.
unfoldable pub api_error : ErrorCode → Option ℕ → ApiError
unfolding error_status
api_error c none = record { code = c; status = error_status c }
api_error c (some n) = elim n [
  | ℕ.zero ↦ record { code = c; status = error_status c }
  | ℕ.suc k ↦ record { code = c; status = ℕ.suc k }
]

-- What a call may raise: an `ApiError`, or any other exception, named by its class.
pub data Failure : Type 0 where
  api : ApiError → Failure
  integrity_error key_error : Failure
  other_exception : String → Failure

pub data Result {ℓ} (A : Type ℓ) : Type ℓ where
  err : Failure → Result A
  ok : A → Result A

-- `raise ApiError(code, ...)` with the status of the table.
abbrev pub raise {ℓ} : {A : Type ℓ} → ErrorCode → Result A
raise c = err (api (api_error c none))

-- One call after another; an exception of the first one passes on.
infixl 5 ◌>>=◌
abbrev pub ◌>>=◌ {ℓ κ} : {A : Type ℓ} {B : Type κ} → Result A → (A → Result B) → Result B
err failure >>= next = err failure
ok value >>= next = next value

pub Result-cases {ℓ} :
    {A : Type ℓ} (r : Result A) → ((a : A) × (r ≡ ok a)) ⊎ ((e : Failure) × (r ≡ err e))
Result-cases (ok a) = inl (a, refl)
Result-cases (err e) = inr (e, refl)
