-- ===== src/Auth.antt =====
-- app/auth.py: the bearer check and the sliding-window limiter. Times are readings of the monotonic
-- clock in nanoseconds. The address of a client is the key of the limiter.
pub mod Limits
pub mod Client
pub mod Windows
pub mod Served
use vibe_printer.Prelude.{
  ℕ, ◌+◌, Bool, true, false, String, Option, none, some, List, [], ◌∷◌, ◌++◌, str_eq, leb,
  if◌then◌else◌, length, every, ◌==◌, ◌&&◌,
}
use vibe_printer.Prelude.Texts.{Text, codes, text_leb}
use vibe_printer.Errors.{
  Failure, Result, ok, err, raise, unauthorized, rate_limited, validation_error, api, api_error,
}

-- header[len(prefix):] if header.startswith(prefix)
unfoldable pub after_prefix : Text → Text → Option Text
after_prefix [] t = some t
after_prefix (c ∷ p) [] = none
after_prefix (c ∷ p) (d ∷ t) = let rest = after_prefix p t in if c == d then rest else none

-- `secrets.compare_digest` on two texts, which must be ASCII.
unfoldable pub compare_digest : Text → Text → Result Bool
compare_digest a b =
    if every (λ c. leb c 127) a && every (λ c. leb c 127) b
    then ok (text_leb a b && text_leb b a)
    else err (Failure.other_exception "TypeError")

-- `check_secret`, with a missing header read as "".
unfoldable pub check_secret : (header expected : Text) → Result (Unit {0})
unfolding after_prefix compare_digest
check_secret header expected = elim (after_prefix (codes "Bearer ") header) [
  | none ↦ raise unauthorized
  | some token ↦ elim (compare_digest token expected) [
    | err e ↦ err e
    | ok true ↦ ok tt
    | ok false ↦ raise unauthorized
  ]
]

-- Sixty seconds.
abbrev pub minute : ℕ
minute = 60000000000

-- `_hits`, a defaultdict of deques.
abbrev pub Hits : Type 0
Hits = List (String × List ℕ)

unfoldable pub window : String → Hits → List ℕ
window k [] = []
window k ((j, w) ∷ hits) = if str_eq j k then w else window k hits

unfoldable pub set_window : String → List ℕ → Hits → Hits
set_window k w [] = (k, w) ∷ []
set_window k w ((j, v) ∷ hits) =
    let rest = set_window k w hits in if str_eq j k then (j, w) ∷ hits else (j, v) ∷ rest

-- while window and window[0] < now - 60: window.popleft()
unfoldable pub drop_old : (now : ℕ) → List ℕ → List ℕ
drop_old now [] = []
drop_old now (t ∷ w) = let rest = drop_old now w in if leb now (t + minute) then t ∷ w else rest

-- `RateLimiter.check`. A refused call leaves the window without its old hits.
unfoldable pub check : (per_minute now : ℕ) → (key : String) → Hits → Result (Unit {0}) × Hits
unfolding window set_window drop_old
check per_minute now key hits =
    let w = drop_old now (window key hits) in
    if leb per_minute (length w)
    then (err (api (api_error rate_limited (some 429))), set_window key w hits)
    else (ok tt, set_window key (w ++ now ∷ []) hits)

-- app/deps.py `require_auth`: the secret, the limiter, then the cap on the body's declared length.
unfoldable pub require_auth :
    (secret : Text) (per_minute max_body_bytes now : ℕ) (header : Text) (real_ip : String)
    (content_length : Option ℕ)
    → Hits
    → Result (Unit {0}) × Hits
unfolding check_secret check
require_auth secret per_minute max_body_bytes now header real_ip content_length hits =
    elim (check_secret header secret) [
      | err e ↦ (err e, hits)
      | ok _ ↦
          let (passed, hits') = check per_minute now real_ip hits in
          elim passed [
            | err e ↦ (err e, hits')
            | ok _ ↦ (
              elim content_length [
                | none ↦ ok tt
                | some n ↦
                    if leb n max_body_bytes
                    then ok tt
                    else err (api (api_error validation_error (some 413)))
              ],
              hits',
            )
          ]
    ]
