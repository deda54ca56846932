-- ===== src/Auth/Limits.antt =====
-- What the limiter admits.
use text.Mathlib.TextPositions.{eq_refl}
use vibe_printer.Prelude.{
  ℕ, ◌+◌, ◌≤◌, ◌≡◌, ◌⊎◌, inl, inr, refl, Bool, true, String, some, List, [], ◌∷◌, ◌++◌, str_eq,
  eq_iff, leb, if◌then◌else◌, length, length-append, arith, keep, All, Bool-cases,
}
use vibe_printer.Prelude.Sort.{IsSorted}
use vibe_printer.Errors.{ok, err, api, api_error, rate_limited}
use vibe_printer.Auth.{minute, Hits, window, set_window, drop_old, check}

-- A hit within the last sixty seconds.
abbrev pub is_recent : (now t : ℕ) → Bool
is_recent now t = leb now (t + minute)

window-set_window :
    (k q : String) (w : List ℕ) (hits : Hits)
    → window q (set_window k w hits) ≡ (if str_eq k q then w else window q hits)
unfolding window set_window
window-set_window k q w [] = ground arith
window-set_window k q w ((j, v) ∷ hits) =
    ground (arith, eq_iff j k, eq_iff j q, eq_iff k q, window-set_window k q w hits)

keep-later :
    (now x : ℕ) (w : List ℕ)
    → is_recent now x ≡ true
    → All (λ y. leb x y ≡ true) w
    → keep (is_recent now) w ≡ w
keep-later now x [] r h = refl
keep-later now x (y ∷ w) r h = ground (arith, keep-later now x w r h.1, h.0)

-- Of a window in the order of time, the loop drops just the hits that are older than sixty seconds.
drop_old-keep : (now : ℕ) (w : List ℕ) → IsSorted leb w → drop_old now w ≡ keep (is_recent now) w
unfolding drop_old
drop_old-keep now [] h = refl
drop_old-keep now (x ∷ w) h = elim (Bool-cases (is_recent now x)) [
  | inl recent ↦ ground (arith, keep-later now x w recent h.0)
  | inr old ↦ rw old (drop_old-keep now w h.1)
]

-- With the client's hits in the order of time: a call is refused, as rate_limited (429), exactly when
-- the client had the full number of admitted calls in the last sixty seconds, and otherwise it is
-- admitted and counted. Older hits are forgotten either way, and no other client's are touched. A
-- window never holds more than the number.
pub check_cases :
    (per_minute now : ℕ) (key q : String) (hits : Hits)
    → IsSorted leb (window key hits)
    → let recent = keep (is_recent now) (window key hits) in
      let (result, hits') = check per_minute now key hits in
      ((per_minute ≤ length recent)
        × (result ≡ err (api (api_error rate_limited (some 429))))
        × (window q hits' ≡ (if str_eq key q then recent else window q hits)))
      ⊎ ((length (window key hits') ≤ per_minute)
          × (result ≡ ok tt)
          × (window q hits' ≡ (if str_eq key q then recent ++ now ∷ [] else window q hits)))
unfolding check
check_cases per_minute now key q hits sorted =
    let recent = keep (is_recent now) (window key hits) in
    let e = drop_old-keep now (window key hits) sorted in
    elim (Bool-cases (leb per_minute (length recent))) [
      | inl full ↦
          inl (ground arith, rw (e, full) refl, rw (e, full) (window-set_window key q recent hits))
      | inr room ↦ inr (
        rw (e, room)
            (rw (window-set_window key key (recent ++ now ∷ []) hits, eq_refl key, length-append)
              (ground arith)),
        rw (e, room) refl,
        rw (e, room) (window-set_window key q (recent ++ now ∷ []) hits),
      )
    ]
