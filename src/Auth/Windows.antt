-- ===== src/Auth/Windows.antt =====
-- Windows of hits against the times of the requests that were let pass.
use vibe_printer.Prelude.{
  ℕ, ◌≤◌, ◌≡◌, refl, sym, ap, ◌∙◌, Bool, true, List, [], ◌∷◌, ◌++◌, leb, length, length-keep-le,
  keep, All, arith, Bool-cases, inl, inr,
}
use vibe_printer.Prelude.Sort.{IsSorted}
use vibe_printer.Auth.Limits.{is_recent}

keep-keep :
    (now later : ℕ) (ts : List ℕ)
    → now ≤ later
    → keep (is_recent later) (keep (is_recent now) ts) ≡ keep (is_recent later) ts
keep-keep now later [] h = refl
keep-keep now later (t ∷ ts) h = ground (arith, keep-keep now later ts h)

keep-below :
    (p : ℕ → Bool) (bound : ℕ) (ts : List ℕ)
    → All (λ t. t ≤ bound) ts
    → All (λ t. t ≤ bound) (keep p ts)
keep-below p bound [] h = tt
keep-below p bound (t ∷ ts) h = elim (Bool-cases (p t)) [
  | inl yes_ ↦ rw yes_ (h.0, keep-below p bound ts h.1)
  | inr no_ ↦ rw no_ (keep-below p bound ts h.1)
]

keep-before :
    (p : ℕ → Bool) (x : ℕ) (ts : List ℕ)
    → All (λ t. leb x t ≡ true) ts
    → All (λ t. leb x t ≡ true) (keep p ts)
keep-before p x [] h = tt
keep-before p x (t ∷ ts) h = elim (Bool-cases (p t)) [
  | inl yes_ ↦ rw yes_ (h.0, keep-before p x ts h.1)
  | inr no_ ↦ rw no_ (keep-before p x ts h.1)
]

keep-IsSorted : (p : ℕ → Bool) (ts : List ℕ) → IsSorted leb ts → IsSorted leb (keep p ts)
keep-IsSorted p [] h = tt
keep-IsSorted p (t ∷ ts) h = elim (Bool-cases (p t)) [
  | inl yes_ ↦ rw yes_ (keep-before p t ts h.0, keep-IsSorted p ts h.1)
  | inr no_ ↦ rw no_ (keep-IsSorted p ts h.1)
]

before-append :
    (x now : ℕ) (ts : List ℕ)
    → All (λ t. leb x t ≡ true) ts
    → x ≤ now
    → All (λ t. leb x t ≡ true) (ts ++ now ∷ [])
before-append x now [] h le = (ground arith, tt)
before-append x now (t ∷ ts) h le = (h.0, before-append x now ts h.1 le)

append-IsSorted :
    (now : ℕ) (ts : List ℕ)
    → IsSorted leb ts
    → All (λ t. t ≤ now) ts
    → IsSorted leb (ts ++ now ∷ [])
append-IsSorted now [] h below = (tt, tt)
append-IsSorted now (t ∷ ts) h below =
    (before-append t now ts h.0 below.0, append-IsSorted now ts h.1 below.1)

below-append :
    (bound now : ℕ) (ts : List ℕ)
    → All (λ t. t ≤ bound) ts
    → bound ≤ now
    → All (λ t. t ≤ now) (ts ++ now ∷ [])
below-append bound now [] h le = (omega arith, tt)
below-append bound now (t ∷ ts) h le = (omega arith, below-append bound now ts h.1 le)

below-later :
    (bound now : ℕ) (ts : List ℕ) → All (λ t. t ≤ bound) ts → bound ≤ now → All (λ t. t ≤ now) ts
below-later bound now [] h le = tt
below-later bound now (t ∷ ts) h le = (omega arith, below-later bound now ts h.1 le)

keep-append :
    (p : ℕ → Bool) (xs : List ℕ) (x : ℕ) → p x ≡ true → keep p (xs ++ x ∷ []) ≡ keep p xs ++ x ∷ []
keep-append p [] x h = rw h refl
keep-append p (y ∷ xs) x h = ground (arith, keep-append p xs x h)

-- A window holds the recent ones of these times, in order, and not too many.
pub record Tracks (per_minute now : ℕ) (hits ts : List ℕ) : Type 0 where
  pub sorted : IsSorted leb hits
  pub below : All (λ t. t ≤ now) hits
  pub same : keep (is_recent now) hits ≡ keep (is_recent now) ts
  pub few : length hits ≤ per_minute

module _ (per_minute now : ℕ) (hits ts : List ℕ) (h : Tracks per_minute now hits ts) where
  pub Tracks-later : (later : ℕ) → now ≤ later → Tracks per_minute later hits ts
  Tracks-later later le = record {
    sorted = h.sorted;
    below = below-later now later hits h.below le;
    same =
        sym (keep-keep now later hits le)
        ∙ (ap (keep (is_recent later)) h.same ∙ keep-keep now later ts le);
    few = h.few;
  }

  pub Tracks-recent : Tracks per_minute now (keep (is_recent now) hits) ts
  Tracks-recent = record {
    sorted = keep-IsSorted (is_recent now) hits h.sorted;
    below = keep-below (is_recent now) now hits h.below;
    same = keep-keep now now hits (omega arith) ∙ h.same;
    few = omega (arith, h.few, length-keep-le (is_recent now) hits);
  }

  pub Tracks-append :
      length (hits ++ now ∷ []) ≤ per_minute
      → Tracks per_minute now (hits ++ now ∷ []) (ts ++ now ∷ [])
  Tracks-append room =
      let fresh : is_recent now now ≡ true = ground arith in
      record {
        sorted = append-IsSorted now hits h.sorted h.below;
        below = below-append now now hits h.below (omega arith);
        same =
            keep-append (is_recent now) hits now fresh
            ∙ (ap (λ l. l ++ now ∷ []) h.same ∙ sym (keep-append (is_recent now) ts now fresh));
        few = room;
      }
