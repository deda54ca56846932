-- ===== src/Prelude/Texts.antt =====
-- Texts as lists of code points, and the order in which SQLite compares two TEXT values (BINARY
-- collation: byte by byte of the UTF-8, which is code point by code point). Timestamps are such texts.
use Prim.Native.Char.{code}
use Prim.Native.String.{String}
use Prim.Native.Nat.{ℕ, zero, suc, ◌+◌, ◌/◌, ◌%◌, compare, Ordering}
use vibe_printer.Prelude.Tests.{if◌then◌else◌, leb}
use mathlib.Core.Path.{◌≡◌, refl}
use mathlib.Core.Logic.{◌⊎◌, inl, inr}
use mathlib.Core.Bool.{Bool, true, false, not, ◌&&◌}
use mathlib.Core.List.{List, [], ◌∷◌, ◌++◌}
use native.Mathlib.Omega.{arith}

abbrev pub Text : Type 0
Text = List ℕ

abbrev pub codes : String → Text
codes String.[] = []
codes (String.◌∷◌ c s) = code c ∷ codes s

-- s <= t and s < t on TEXT values.
unfoldable pub text_leb : Text → Text → Bool
text_leb [] ys = true
text_leb (x ∷ xs) [] = false
text_leb (x ∷ xs) (y ∷ ys) = elim (compare x y) [
  | Ordering.lt ↦ true
  | Ordering.eq ↦ text_leb xs ys
  | Ordering.gt ↦ false
]

unfoldable pub text_ltb : Text → Text → Bool
text_ltb s t = not (text_leb t s)

pub text_leb_refl : (xs : Text) → text_leb xs xs ≡ true
unfolding text_leb
text_leb_refl [] = refl
text_leb_refl (x ∷ xs) = ground (arith, text_leb_refl xs)

pub text_leb_total : (xs ys : Text) → (text_leb xs ys ≡ true) ⊎ (text_leb ys xs ≡ true)
unfolding text_leb
text_leb_total [] ys = inl refl
text_leb_total (x ∷ xs) [] = inr refl
text_leb_total (x ∷ xs) (y ∷ ys) = ground (arith, text_leb_total xs ys)

pub text_leb_trans :
    (xs ys zs : Text) → text_leb xs ys ≡ true → text_leb ys zs ≡ true → text_leb xs zs ≡ true
unfolding text_leb
text_leb_trans [] ys zs p q = refl
text_leb_trans (x ∷ xs) [] zs p q = ground arith
text_leb_trans (x ∷ xs) (y ∷ ys) [] p q = ground arith
text_leb_trans (x ∷ xs) (y ∷ ys) (z ∷ zs) p q = ground (arith, text_leb_trans xs ys zs)

text_leb_order : text_leb (codes "10:05:900000Z") (codes "10:06:100000Z") ≡ true
unfolding text_leb
text_leb_order = refl

unfoldable pub text_eq : Text → Text → Bool
text_eq a b = text_leb a b && text_leb b a

-- The decimal digits of n, which are no more than n + 1.
unfoldable pub digits : (fuel : ℕ) → ℕ → Text
digits zero n = []
digits (suc fuel) n =
    let front = digits fuel (n / 10) in (if leb n 9 then [] else front) ++ ((b'0' + n % 10) ∷ [])

unfoldable pub decimal : ℕ → Text
unfolding digits
decimal n = digits (suc n) n

pub text_eq_self : (t : Text) → text_eq t t ≡ true
unfolding text_eq
text_eq_self t = ground (arith, text_leb_refl t)

pub text_eq_path : (s t : Text) → text_eq s t ≡ true → s ≡ t
unfolding text_eq text_leb
text_eq_path [] [] h = refl
text_eq_path [] (y ∷ t) h = absurd (ground (arith, h))
text_eq_path (x ∷ s) [] h = absurd (ground (arith, h))
text_eq_path (x ∷ s) (y ∷ t) h = ground (arith, text_eq_path s t, h)
