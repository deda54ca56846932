-- ===== src/Clock/Order.antt =====
-- The order of the stored timestamps, as SQLite compares them.
use Prim.Native.Nat.{compare, Ordering}
use native.Mathlib.Nat.{pow-suc}
use vibe_printer.Prelude.{
  ℕ, zero, suc, ◌+◌, ◌^◌, ◌/◌, ◌%◌, ◌<◌, ◌≡◌, ap, ◌∙◌, Bool, true, false, ◌∷◌, arith,
}
use vibe_printer.Prelude.Texts.{Text, codes, text_leb}
use vibe_printer.Clock.{
  DateTime, IsDateTime, pad_digits, date_text, time_text, utcnow_iso, midnight,
}

-- Compare a number, and on a tie what follows it.
abbrev pub then_leb : ℕ → ℕ → Bool → Bool
then_leb m n tie = elim (compare m n) [
  | Ordering.lt ↦ true
  | Ordering.eq ↦ tie
  | Ordering.gt ↦ false
]

then_leb_digit :
    (m n : ℕ) (tie : Bool)
    → then_leb (m / 10) (n / 10) (then_leb (b'0' + m % 10) (b'0' + n % 10) tie) ≡ then_leb m n tie
then_leb_digit m n tie = ground arith

pad_digits_leb :
    (w m n : ℕ) (xs ys : Text)
    → m < 10 ^ w
    → n < 10 ^ w
    → text_leb (pad_digits w m xs) (pad_digits w n ys) ≡ then_leb m n (text_leb xs ys)
unfolding pad_digits text_leb
pad_digits_leb zero m n xs ys hm hn = ground arith
pad_digits_leb (suc w) m n xs ys hm hn =
    pad_digits_leb w (m / 10) (n / 10) ((b'0' + m % 10) ∷ xs) ((b'0' + n % 10) ∷ ys)
      (omega (arith, pow-suc 10 w)) (omega (arith, pow-suc 10 w))
    ∙ then_leb_digit m n (text_leb xs ys)

-- The order of the dates that two instants lie in, and `tie` on the same date.
abbrev pub date_leb : DateTime → DateTime → Bool → Bool
date_leb a b tie = then_leb a.year b.year (then_leb a.month b.month (then_leb a.day b.day tie))

date_text_leb :
    (a b : DateTime) (xs ys : Text)
    → IsDateTime a
    → IsDateTime b
    → text_leb (date_text a xs) (date_text b ys) ≡ date_leb a b (text_leb xs ys)
unfolding date_text text_leb
date_text_leb a b xs ys ha hb =
    pad_digits_leb 4 a.year b.year _ _ (omega arith) (omega arith)
    ∙ ap (then_leb a.year b.year) (
        pad_digits_leb 2 a.month b.month _ _ (omega arith) (omega arith)
        ∙ ap (then_leb a.month b.month)
            (pad_digits_leb 2 a.day b.day _ _ (omega arith) (omega arith)))

time_text_leb :
    (a b : DateTime)
    → IsDateTime a
    → IsDateTime b
    → text_leb (time_text a) (time_text b)
      ≡ then_leb a.hour b.hour
          (then_leb a.minute b.minute (then_leb a.microsecond b.microsecond true))
unfolding time_text text_leb
time_text_leb a b ha hb =
    pad_digits_leb 2 a.hour b.hour _ _ (omega arith) (omega arith)
    ∙ ap (then_leb a.hour b.hour) (
        pad_digits_leb 2 a.minute b.minute _ _ (omega arith) (omega arith)
        ∙ ap (then_leb a.minute b.minute)
            (pad_digits_leb 6 a.microsecond b.microsecond _ _ (omega arith) (omega arith)))

-- Two stored timestamps compare as the instants without their seconds: by date, hour, minute, and
-- then by the microsecond within the second.
pub utcnow_iso_leb :
    (a b : DateTime)
    → IsDateTime a
    → IsDateTime b
    → text_leb (utcnow_iso a) (utcnow_iso b)
      ≡ date_leb a b (
          then_leb a.hour b.hour
            (then_leb a.minute b.minute (then_leb a.microsecond b.microsecond true)))
unfolding utcnow_iso
utcnow_iso_leb a b ha hb = date_text_leb a b _ _ ha hb ∙ ap (date_leb a b) (time_text_leb a b ha hb)

midnight_tail :
    (t : DateTime) → IsDateTime t → text_leb (codes "00:00:00.000Z") (time_text t) ≡ true
unfolding time_text text_leb pad_digits
midnight_tail t h = ground arith

-- A stored timestamp is at or after the midnight of a date exactly when its own date is not before it.
pub midnight_leb :
    (d t : DateTime)
    → IsDateTime d
    → IsDateTime t
    → text_leb (midnight d) (utcnow_iso t) ≡ date_leb d t true
unfolding midnight utcnow_iso
midnight_leb d t hd ht = date_text_leb d t _ _ hd ht ∙ ap (date_leb d t) (midnight_tail t ht)
