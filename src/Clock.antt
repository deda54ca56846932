-- ===== src/Clock.antt =====
-- app/db.py `utcnow_iso`, and the midnight of app/api/print.py: how the program writes instants.
-- The format of `utcnow_iso` is `%Y-%m-%dT%H:%M:%fZ`. Python's `%f` is the microsecond in six digits, so
-- the seconds are not written.
pub mod Order
use vibe_printer.Prelude.{ℕ, zero, suc, ◌+◌, ◌/◌, ◌%◌, ◌<◌, ◌≤◌, ◌≡◌, refl, List, [], ◌∷◌, ◌++◌}
use vibe_printer.Prelude.Texts.{Text, codes}

-- A UTC `datetime`.
pub record DateTime : Type 0 where
  pub year : ℕ
  pub month : ℕ
  pub day : ℕ
  pub hour : ℕ
  pub minute : ℕ
  pub second : ℕ
  pub microsecond : ℕ

pub record IsDateTime (t : DateTime) : Type 0 where
  pub year_range : t.year < 10000
  pub month_range : t.month < 100
  pub day_range : t.day < 100
  pub hour_range : t.hour < 24
  pub minute_range : t.minute < 60
  pub second_range : t.second < 60
  pub microsecond_range : t.microsecond < 1000000

-- `n` in `w` digits, with zeros in front, before `rest`.
unfoldable pub pad_digits : ℕ → ℕ → Text → Text
pad_digits zero n rest = rest
pad_digits (suc w) n rest = pad_digits w (n / 10) ((b'0' + n % 10) ∷ rest)

unfoldable pub date_text : DateTime → Text → Text
date_text t rest =
    pad_digits 4 t.year (b'-' ∷ pad_digits 2 t.month (b'-' ∷ pad_digits 2 t.day (b'T' ∷ rest)))

unfoldable pub time_text : DateTime → Text
time_text t =
    pad_digits 2 t.hour
      (b':' ∷ pad_digits 2 t.minute (b':' ∷ pad_digits 6 t.microsecond (b'Z' ∷ [])))

unfoldable pub utcnow_iso : DateTime → Text
unfolding date_text time_text
utcnow_iso t = date_text t (time_text t)

-- strftime("%Y-%m-%dT00:00:00.000Z")
unfoldable pub midnight : DateTime → Text
unfolding date_text
midnight t = date_text t (codes "00:00:00.000Z")

utcnow_iso_test :
    utcnow_iso (record {
      year = 2026;
      month = 6;
      day = 27;
      hour = 10;
      minute = 5;
      second = 3;
      microsecond = 1234;
    })
    ≡ codes "2026-06-27T10:05:001234Z"
unfolding utcnow_iso pad_digits
utcnow_iso_test = refl
