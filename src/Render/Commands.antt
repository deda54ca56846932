-- ===== src/Render/Commands.antt =====
-- How many command characters the fields of a label hold, whatever the text in them.
use vibe_printer.Prelude.{
  ℕ, zero, suc, ◌+◌, ◌-◌, ◌*◌, ◌/◌, ◌≡◌, refl, Bool, ◌||◌, List, [], ◌∷◌, ◌++◌, length, arith,
  Bool-cases, inl, inr, ◌==◌, ltb, leb,
}
use vibe_printer.Prelude.Counting.{count_if, count_if-append}
use vibe_printer.Prelude.Texts.{Text, codes, digits, decimal}
use vibe_printer.Render.Zpl.{
  escape_char, zpl_escape, minus_text, text_field, font, table_fields, end_lines,
}

-- The characters that start a command.
abbrev pub is_command : ℕ → Bool
is_command c = (c == b'^') || (c == b'~')

abbrev pub commands : Text → ℕ
commands t = count_if is_command t

pub commands-zpl_escape : (t : Text) → commands (zpl_escape t) ≡ 0
unfolding zpl_escape escape_char
commands-zpl_escape [] = refl
commands-zpl_escape (c ∷ t) = ground (arith, commands-zpl_escape t)

pub commands-digits : (fuel n : ℕ) → commands (digits fuel n) ≡ 0
unfolding digits
commands-digits zero n = refl
commands-digits (suc fuel) n = elim (Bool-cases (leb n 9)) [
  | inl one ↦ rw one (ground arith)
  | inr more ↦ rw (more, count_if-append, commands-digits fuel (n / 10)) (ground arith)
]

pub commands-decimal : (n : ℕ) → commands (decimal n) ≡ 0
unfolding decimal
commands-decimal n = commands-digits (suc n) n

pub commands-text_field :
    (y : ℕ) (command value : Text) → commands (text_field y command value) ≡ 3 + commands command
unfolding text_field
commands-text_field y command value =
    let tail = zpl_escape value ++ codes "^FS" in
    omega (
      arith,
      count_if-append is_command (decimal y) (command ++ (codes "^FD" ++ tail)),
      commands-decimal y,
      count_if-append is_command command (codes "^FD" ++ tail),
      count_if-append is_command (zpl_escape value) (codes "^FS"),
      commands-zpl_escape value,
    )

pub commands-font : (h : ℕ) → commands (font h) ≡ 1
unfolding font
commands-font h =
    omega
      (arith, count_if-append is_command (decimal h) (codes "," ++ decimal h), commands-decimal h)

pub commands-minus_text : (m n : ℕ) → commands (minus_text m n) ≡ 0
unfolding minus_text
commands-minus_text m n = elim (Bool-cases (ltb m n)) [
  | inl less ↦ rw less (commands-decimal (n - m))
  | inr more ↦ rw more (commands-decimal (m - n))
]

pub commands-end_lines :
    (xs ys : List Text)
    → commands (end_lines (xs ++ ys)) ≡ commands (end_lines xs) + commands (end_lines ys)
unfolding end_lines
commands-end_lines [] ys = omega arith
commands-end_lines (x ∷ xs) ys = omega (
  arith,
  commands-end_lines xs ys,
  count_if-append is_command x (b'\n' ∷ end_lines xs),
  count_if-append is_command x (b'\n' ∷ end_lines (xs ++ ys)),
)

pub commands-line :
    (x : Text) (xs : List Text)
    → commands (end_lines (x ∷ xs)) ≡ commands x + commands (end_lines xs)
unfolding end_lines
commands-line x xs = count_if-append is_command x (b'\n' ∷ end_lines xs)

pub commands-table_fields :
    (y : ℕ) (lines : List Text) → commands (end_lines (table_fields y lines)) ≡ 4 * length lines
unfolding table_fields end_lines
commands-table_fields y [] = omega arith
commands-table_fields y (line ∷ lines) =
    let first = text_field y (codes "^A0N,24,24") line in
    omega (
      arith,
      commands-line first (table_fields (y + 28) lines),
      commands-text_field y (codes "^A0N,24,24") line,
      commands-table_fields (y + 28) lines,
    )

pub commands-rule :
    (y width : ℕ)
    → commands
        (codes "^FO20," ++ (decimal y ++ (codes "^GB" ++ (minus_text width 40 ++ codes ",2,2^FS"))))
      ≡ 3
commands-rule y width = omega (
  arith,
  count_if-append is_command (decimal y) (codes "^GB" ++ (minus_text width 40 ++ codes ",2,2^FS")),
  commands-decimal y,
  count_if-append is_command (minus_text width 40) (codes ",2,2^FS"),
  commands-minus_text width 40,
)

pub commands-qr :
    (y size : ℕ) (value : Text)
    → commands (
        codes "^FO20,"
        ++ (decimal y
            ++ (codes "^BQN,2,"
                ++ (decimal size ++ (codes "^FDLA," ++ (zpl_escape value ++ codes "^FS"))))))
      ≡ 4
commands-qr y size value =
    let tail = zpl_escape value ++ codes "^FS" in
    omega (
      arith,
      count_if-append is_command (decimal y)
          (codes "^BQN,2," ++ (decimal size ++ (codes "^FDLA," ++ tail))),
      commands-decimal y,
      count_if-append is_command (decimal size) (codes "^FDLA," ++ tail),
      commands-decimal size,
      count_if-append is_command (zpl_escape value) (codes "^FS"),
      commands-zpl_escape value,
    )
