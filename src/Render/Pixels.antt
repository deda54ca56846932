-- ===== src/Render/Pixels.antt =====
-- The graphic data of `_zpl_gfa`, read back by a printer.
use vibe_printer.Prelude.{
  ℕ, zero, suc, ◌+◌, ◌-◌, ◌*◌, ◌/◌, ◌%◌, ◌≤◌, ◌<◌, ◌≡◌, refl, ap, Bool, true, false, List, [], ◌∷◌,
  ◌++◌, if◌then◌else◌, take, drop, length-drop, take-length, drop-length, All-append, length, leb,
  arith, All,
}
use vibe_printer.Prelude.Texts.{Text}
use vibe_printer.Render.Raster.{byte_from, bit_weights, row_bytes, image_bytes, hex_digit, hex}

-- How a printer reads the field: two hexadecimal digits to a byte, eight dots to a byte.
abbrev pub digit_value : ℕ → ℕ
digit_value c = if leb c b'9' then c - b'0' else c - b'A' + 10

abbrev pub unhex : Text → List ℕ
unhex [] = []
unhex (c ∷ []) = []
unhex (c ∷ d ∷ t) = (digit_value c * 16 + digit_value d) ∷ unhex t

abbrev pub dots_from : (weights : List ℕ) → ℕ → List Bool
dots_from [] b = []
dots_from (w ∷ ws) b = leb w b ∷ dots_from ws (if leb w b then b - w else b)

abbrev pub dots_of : List ℕ → List Bool
dots_of [] = []
dots_of (b ∷ bytes) = dots_from bit_weights b ++ dots_of bytes

abbrev pub read_rows : (bytes_per_row width height : ℕ) → List ℕ → List (List Bool)
read_rows n width zero bytes = []
read_rows n width (suc height) bytes =
    take width (dots_of (take n bytes)) ∷ read_rows n width height (drop n bytes)

-- Weights that halve from `top / 2` down to 1.
abbrev Halving : ℕ → List ℕ → Type 0
Halving top [] = top ≡ 1
Halving top (w ∷ ws) = (top ≡ w + w) × (0 < w) × Halving w ws

byte_from-nil : (ws : List ℕ) → byte_from ws [] ≡ 0
unfolding byte_from
byte_from-nil [] = refl
byte_from-nil (w ∷ ws) = refl

byte_from-lt : (top : ℕ) (ws : List ℕ) (a : List Bool) → Halving top ws → byte_from ws a < top
unfolding byte_from
byte_from-lt top [] a h = omega (arith, h)
byte_from-lt top (w ∷ ws) [] h = omega (arith, h.0, h.1)
byte_from-lt top (w ∷ ws) (x ∷ a) h = ground (arith, h.0, h.1, byte_from-lt w ws a h.2)

-- The dots of a list, white where it ends.
abbrev padded : List ℕ → List Bool → List Bool
padded [] a = []
padded (w ∷ ws) [] = false ∷ padded ws []
padded (w ∷ ws) (x ∷ a) = x ∷ padded ws a

dots_from-byte_from :
    (top : ℕ) (ws : List ℕ) (a : List Bool)
    → Halving top ws
    → dots_from ws (byte_from ws a) ≡ padded ws a
unfolding byte_from
dots_from-byte_from top [] a h = refl
dots_from-byte_from top (w ∷ ws) [] h =
    let rest : dots_from ws 0 ≡ padded ws [] =
      rw (← byte_from-nil ws) (dots_from-byte_from w ws [] h.2) in
    let e : leb w 0 ≡ false = ground (arith, h.1) in rw e (ap (λ l. false ∷ l) rest)
dots_from-byte_from top (w ∷ ws) (true ∷ a) h =
    let lt = byte_from-lt w ws a h.2 in
    let e : leb w (w + byte_from ws a) ≡ true = ground arith in
    let d : w + byte_from ws a - w ≡ byte_from ws a = omega arith in
    rw (e, d) (ap (λ l. true ∷ l) (dots_from-byte_from w ws a h.2))
dots_from-byte_from top (w ∷ ws) (false ∷ a) h =
    let lt = byte_from-lt w ws a h.2 in
    let e : leb w (byte_from ws a) ≡ false = ground arith in
    let z : 0 + byte_from ws a ≡ byte_from ws a = omega arith in
    rw (z, e) (ap (λ l. false ∷ l) (dots_from-byte_from w ws a h.2))

digit_value-hex_digit : (n : ℕ) → n < 16 → digit_value (hex_digit n) ≡ n
unfolding hex_digit
digit_value-hex_digit n h = ground arith

unhex-hex : (bytes : List ℕ) → All (λ b. b < 256) bytes → unhex (hex bytes) ≡ bytes
unfolding hex
unhex-hex [] h = refl
unhex-hex (b ∷ bytes) h =
    let high = digit_value-hex_digit (b / 16) (omega (arith, h.0)) in
    let low = digit_value-hex_digit (b % 16) (omega arith) in
    let sum : b / 16 * 16 + b % 16 ≡ b = omega arith in
    rw (high, low, sum) (ap (λ l. b ∷ l) (unhex-hex bytes h.1))

take-padded :
    (ws : List ℕ) (row rest : List Bool)
    → take (length (drop (length ws) row)) rest ≡ drop (length ws) row
    → take (length row) (padded ws row ++ rest) ≡ row
take-padded [] row rest h = h
take-padded (w ∷ ws) [] rest h = refl
take-padded (w ∷ ws) (x ∷ row) rest h = ap (λ l. x ∷ l) (take-padded ws row rest h)

bits_halve : Halving 256 bit_weights
bits_halve = omega arith

-- The dots of a row that its bytes cover are the row.
take-row_bytes :
    (n : ℕ) (row : List Bool)
    → length row ≤ 8 * n
    → take (length row) (dots_of (row_bytes n row)) ≡ row
unfolding row_bytes
take-row_bytes zero [] h = refl
take-row_bytes zero (x ∷ row) h = absurd (omega (arith, h))
take-row_bytes (suc n) row h =
    let rest = dots_of (row_bytes n (drop 8 row)) in
    let e : dots_of (row_bytes (suc n) row) ≡ padded bit_weights row ++ rest =
      ap (λ d. d ++ rest) (dots_from-byte_from 256 bit_weights row bits_halve) in
    rw e (
      take-padded bit_weights row rest
        (take-row_bytes n (drop 8 row) (omega (arith, h, length-drop 8 row))))

length-row_bytes : (n : ℕ) (row : List Bool) → length (row_bytes n row) ≡ n
unfolding row_bytes
length-row_bytes zero row = refl
length-row_bytes (suc n) row = ap suc (length-row_bytes n (drop 8 row))

row_bytes-lt : (n : ℕ) (row : List Bool) → All (λ b. b < 256) (row_bytes n row)
unfolding row_bytes
row_bytes-lt zero row = tt
row_bytes-lt (suc n) row =
    (byte_from-lt 256 bit_weights row bits_halve, row_bytes-lt n (drop 8 row))

image_bytes-lt : (n : ℕ) (rows : List (List Bool)) → All (λ b. b < 256) (image_bytes n rows)
unfolding image_bytes
image_bytes-lt n [] = tt
image_bytes-lt n (row ∷ rows) =
    All-append (λ b. b < 256) (row_bytes n row) (image_bytes n rows) (row_bytes-lt n row)
      (image_bytes-lt n rows)

read_rows-image_bytes :
    (n width : ℕ) (rows : List (List Bool))
    → width ≤ 8 * n
    → All (λ row. length row ≡ width) rows
    → read_rows n width (length rows) (image_bytes n rows) ≡ rows
unfolding image_bytes
read_rows-image_bytes n width [] fits h = refl
read_rows-image_bytes n width (row ∷ rows) fits h =
    let bytes = row_bytes n row in
    let front : take n (bytes ++ image_bytes n rows) ≡ bytes =
      rw (length-row_bytes n row) at (take-length bytes (image_bytes n rows)) in
    let back : drop n (bytes ++ image_bytes n rows) ≡ image_bytes n rows =
      rw (length-row_bytes n row) at (drop-length bytes (image_bytes n rows)) in
    let shown : take width (dots_of bytes) ≡ row =
      rw h.0 at (take-row_bytes n row (omega (arith, fits, h.0))) in
    rw (front, back, shown) (ap (λ l. row ∷ l) (read_rows-image_bytes n width rows fits h.1))

-- A printer that reads the hexadecimal data of the field, eight dots to a byte with the leftmost dot
-- in the highest bit and as many bytes to a row as the field says, gets the image that was packed.
pub read_rows-hex :
    (width : ℕ) (rows : List (List Bool))
    → All (λ row. length row ≡ width) rows
    → let n = (width + 7) / 8 in
      read_rows n width (length rows) (unhex (hex (image_bytes n rows))) ≡ rows
read_rows-hex width rows h =
    let n = (width + 7) / 8 in
    rw (unhex-hex (image_bytes n rows) (image_bytes-lt n rows))
      (read_rows-image_bytes n width rows (omega arith) h)
