-- ===== src/Render/Raster.antt =====
-- app/render.py `_zpl_gfa`: a 1-bit image, by its rows of black dots, as a graphic field in hexadecimal.
use vibe_printer.Prelude.{
  ℕ, zero, suc, ◌+◌, ◌-◌, ◌/◌, ◌%◌, Bool, List, [], ◌∷◌, ◌++◌, if◌then◌else◌, drop, length, leb,
}
use vibe_printer.Prelude.Texts.{Text, codes, decimal}

-- The bits of a byte, the leftmost dot first; `0x80 >> bit` are different bits, so `|` adds them.
unfoldable pub byte_from : (weights : List ℕ) → List Bool → ℕ
byte_from [] dots = 0
byte_from (w ∷ ws) [] = 0
byte_from (w ∷ ws) (dot ∷ dots) = (if dot then w else 0) + byte_from ws dots

abbrev pub bit_weights : List ℕ
bit_weights = 128 ∷ 64 ∷ 32 ∷ 16 ∷ 8 ∷ 4 ∷ 2 ∷ 1 ∷ []

-- The bytes of one row; dots past its width are white.
unfoldable pub row_bytes : (bytes_per_row : ℕ) → List Bool → List ℕ
unfolding byte_from
row_bytes zero row = []
row_bytes (suc n) row = byte_from bit_weights row ∷ row_bytes n (drop 8 row)

unfoldable pub image_bytes : (bytes_per_row : ℕ) → List (List Bool) → List ℕ
unfolding row_bytes
image_bytes n [] = []
image_bytes n (row ∷ rows) = row_bytes n row ++ image_bytes n rows

-- data.hex().upper()
unfoldable pub hex_digit : ℕ → ℕ
hex_digit n = if leb n 9 then b'0' + n else b'A' + (n - 10)

unfoldable pub hex : List ℕ → Text
unfolding hex_digit
hex [] = []
hex (b ∷ bytes) = hex_digit (b / 16) ∷ hex_digit (b % 16) ∷ hex bytes

-- `_zpl_gfa` of an image `width` dots wide.
unfoldable pub zpl_gfa : (width : ℕ) → List (List Bool) → Text
unfolding image_bytes hex
zpl_gfa width rows =
    let bytes_per_row = (width + 7) / 8 in
    let bytes = image_bytes bytes_per_row rows in
    let total = decimal (length bytes) in
    codes "^FO0,0^GFA,"
    ++ (total
        ++ (codes ","
            ++ (total
                ++ (codes ","
                    ++ (decimal bytes_per_row ++ (codes "," ++ (hex bytes ++ codes "^FS")))))))
