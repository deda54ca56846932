-- ===== src/Ipp.antt =====
-- app/ipp_client.py: the binary form of IPP requests, and the parser of responses. Texts are their UTF-8
-- bytes; the parser's `decode` is left out, so names and values are kept as bytes.
pub mod Attributes
use vibe_printer.Prelude.{
  ℕ, zero, suc, ◌+◌, ◌*◌, ◌/◌, ◌%◌, Bool, true, false, ◌||◌, Option, none, some, List, [], ◌∷◌,
  ◌++◌, ◌==◌, leb, if◌then◌else◌, length, take, drop, or_else,
}
use vibe_printer.Prelude.Texts.{Text, codes, text_eq}

-- n.to_bytes(2, "big"), which raises OverflowError for a larger number; int.from_bytes(bs, "big").
unfoldable pub two_bytes : ℕ → Option Text
two_bytes n = if leb n 65535 then some (n / 256 ∷ n % 256 ∷ []) else none

unfoldable pub from_bytes : ℕ → Text → ℕ
from_bytes acc [] = acc
from_bytes acc (b ∷ bs) = from_bytes (acc * 256 + b) bs

-- `_attr`
unfoldable pub attr : (tag : ℕ) (name value : Text) → Option Text
unfolding two_bytes
attr tag name value = elim (two_bytes (length name)) [
  | none ↦ none
  | some m ↦ elim (two_bytes (length value)) [
    | none ↦ none
    | some n ↦ some (tag ∷ (m ++ (name ++ (n ++ value))))
  ]
]

-- `out += ...` on parts that may raise.
unfoldable pub join : List (Option Text) → Option Text
join [] = some []
join (none ∷ parts) = none
join (some t ∷ parts) = elim (join parts) [ none ↦ none | some rest ↦ some (t ++ rest) ]

-- `_member`, `_media_col_source`, `_job_attributes`: collections have members without a name.
unfoldable pub member : (tag : ℕ) (value : Text) → Option Text
unfolding attr
member tag value = attr tag [] value

unfoldable pub media_col_source : Text → Option Text
unfolding member join
media_col_source tray = join (
    attr 52 (codes "media-col") []
    ∷ member 74 (codes "media-source")
    ∷ member 68 tray
    ∷ attr 55 [] []
    ∷ [])

unfoldable pub job_attributes : (output_bin input_tray : Text) → Option Text
unfolding media_col_source
job_attributes output_bin input_tray = join (
    elim output_bin [ [] ↦ some [] | c ∷ t ↦ attr 68 (codes "output-bin") (c ∷ t) ]
    ∷ elim input_tray [ [] ↦ some [] | c ∷ t ↦ media_col_source (c ∷ t) ]
    ∷ [])

-- `_build`, with the request id 1.
unfoldable pub build : (operation : ℕ) (printer_uri extra job_attrs : Text) → Option Text
unfolding join attr
build operation printer_uri extra job_attrs = join (
    some (2 ∷ 0 ∷ [])
    ∷ two_bytes operation
    ∷ some (0 ∷ 0 ∷ 0 ∷ 1 ∷ 1 ∷ [])
    ∷ attr 71 (codes "attributes-charset") (codes "utf-8")
    ∷ attr 72 (codes "attributes-natural-language") (codes "en")
    ∷ attr 69 (codes "printer-uri") printer_uri
    ∷ attr 66 (codes "requesting-user-name") (codes "vibe-print")
    ∷ some extra
    ∷ some (elim job_attrs [ [] ↦ [] | c ∷ t ↦ 2 ∷ c ∷ t ])
    ∷ some (3 ∷ [])
    ∷ [])

-- `build_print_job`
unfoldable pub build_print_job :
    (printer_uri pdf job_name output_bin input_tray : Text) → Option Text
unfolding build job_attributes
build_print_job printer_uri pdf job_name output_bin input_tray =
    elim (join (
      attr 66 (codes "job-name") job_name
      ∷ attr 73 (codes "document-format") (codes "application/pdf")
      ∷ [])) [
        | none ↦ none
        | some extra ↦ elim (job_attributes output_bin input_tray) [
          | none ↦ none
          | some job_attrs ↦ join (build 2 printer_uri extra job_attrs ∷ some pdf ∷ [])
        ]
      ]

-- `_ipp_status`: a body of fewer than four bytes is a RuntimeError.
unfoldable pub ipp_status : Text → Option ℕ
unfolding from_bytes
ipp_status body = if leb 4 (length body) then some (from_bytes 0 (take 2 (drop 2 body))) else none

-- The dict of the parser: `attrs.setdefault(key, []).append(value)`.
abbrev pub Attributes : Type 0
Attributes = List (Text × List Text)

unfoldable pub add_value : Text → Text → Attributes → Attributes
unfolding text_eq
add_value k v [] = (k, v ∷ []) ∷ []
add_value k v ((j, vs) ∷ m) =
    let rest = add_value k v m in if text_eq j k then (j, vs ++ v ∷ []) ∷ m else (j, vs) ∷ rest

-- attrs.get(k, [])
unfoldable pub values_of : Text → Attributes → List Text
unfolding text_eq
values_of k [] = []
values_of k ((j, vs) ∷ m) = let rest = values_of k m in if text_eq j k then vs else rest

-- Integers, booleans and enums are skipped.
unfoldable pub is_skipped : ℕ → Bool
is_skipped tag = (tag == 33) || ((tag == 34) || (tag == 35))

unfoldable pub keep_value : (tag : ℕ) → Option Text → Text → Attributes → Attributes
unfolding add_value is_skipped
keep_value tag none v m = m
keep_value tag (some k) v m = if is_skipped tag then m else add_value k v m

-- A length in two bytes, the bytes that it covers, and what follows.
unfoldable pub read_sized : Text → ℕ × Text × Text
unfolding from_bytes
read_sized body =
    let n = from_bytes 0 (take 2 body) in (n, take n (drop 2 body), drop n (drop 2 body))

-- The loop of `_parse_attributes`, on what is left of the body. A round takes a byte at least.
unfoldable pub parse_from : (fuel : ℕ) → (last : Option Text) → Text → Attributes → Attributes
parse_from zero last body m = m
parse_from (suc fuel) last [] m = m
parse_from (suc fuel) last (tag ∷ body) m =
    let (name_len, name, body₂) = read_sized body in
    let (val_len, value, body₄) = read_sized body₂ in
    let key : Option Text = elim name_len [ zero ↦ last | suc n ↦ some name ] in
    let attributes = parse_from fuel key body₄ (keep_value tag key value m) in
    let group = parse_from fuel none body m in
    if leb 16 tag
    then (if leb 2 (length body) then attributes else m)
    else if tag == 3
    then m
    else group

unfoldable pub parse_attributes : Text → Attributes
unfolding parse_from
parse_attributes body = parse_from (length body) none (drop 8 body) []
