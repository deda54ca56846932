-- ===== src/Ipp/Attributes.antt =====
-- The parser on what `_attr` writes.
use vibe_printer.Prelude.{
  ℕ, zero, suc, ◌+◌, ◌*◌, ◌/◌, ◌%◌, ◌≤◌, ◌<◌, ◌≡◌, refl, Bool, true, false, Option, none, some,
  List, [], ◌∷◌, ◌++◌, arith, length, ap, length-append, take-length, drop-length, ◌∙◌, leb, All,
  if◌then◌else◌, ◌&&◌, ◌||◌, ltb, sym, Bool-cases, Option-cases, inl, inr,
}
use vibe_printer.Prelude.Texts.{Text, text_eq, text_eq_path, text_eq_self}
use vibe_printer.Ipp.{
  two_bytes, from_bytes, attr, Attributes, keep_value, parse_from, parse_attributes, read_sized,
  values_of, add_value, is_skipped, join,
}

-- The two bytes of a length, read back.
length_read : (n : ℕ) → (0 + n / 256) * 256 + n % 256 ≡ n
length_read n = omega arith

-- The bytes of an attribute whose lengths fit.
abbrev layout : ℕ → Text → Text → Text
layout tag name value =
    tag
    ∷ (length name / 256
        ∷ (length name % 256 ∷ (name ++ (length value / 256 ∷ (length value % 256 ∷ value)))))

attr-layout :
    (tag : ℕ) (name value bytes : Text)
    → attr tag name value ≡ some bytes
    → bytes ≡ layout tag name value
unfolding attr two_bytes
attr-layout tag name value bytes h = elim (Bool-cases (leb (length name) 65535)) [
  | inr long ↦ let e : attr tag name value ≡ none = rw (long, attr, two_bytes) refl in cc (h, e)
  | inl fits ↦ elim (Bool-cases (leb (length value) 65535)) [
    | inr long ↦
        let e : attr tag name value ≡ none = rw (fits, long, attr, two_bytes) refl in cc (h, e)
    | inl short ↦
        let e : attr tag name value ≡ some (layout tag name value) =
          rw (fits, short, attr, two_bytes) refl in
        cc (h, e)
  ]
]

append_assoc : {A : Type 0} (xs ys zs : List A) → (xs ++ ys) ++ zs ≡ xs ++ (ys ++ zs)
append_assoc [] ys zs = refl
append_assoc (x ∷ xs) ys zs = ap (λ l. x ∷ l) (append_assoc xs ys zs)

read_sized-layout :
    (xs rest : Text)
    → read_sized (length xs / 256 ∷ (length xs % 256 ∷ (xs ++ rest))) ≡ (length xs, xs, rest)
unfolding read_sized from_bytes
read_sized-layout xs rest =
    rw (length_read (length xs), take-length xs rest, drop-length xs rest) refl

parse-layout :
    (fuel tag c : ℕ) (name value rest : Text) (last : Option Text) (m : Attributes)
    → leb 16 tag ≡ true
    → parse_from (suc fuel) last (layout tag (c ∷ name) value ++ rest) m
      ≡ parse_from fuel (some (c ∷ name)) rest (keep_value tag (some (c ∷ name)) value m)
unfolding parse_from
parse-layout fuel tag c name value rest last m h =
    let tail = length value / 256 ∷ (length value % 256 ∷ (value ++ rest)) in
    let e = read_sized-layout (c ∷ name) tail in
    let assoc = append_assoc name (length value / 256 ∷ (length value % 256 ∷ value)) rest in
    rw (assoc, e, read_sized-layout value rest, h) (rw (assoc, e) (ground arith))

-- The attributes of a response: tag, name and value of each.
abbrev pub Attribute : Type 0
Attribute = ℕ × Text × Text

abbrev pub encode : List Attribute → List (Option Text)
encode [] = []
encode ((tag, name, value) ∷ ats) = attr tag name value ∷ encode ats

-- What their names, which are not empty, and values make of a dict.
abbrev collect : List Attribute → Attributes → Attributes
collect [] m = m
collect ((tag, name, value) ∷ ats) m = collect ats (keep_value tag (some name) value m)

abbrev pub is_named : Attribute → Bool
is_named (tag, [], value) = false
is_named (tag, c ∷ name, value) = leb 16 tag

parse_from-join :
    (ats : List Attribute) (fuel : ℕ) (last : Option Text) (bytes rest : Text) (m : Attributes)
    → All (λ a. is_named a ≡ true) ats
    → join (encode ats) ≡ some bytes
    → length ats < fuel
    → parse_from fuel last (bytes ++ 3 ∷ rest) m ≡ collect ats m
unfolding join
parse_from-join ats zero last bytes rest m named h f = ground arith
parse_from-join [] (suc fuel) last bytes rest m named h f =
    let e : bytes ≡ [] = ground arith in rw e (unfold parse_from in refl)
parse_from-join ((tag, [], value) ∷ ats) (suc fuel) last bytes rest m named h f = cc named.0
parse_from-join ((tag, c ∷ name, value) ∷ ats) (suc fuel) last bytes rest m named h f =
    elim (Option-cases (attr tag (c ∷ name) value)) [
      | inl long ↦ ground arith
      | inr (front, fits) ↦ elim (Option-cases (join (encode ats))) [
        | inl long ↦ ground arith
        | inr (back, all_fit) ↦
            let e : bytes ≡ layout tag (c ∷ name) value ++ back =
              ground (arith, attr-layout tag (c ∷ name) value front fits) in
            rw (e, append_assoc (layout tag (c ∷ name) value) back (3 ∷ rest))
              (parse-layout fuel tag c name value (back ++ 3 ∷ rest) last m named.0
                ∙ parse_from-join ats fuel (some (c ∷ name)) back rest
                    (keep_value tag (some (c ∷ name)) value m) named.1 all_fit (omega (arith, f)))
      ]
    ]

length-encode :
    (ats : List Attribute) (bytes : Text)
    → join (encode ats) ≡ some bytes
    → length ats ≤ length bytes
unfolding join
length-encode [] bytes h = omega arith
length-encode ((tag, name, value) ∷ ats) bytes h = elim (Option-cases (attr tag name value)) [
  | inl long ↦ ground arith
  | inr (front, fits) ↦ elim (Option-cases (join (encode ats))) [
    | inl long ↦ ground arith
    | inr (back, all_fit) ↦
        let e : bytes ≡ layout tag name value ++ back =
          ground (arith, attr-layout tag name value front fits) in
        rw (e, length-append) (omega (arith, length-encode ats back all_fit))
  ]
]

-- The values that a response gives to a name, in their order. Those tagged as an
-- integer (33), a boolean (34) or an enum (35) do not count.
abbrev pub values_under : Text → List Attribute → List Text
values_under k [] = []
values_under k ((tag, name, value) ∷ ats) =
    let rest = values_under k ats in
    if (ltb tag 33 || ltb 35 tag) && text_eq name k then value ∷ rest else rest

append_nil : {A : Type 0} (xs : List A) → xs ++ [] ≡ xs
append_nil [] = refl
append_nil (x ∷ xs) = ap (λ l. x ∷ l) (append_nil xs)

values_of-add_value :
    (k j v : Text) (m : Attributes)
    → values_of k (add_value j v m)
      ≡ (if text_eq j k then values_of k m ++ v ∷ [] else values_of k m)
unfolding values_of add_value
values_of-add_value k j v [] = ground arith
values_of-add_value k j v ((i, vs) ∷ m) = elim (Bool-cases (text_eq i j)) [
  | inl same ↦ let e : i ≡ j = text_eq_path i j same in rw (same, e) (ground arith)
  | inr other ↦ elim (Bool-cases (text_eq i k)) [
    | inr further ↦ rw (other, further) (values_of-add_value k j v m)
    | inl here ↦ elim (Bool-cases (text_eq j k)) [
      | inr apart ↦ rw (other, here, apart) refl
      | inl both ↦
          let e : i ≡ j = text_eq_path i k here ∙ sym (text_eq_path j k both) in
          absurd (ground (arith, other, e, text_eq_self j))
    ]
  ]
]

values_of-keep_value :
    (k name v : Text) (tag : ℕ) (m : Attributes)
    → values_of k (keep_value tag (some name) v m) ≡ (
        if (ltb tag 33 || ltb 35 tag) && text_eq name k
        then values_of k m ++ v ∷ []
        else values_of k m)
unfolding keep_value is_skipped
values_of-keep_value k name v tag m = ground (arith, values_of-add_value k name v m)

values_of-collect :
    (k : Text) (ats : List Attribute) (m : Attributes)
    → values_of k (collect ats m) ≡ values_of k m ++ values_under k ats
values_of-collect k [] m = sym (append_nil (values_of k m))
values_of-collect k ((tag, name, value) ∷ ats) m =
    values_of-collect k ats (keep_value tag (some name) value m)
    ∙ rw (values_of-keep_value k name value tag m)
        (elim (Bool-cases ((ltb tag 33 || ltb 35 tag) && text_eq name k)) [
          | inl counts ↦ rw counts (append_assoc (values_of k m) (value ∷ []) (values_under k ats))
          | inr not_ ↦ rw not_ refl
        ])

-- A response is read as it was written: what `_attr` makes of attributes with a tag from 16 on, a name,
-- and lengths that fit in two bytes, stands between the eight bytes of a header with the tag of a group
-- and the end tag. Then the parser's dict has for every name the values that were written under it, in
-- their order, less those tagged as an integer, a boolean or an enum; and whatever follows the end tag
-- does not matter.
pub parse_attributes-join :
    (v₁ v₂ s₁ s₂ i₁ i₂ i₃ i₄ : ℕ) (ats : List Attribute) (bytes rest : Text) (k : Text)
    → All (λ a. is_named a ≡ true) ats
    → join (encode ats) ≡ some bytes
    → values_of k (parse_attributes (v₁ ∷ v₂ ∷ s₁ ∷ s₂ ∷ i₁ ∷ i₂ ∷ i₃ ∷ i₄ ∷ 1 ∷ bytes ++ 3 ∷ rest))
      ≡ values_under k ats
unfolding parse_attributes values_of
parse_attributes-join v₁ v₂ s₁ s₂ i₁ i₂ i₃ i₄ ats bytes rest k named h =
    let read =
      parse_from-join ats
        (suc (suc (suc (suc (suc (suc (suc (suc (length (bytes ++ 3 ∷ rest)))))))))) none bytes rest
        [] named h (omega (arith, length-append bytes (3 ∷ rest), length-encode ats bytes h)) in
    unfold parse_from in rw read (values_of-collect k ats [])
