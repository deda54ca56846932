-- ===== src/Prelude/Sort.antt =====
-- ORDER BY as a stable insertion sort by a Boolean order, and LIMIT after it.
use mathlib.Core.List.{Memᴰ}
use vibe_printer.Prelude.{
  ℕ, zero, suc, ◌≡◌, refl, ap, ◌⊎◌, inl, inr, Bool, true, List, [], ◌∷◌, arith, length, take, keep,
  All, All-map, All-take, if◌then◌else◌, Bool-cases,
}

pub All-mem {ℓ κ} : {A : Type ℓ} {a : A} (P : A → Type κ) (xs : List A) → All P xs → Memᴰ a xs → P a
All-mem P [] h m = elim m [ ]
All-mem P (x ∷ xs) h (Memᴰ.head e) = rw e h.0
All-mem P (x ∷ xs) h (Memᴰ.tail m) = All-mem P xs h.1 m

module _ {ℓ} {A : Type ℓ} (before : A → A → Bool) where
  unfoldable pub insert_by : A → List A → List A
  insert_by x [] = x ∷ []
  insert_by x (y ∷ ys) = let rest = insert_by x ys in if before x y then x ∷ y ∷ ys else y ∷ rest

  unfoldable pub sort_by : List A → List A
  unfolding insert_by
  sort_by [] = []
  sort_by (x ∷ xs) = insert_by x (sort_by xs)

  abbrev pub IsSorted : List A → Type ℓ
  IsSorted [] = Unit
  IsSorted (x ∷ xs) = All (λ y. before x y ≡ true) xs × IsSorted xs

  insert_by-All {κ} :
      (P : A → Type κ) (x : A) (ys : List A) → P x → All P ys → All P (insert_by x ys)
  unfolding insert_by
  insert_by-All P x [] hx hs = (hx, tt)
  insert_by-All P x (y ∷ ys) hx hs = elim (Bool-cases (before x y)) [
    | inl e ↦ rw e (hx, hs)
    | inr e ↦ rw e (hs.0, insert_by-All P x ys hx hs.1)
  ]

  pub sort_by-All {κ} : (P : A → Type κ) (xs : List A) → All P xs → All P (sort_by xs)
  unfolding sort_by
  sort_by-All P [] h = tt
  sort_by-All P (x ∷ xs) h = insert_by-All P x (sort_by xs) h.0 (sort_by-All P xs h.1)

  mem-insert_by_self : (x : A) (ys : List A) → Memᴰ x (insert_by x ys)
  unfolding insert_by
  mem-insert_by_self x [] = Memᴰ.head refl
  mem-insert_by_self x (y ∷ ys) = elim (Bool-cases (before x y)) [
    | inl e ↦ rw e (Memᴰ.head refl)
    | inr e ↦ rw e (Memᴰ.tail (mem-insert_by_self x ys))
  ]

  mem-insert_by : {a : A} (x : A) (ys : List A) → Memᴰ a ys → Memᴰ a (insert_by x ys)
  unfolding insert_by
  mem-insert_by x [] m = elim m [ ]
  mem-insert_by x (y ∷ ys) (Memᴰ.head p) = elim (Bool-cases (before x y)) [
    | inl e ↦ rw e (Memᴰ.tail (Memᴰ.head p))
    | inr e ↦ rw e (Memᴰ.head p)
  ]
  mem-insert_by x (y ∷ ys) (Memᴰ.tail m) = elim (Bool-cases (before x y)) [
    | inl e ↦ rw e (Memᴰ.tail (Memᴰ.tail m))
    | inr e ↦ rw e (Memᴰ.tail (mem-insert_by x ys m))
  ]

  pub mem-sort_by : {a : A} (xs : List A) → Memᴰ a xs → Memᴰ a (sort_by xs)
  unfolding sort_by
  mem-sort_by [] m = elim m [ ]
  mem-sort_by (x ∷ xs) (Memᴰ.head e) = rw e (mem-insert_by_self x (sort_by xs))
  mem-sort_by (x ∷ xs) (Memᴰ.tail m) = mem-insert_by x (sort_by xs) (mem-sort_by xs m)

  module _ (total : (x y : A) → (before x y ≡ true) ⊎ (before y x ≡ true))
      (trans : (x y z : A) → before x y ≡ true → before y z ≡ true → before x z ≡ true) where
    insert_by-IsSorted : (x : A) (ys : List A) → IsSorted ys → IsSorted (insert_by x ys)
    unfolding insert_by
    insert_by-IsSorted x [] h = (tt, tt)
    insert_by-IsSorted x (y ∷ ys) h = elim (Bool-cases (before x y)) [
      | inl e ↦ rw e (
        (e, All-map (λ z. before y z ≡ true) (λ z. before x z ≡ true) (λ z. trans x y z e) ys h.0),
        h,
      )
      | inr e ↦ rw e (
          (
            insert_by-All (λ z. before y z ≡ true) x ys (ground (arith, total x y)) h.0,
            insert_by-IsSorted x ys h.1,
          ))
    ]

    pub sort_by-IsSorted : (xs : List A) → IsSorted (sort_by xs)
    unfolding sort_by
    sort_by-IsSorted [] = tt
    sort_by-IsSorted (x ∷ xs) = insert_by-IsSorted x (sort_by xs) (sort_by-IsSorted xs)

  -- What LIMIT cuts off comes behind all that it leaves.
  pub mem-take_or_behind :
      {a : A} (n : ℕ) (xs : List A)
      → IsSorted xs
      → Memᴰ a xs
      → Memᴰ a (take n xs) ⊎ ((length (take n xs) ≡ n) × All (λ x. before x a ≡ true) (take n xs))
  mem-take_or_behind zero xs h m = inr (refl, tt)
  mem-take_or_behind (suc n) (x ∷ xs) h (Memᴰ.head p) = inl (Memᴰ.head p)
  mem-take_or_behind (suc n) [] h m = elim m [ ]
  mem-take_or_behind {a} (suc n) (x ∷ xs) h (Memᴰ.tail m) = elim (mem-take_or_behind n xs h.1 m) [
    | inl here ↦ inl (Memᴰ.tail here)
    | inr (full, behind) ↦ inr (ap suc full, (All-mem (λ y. before x y ≡ true) xs h.0 m, behind))
  ]

  pub take-IsSorted : (n : ℕ) (xs : List A) → IsSorted xs → IsSorted (take n xs)
  take-IsSorted zero xs h = tt
  take-IsSorted (suc n) [] h = tt
  take-IsSorted (suc n) (x ∷ xs) h =
      (All-take (λ y. before x y ≡ true) n xs h.0, take-IsSorted n xs h.1)

pub mem-keep {ℓ} :
    {A : Type ℓ} {a : A} (p : A → Bool) (xs : List A) → p a ≡ true → Memᴰ a xs → Memᴰ a (keep p xs)
mem-keep p [] h m = elim m [ ]
mem-keep p (x ∷ xs) h (Memᴰ.head e) = rw (← e) (rw h (Memᴰ.head refl))
mem-keep p (x ∷ xs) h (Memᴰ.tail m) = elim (Bool-cases (p x)) [
  | inl e ↦ rw e (Memᴰ.tail (mem-keep p xs h m))
  | inr e ↦ rw e (mem-keep p xs h m)
]

pub keep-All {ℓ} : {A : Type ℓ} (p : A → Bool) (xs : List A) → All (λ x. p x ≡ true) (keep p xs)
keep-All p [] = tt
keep-All p (x ∷ xs) = elim (Bool-cases (p x)) [
  | inl e ↦ rw e (e, keep-All p xs)
  | inr e ↦ rw e (keep-All p xs)
]
