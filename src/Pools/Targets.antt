-- ===== src/Pools/Targets.antt =====
-- Which member a pool's job goes to.
use mathlib.Core.Path.{subst}
use native.Mathlib.Nat.{mod-lt, mod-eq_of_lt, mod-eq-sub-mod}
use vibe_printer.Prelude.{
  ℕ, zero, suc, ◌-◌, ◌≤◌, sym, get_elem?, ltb, Option, some, length-append, length-drop,
  length-take, ◌∙◌, ◌+◌, ◌%◌, ◌<◌, ◌≡◌, ◌⊎◌, inl, inr, refl, ap, Bool, true, false, List, [], ◌∷◌,
  ◌++◌, ◌==◌, if◌then◌else◌, length, take, drop, arith, Bool-cases, All, All-append,
}
use vibe_printer.Errors.{ok}
use vibe_printer.Registry.Versioned.{Row}
use vibe_printer.Registry.Config.{Printer, Registry}
use vibe_printer.Pools.{
  is_pool, members, Cursors, cursor, set_cursor, is_round_robin, start_at, asking_order,
  next_cursors, Target, found, unreachable, first_reachable, choose, resolve_target,
}

take-append-drop : {A : Type 0} (n : ℕ) (xs : List A) → take n xs ++ drop n xs ≡ xs
take-append-drop zero xs = refl
take-append-drop (suc n) [] = refl
take-append-drop (suc n) (x ∷ xs) = ap (λ l. x ∷ l) (take-append-drop n xs)

append_nil : {A : Type 0} (xs : List A) → xs ++ [] ≡ xs
append_nil [] = refl
append_nil (x ∷ xs) = ap (λ l. x ∷ l) (append_nil xs)

module _ {A : Type 0} where
  get-append : (xs ys : List A) (k : ℕ) → k < length xs → get_elem? (xs ++ ys) k ≡ get_elem? xs k
  get-append [] ys k h = absurd (omega arith)
  get-append (x ∷ xs) ys zero h = refl
  get-append (x ∷ xs) ys (suc k) h = get-append xs ys k (omega (arith, h))

  get-append_past : (xs ys : List A) (k : ℕ) → get_elem? (xs ++ ys) (length xs + k) ≡ get_elem? ys k
  get-append_past [] ys k = ap (λ i. get_elem? ys i) (omega arith)
  get-append_past (x ∷ xs) ys k =
      let e : suc (length xs) + k ≡ suc (length xs + k) = omega arith in
      rw e (get-append_past xs ys k)

  get-drop : (i : ℕ) (xs : List A) (k : ℕ) → get_elem? (drop i xs) k ≡ get_elem? xs (i + k)
  get-drop zero xs k = ap (λ i. get_elem? xs i) (omega arith)
  get-drop (suc i) [] k = refl
  get-drop (suc i) (x ∷ xs) k =
      let e : suc i + k ≡ suc (i + k) = omega arith in rw e (get-drop i xs k)

  get-take : (i : ℕ) (xs : List A) (k : ℕ) → k < i → get_elem? (take i xs) k ≡ get_elem? xs k
  get-take zero xs k h = absurd (omega arith)
  get-take (suc i) [] k h = refl
  get-take (suc i) (x ∷ xs) zero h = refl
  get-take (suc i) (x ∷ xs) (suc k) h = get-take i xs k (omega (arith, h))

  get-bound : (xs : List A) (k : ℕ) (x : A) → get_elem? xs k ≡ some x → k < length xs
  get-bound [] k x h = absurd (ground (arith, h))
  get-bound (y ∷ xs) zero x h = omega arith
  get-bound (y ∷ xs) (suc k) x h = omega (arith, get-bound xs k x h)

  -- A list from position i on, and then from its front.
  get-rotated :
      (i : ℕ) (xs : List A) (k : ℕ)
      → i < length xs
      → k < length xs
      → get_elem? (drop i xs ++ take i xs) k ≡ get_elem? xs ((i + k) % length xs)
  get-rotated i xs k h b = elim (Bool-cases (ltb (i + k) (length xs))) [
    | inl early ↦
        let small : i + k < length xs = ground arith in
        rw (mod-eq_of_lt small) (
          get-append (drop i xs) (take i xs) k (omega (arith, length-drop i xs, small))
          ∙ get-drop i xs k)
    | inr late ↦
        let past : length xs ≤ i + k = ground arith in
        let j = i + k - length xs in
        let at : k ≡ length (drop i xs) + j = omega (arith, length-drop i xs) in
        let front : (i + k) % length xs ≡ j =
          mod-eq-sub-mod past ∙ mod-eq_of_lt (omega (arith, h, b, past)) in
        rw front (
          ap (λ l. get_elem? (drop i xs ++ take i xs) l) at
          ∙ get-append_past (drop i xs) (take i xs) j
          ∙ get-take i xs j (omega (arith, h, b, past)))
  ]

All-halves : {A : Type 0} (P : A → Type 0) (xs ys : List A) → All P (xs ++ ys) → All P xs × All P ys
All-halves P [] ys h = (tt, h)
All-halves P (x ∷ xs) ys h = let (front, back) = All-halves P xs ys h.1 in ((h.0, front), back)

module _ (probe : ℕ → Bool) where
  abbrev pub AllDown : List (Row Printer) → Type 0
  AllDown = All (λ m. probe m.id ≡ false)

  -- Nobody in the list answers; or member k is the first that does.
  abbrev pub Answered : List (Row Printer) → (ℕ → Option (Row Printer)) → Target → Type 0
  Answered ms at t =
      AllDown ms × (t ≡ unreachable)
      ⊎ ((k : ℕ) × (m : Row Printer) × (k < length ms)
          × (at k ≡ some m)
          × (probe m.id ≡ true)
          × (t ≡ found m)
          × ((k' : ℕ) (x : Row Printer) → k' < k → at k' ≡ some x → probe x.id ≡ false))

  skipped :
      (m : Row Printer) (ms : List (Row Printer)) (k : ℕ)
      → probe m.id ≡ false
      → ((k' : ℕ) (x : Row Printer) → k' < k → get_elem? ms k' ≡ some x → probe x.id ≡ false)
      → (k' : ℕ) (x : Row Printer) → k' < suc k
      → get_elem? (m ∷ ms) k' ≡ some x
      → probe x.id ≡ false
  skipped m ms k down before zero x h e = let same : m ≡ x = ground (arith, e) in rw (← same) down
  skipped m ms k down before (suc k') x h e = before k' x (omega (arith, h)) e

  first_reachable-Answered :
      (ms : List (Row Printer)) → Answered ms (get_elem? ms) (first_reachable probe ms)
  unfolding first_reachable
  first_reachable-Answered [] = inl (tt, refl)
  first_reachable-Answered (m ∷ ms) = elim (Bool-cases (probe m.id)) [
    | inl up ↦
        inr (zero, m, omega arith, refl, up, rw up refl, λ k' x h e. absurd (omega (arith, h)))
    | inr down ↦ elim (first_reachable-Answered ms) [
      | inl (none_up, e) ↦ inl ((down, none_up), rw (down, first_reachable) e)
      | inr (k, x, bound, here, up, e, before) ↦ inr (
        suc k,
        x,
        omega (arith, bound),
        here,
        up,
        rw (down, first_reachable) e,
        skipped m ms k down before,
      )
    ]
  ]

  -- Where the asking starts: a round-robin pool at its cursor, any other pool at its first member.
  abbrev pub starts_at : Row Printer → ℕ → Cursors → ℕ
  starts_at p n c = if is_round_robin p then cursor p.id c % n else 0

  rotated-Answered :
      (i : ℕ) (ms : List (Row Printer))
      → i < length ms
      → Answered ms
          (λ k. get_elem? ms ((i + k) % length ms))
          (first_reachable probe (drop i ms ++ take i ms))
  rotated-Answered i ms h =
      let order = drop i ms ++ take i ms in
      let size : length order ≡ length ms =
        omega (arith, length-append (drop i ms) (take i ms), length-drop i ms, length-take i ms) in
      elim (first_reachable-Answered order) [
        | inl (none_up, e) ↦ inl (
          (let (back, front) =
                All-halves (λ m. probe m.id ≡ false) (drop i ms) (take i ms) none_up in
              subst AllDown (take-append-drop i ms)
                (All-append (λ m. probe m.id ≡ false) (take i ms) (drop i ms) front back)),
          e,
        )
        | inr (k, m, bound, here, up, e, before) ↦ inr (
          k,
          m,
          omega (arith, bound, size),
          sym (get-rotated i ms k h (omega (arith, bound, size))) ∙ here,
          up,
          e,
          λ k' x less at.
              before k' x less (get-rotated i ms k' h (omega (arith, bound, size, less)) ∙ at),
        )
      ]

  -- `resolve_target` on a pool whose members can be listed: it is PrinterUnreachable exactly when every
  -- member is down. Otherwise it picks the first member that is up, counted through all of them: from the
  -- first on for a failover pool; for a round-robin pool from the one at its cursor on, round the end of
  -- the list to the members before it.
  pub resolve_target-Answered :
      (g : Registry) (p : Row Printer) (c : Cursors) (ms : List (Row Printer))
      → is_pool p.content.config.type ≡ true
      → members g p ≡ ok ms
      → let n = length ms in
        Answered ms (λ k. get_elem? ms ((starts_at p n c + k) % n)) (resolve_target probe g p c).0
  unfolding resolve_target
  resolve_target-Answered g p c [] h e = rw (h, e) (inl (tt, unfold choose in refl))
  resolve_target-Answered g p c (m ∷ ms) h e =
      let some_ : 0 < length (m ∷ ms) = omega arith in
      elim (Bool-cases (is_round_robin p)) [
        | inl rr ↦
            rw (h, e, rr)
              (unfold choose asking_order start_at in
                rw rr (
                  rotated-Answered (cursor p.id c % length (m ∷ ms)) (m ∷ ms)
                    (mod-lt (cursor p.id c) some_)))
        | inr failover ↦
            rw (h, e, failover)
              (unfold choose asking_order in
                rw failover (
                  subst
                    (λ l.
                      Answered (m ∷ ms) (λ k. get_elem? (m ∷ ms) ((0 + k) % length (m ∷ ms)))
                        (first_reachable probe l))
                    (append_nil (m ∷ ms)) (rotated-Answered 0 (m ∷ ms) some_)))
      ]

cursor-set_cursor :
    (p q n : ℕ) (c : Cursors) → cursor q (set_cursor p n c) ≡ (if p == q then n else cursor q c)
unfolding cursor set_cursor
cursor-set_cursor p q n [] = ground arith
cursor-set_cursor p q n ((r, k) ∷ c) = ground (arith, cursor-set_cursor p q n c)

-- A dispatch to a round-robin pool moves its starting point on by one, round the members, whether or
-- not a member answers; another pool's starting point stays.
pub start_at-next_cursors :
    (p : Row Printer) (n : ℕ) (c : Cursors) (q : ℕ)
    → 0 < n
    → is_round_robin p ≡ true
    → (start_at p n (next_cursors p n c) ≡ (start_at p n c + 1) % n)
      × (cursor q (next_cursors p n c)
          ≡ (if p.id == q then (start_at p n c + 1) % n else cursor q c))
unfolding start_at next_cursors
start_at-next_cursors p n c q pos rr =
    let k = start_at p n c + 1 in
    (
      rw (rr, cursor-set_cursor p.id p.id (k % n) c) (ground (arith, mod-eq_of_lt (mod-lt k pos))),
      rw (rr, cursor-set_cursor p.id q (k % n) c),
    )
