-- ===== src/Audit/Chain.antt =====
-- What the chain of hashes shows.
use mathlib.Core.Path.{ap₂}
use vibe_printer.Prelude.{
  ℕ, ◌+◌, ◌≡◌, ◌≢◌, refl, true, false, Option, none, some, List, [], ◌∷◌, ◌++◌, arith, length,
  length-append, Bool-cases, inl, inr, sym,
}
use vibe_printer.Prelude.Texts.{Text, text_leb, text_leb_refl}
use vibe_printer.Audit.{
  AuditRow, AuditTable, genesis, zeros, or_genesis, is_hash, valid, broken_at, entry_of, last_hash,
  record_entry, is_linked, hash_text, verify_from, verify_chain,
}

text_leb_antisym : (a b : Text) → text_leb a b ≡ true → text_leb b a ≡ true → a ≡ b
unfolding text_leb
text_leb_antisym [] [] h k = refl
text_leb_antisym [] (y ∷ b) h k = cc
text_leb_antisym (x ∷ a) [] h k = cc
text_leb_antisym (x ∷ a) (y ∷ b) h k = ground (arith, text_leb_antisym a b)

is_hash_self : (t : Text) → is_hash (some t) t ≡ true
unfolding is_hash
is_hash_self t = ground (arith, text_leb_refl t)

hash-is_hash : (h : Option Text) (t : Text) → is_hash h t ≡ true → h ≡ some t
unfolding is_hash
hash-is_hash none t e = cc
hash-is_hash (some h) t e = ground (arith, text_leb_antisym h t)

or_genesis-some : (t : Text) → t ≢ [] → or_genesis (some t) ≡ t
unfolding or_genesis
or_genesis-some [] h = elim (h refl) [ ]
or_genesis-some (c ∷ t) h = refl

module _ {F : Type 0} (sha256 : Text → Text) (dumps : F → Text → Text) where
  abbrev edited : F → AuditRow F → AuditRow F
  edited fields r = record r { fields = fields }

  -- An edited row does not fit its own hash.
  edited_not_linked :
      (prev : Text) (r : AuditRow F) (fields : F)
      → entry_of sha256 dumps prev fields r.ts ≢ entry_of sha256 dumps prev r.fields r.ts
      → is_linked sha256 dumps prev r ≡ true
      → is_linked sha256 dumps prev (edited fields r) ≡ false
  unfolding is_linked
  edited_not_linked prev r fields differs h =
      elim (Bool-cases (is_hash r.entry_hash (entry_of sha256 dumps prev fields r.ts))) [
        | inr no_entry ↦ ground arith
        | inl fits ↦ ground (
          arith,
          hash-is_hash r.entry_hash (entry_of sha256 dumps prev fields r.ts),
          hash-is_hash r.entry_hash (entry_of sha256 dumps prev r.fields r.ts),
        )
      ]

  verify_from-edited :
      (before : List (AuditRow F)) (r : AuditRow F) (after : List (AuditRow F)) (fields : F)
      (prev : Text)
      → ((p : Text) → entry_of sha256 dumps p fields r.ts ≢ entry_of sha256 dumps p r.fields r.ts)
      → verify_from sha256 dumps prev (before ++ r ∷ after) ≡ valid
      → verify_from sha256 dumps prev (before ++ edited fields r ∷ after) ≡ broken_at r.id
  unfolding verify_from
  verify_from-edited [] r after fields prev differs h =
      ground (arith, edited_not_linked prev r fields (differs prev))
  verify_from-edited (q ∷ before) r after fields prev differs h =
      ground (arith, verify_from-edited before r after fields (hash_text q.entry_hash) differs)

  -- Where the hashes of two sets of fields differ, an edit of a row's fields is found: in a table that
  -- `verify_chain` accepts, with one row's fields replaced and the hashes kept, it names that row.
  pub edit_detected :
      (n : ℕ) (before : List (AuditRow F)) (r : AuditRow F) (after : List (AuditRow F)) (fields : F)
      → ((p : Text) → entry_of sha256 dumps p fields r.ts ≢ entry_of sha256 dumps p r.fields r.ts)
      → (verify_chain sha256 dumps (record { rows = before ++ r ∷ after; sequence = n })).0 ≡ valid
      → (verify_chain sha256 dumps
          (record { rows = before ++ record r { fields = fields } ∷ after; sequence = n })).0
        ≡ broken_at r.id
  unfolding verify_chain
  edit_detected n [] r after fields differs h =
      verify_from-edited [] r after fields (or_genesis r.prev_hash) differs h
  edit_detected n (q ∷ before) r after fields differs h =
      verify_from-edited (q ∷ before) r after fields (or_genesis q.prev_hash) differs h

  -- The end of a chain: the hash that the next row is to continue.
  abbrev end_hash : Text → List (AuditRow F) → Text
  end_hash prev [] = prev
  end_hash prev (r ∷ rows) = end_hash (hash_text r.entry_hash) rows

  verify_from-append :
      (prev : Text) (rows : List (AuditRow F)) (r : AuditRow F)
      → verify_from sha256 dumps prev rows ≡ valid
      → is_linked sha256 dumps (end_hash prev rows) r ≡ true
      → verify_from sha256 dumps prev (rows ++ r ∷ []) ≡ valid
  unfolding verify_from
  verify_from-append prev [] r h l = ground arith
  verify_from-append prev (q ∷ rows) r h l =
      ground (arith, verify_from-append (hash_text q.entry_hash) rows r)

  abbrev new_row : ℕ → F → Text → Text → AuditRow F
  new_row i fields ts prev = record {
    id = i;
    ts = ts;
    fields = fields;
    prev_hash = some prev;
    entry_hash = some (entry_of sha256 dumps prev fields ts);
  }

  new_row-is_linked :
      (i : ℕ) (fields : F) (ts prev end : Text)
      → prev ≡ end
      → is_linked sha256 dumps end (new_row i fields ts prev) ≡ true
  unfolding is_linked
  new_row-is_linked i fields ts prev end e =
      rw e (ground (arith, is_hash_self end, is_hash_self (entry_of sha256 dumps end fields ts)))

  module _ (nonempty : (x : Text) → sha256 x ≢ []) where
    hash_text-or_genesis :
        (prev : Text) (r : AuditRow F)
        → is_linked sha256 dumps prev r ≡ true
        → or_genesis r.entry_hash ≡ hash_text r.entry_hash
    unfolding is_linked hash_text entry_of
    hash_text-or_genesis prev r h =
        let t : Text = sha256 (prev ++ b'|' ∷ dumps r.fields r.ts) in
        let e : r.entry_hash ≡ some t = hash-is_hash r.entry_hash t (ground arith) in
        rw e (or_genesis-some t (nonempty (prev ++ b'|' ∷ dumps r.fields r.ts)))

    last_hash-end_hash :
        (prev : Text) (r : AuditRow F) (rows : List (AuditRow F))
        → verify_from sha256 dumps prev (r ∷ rows) ≡ valid
        → last_hash sha256 dumps (r ∷ rows) ≡ end_hash prev (r ∷ rows)
    unfolding last_hash verify_from
    last_hash-end_hash prev r [] h = ground (arith, hash_text-or_genesis prev r)
    last_hash-end_hash prev r (q ∷ rows) h =
        ground (arith, last_hash-end_hash (hash_text r.entry_hash) q rows)

    record_entry_rows :
        (fields : F) (ts : Text) (n : ℕ) (rows : List (AuditRow F))
        → (verify_chain sha256 dumps (record { rows = rows; sequence = n })).0 ≡ valid
        → verify_chain sha256 dumps
            (record_entry sha256 dumps fields ts (record { rows = rows; sequence = n }))
          ≡ (valid, length rows + 1)
    unfolding verify_chain record_entry
    record_entry_rows fields ts n [] h =
        let nonzero : genesis ≢ [] = λ e. unfold zeros in cc in
        let anchor : or_genesis (some genesis) ≡ genesis = or_genesis-some genesis nonzero in
        let no_rows : verify_from sha256 dumps (or_genesis (some genesis)) [] ≡ valid =
          unfold verify_from in refl in
        let linked =
          new_row-is_linked (n + 1) fields ts genesis (or_genesis (some genesis)) (sym anchor) in
        ap₂ (λ a b. (a, b))
          (verify_from-append (or_genesis (some genesis)) [] (new_row (n + 1) fields ts genesis)
            no_rows linked)
          (omega arith)
    record_entry_rows fields ts n (r ∷ rows) h =
        let anchor = or_genesis r.prev_hash in
        let prev = last_hash sha256 dumps (r ∷ rows) in
        let linked =
          new_row-is_linked (n + 1) fields ts prev (end_hash anchor (r ∷ rows))
            (last_hash-end_hash anchor r rows h) in
        let accepted =
          verify_from-append anchor (r ∷ rows) (new_row (n + 1) fields ts prev) h linked in
        ap₂ (λ a b. (a, b)) (accepted)
          (length-append (r ∷ rows) (new_row (n + 1) fields ts prev ∷ []))

    -- A table that `verify_chain` accepts is still accepted after one more entry, and counts that row too.
    -- (SHA-256 gives no empty text.)
    pub record_entry_valid :
        (fields : F) (ts : Text) (t : AuditTable F)
        → (verify_chain sha256 dumps t).0 ≡ valid
        → verify_chain sha256 dumps (record_entry sha256 dumps fields ts t)
          ≡ (valid, length t.rows + 1)
    record_entry_valid fields ts t h = record_entry_rows fields ts t.sequence t.rows h
