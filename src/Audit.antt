-- ===== src/Audit.antt =====
-- app/audit.py, class Audit: the tables `config_audit` and `print_audit` with their chain of hashes.
-- SHA-256 and `json.dumps` are arguments. A table is the list of its rows by falling age, its ids counted by
-- AUTOINCREMENT. The column `entry_hash` of a row from before the chain is null.
pub mod Chain
use vibe_printer.Prelude.{
  ℕ, ◌+◌, Bool, true, false, not, ◌&&◌, String, Option, none, some, List, [], ◌∷◌, ◌++◌,
  if◌then◌else◌, keep, length,
}
use vibe_printer.Prelude.Texts.{Text, codes, text_leb, text_ltb}

-- The fields of a row that its hash covers.
pub record ConfigChange : Type 0 where
  pub actor : Option String
  pub real_ip : Option String
  pub entity : String
  pub entity_id : Option String
  pub action : String
  pub diff : Option String

pub record PrintOutcome : Type 0 where
  pub job_id : String
  pub printer_id : ℕ
  pub actor : Option String
  pub real_ip : Option String
  pub bytes : ℕ
  pub outcome : String

pub record AuditRow (F : Type 0) : Type 0 where
  pub id : ℕ
  pub ts : Text
  pub fields : F
  pub prev_hash : Option Text
  pub entry_hash : Option Text

pub record AuditTable (F : Type 0) : Type 0 where
  pub rows : List (AuditRow F)
  pub sequence : ℕ

-- GENESIS = "0" * 64
unfoldable pub zeros : ℕ → Text
zeros ℕ.zero = []
zeros (ℕ.suc n) = b'0' ∷ zeros n

abbrev pub genesis : Text
genesis = zeros 64

-- `h or GENESIS`: a null or empty hash counts as missing.
unfoldable pub or_genesis : Option Text → Text
or_genesis none = genesis
or_genesis (some []) = genesis
or_genesis (some (c ∷ h)) = c ∷ h

-- `h == t` on a column and a text.
unfoldable pub is_hash : Option Text → Text → Bool
is_hash none t = false
is_hash (some h) t = text_leb h t && text_leb t h

-- {"valid": ..., "broken_at_id": ...}
pub data Verdict : Type 0 where
  valid : Verdict
  broken_at : ℕ → Verdict

-- `prev = row["entry_hash"]`
unfoldable pub hash_text : Option Text → Text
hash_text none = []
hash_text (some h) = h

module _ {F : Type 0} (sha256 : Text → Text) (dumps : F → Text → Text) where
  -- `_hash`
  unfoldable pub entry_of : Text → F → Text → Text
  entry_of prev fields ts = sha256 (prev ++ b'|' ∷ dumps fields ts)

  -- `_last_hash`
  unfoldable pub last_hash : List (AuditRow F) → Text
  unfolding or_genesis
  last_hash [] = genesis
  last_hash (r ∷ []) = or_genesis r.entry_hash
  last_hash (r ∷ q ∷ rows) = last_hash (q ∷ rows)

  -- `config_change` and `print_job`
  unfoldable pub record_entry : F → Text → AuditTable F → AuditTable F
  unfolding last_hash entry_of
  record_entry fields ts t =
      let prev = last_hash t.rows in
      record {
        rows =
            t.rows
            ++ (record {
              id = t.sequence + 1;
              ts = ts;
              fields = fields;
              prev_hash = some prev;
              entry_hash = some (entry_of prev fields ts);
            }
                ∷ []);
        sequence = t.sequence + 1;
      }

  -- The loop of `verify_chain`.
  unfoldable pub is_linked : Text → AuditRow F → Bool
  unfolding is_hash entry_of
  is_linked prev r = is_hash r.prev_hash prev && is_hash r.entry_hash (entry_of prev r.fields r.ts)

  unfoldable pub verify_from : Text → List (AuditRow F) → Verdict
  unfolding is_linked hash_text
  verify_from prev [] = valid
  verify_from prev (r ∷ rows) =
      let rest = verify_from (hash_text r.entry_hash) rows in
      if is_linked prev r then rest else broken_at r.id

  -- `verify_chain`: from the anchor of the first row that is left.
  unfoldable pub verify_chain : AuditTable F → Verdict × ℕ
  unfolding or_genesis
  verify_chain t = elim t.rows [
    | [] ↦ (valid, 0)
    | r ∷ rows ↦ (verify_from (or_genesis r.prev_hash) (r ∷ rows), length (r ∷ rows))
  ]

  -- DELETE FROM t WHERE ts < ?
  unfoldable pub prune_audit : (cut : Text) → AuditTable F → AuditTable F
  prune_audit cut t = record t { rows = keep (λ r. not (text_ltb r.ts cut)) t.rows }
