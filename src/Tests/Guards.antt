-- ===== src/Tests/Guards.antt =====
-- The theorems on the audit chain and on the limiter, applied.
use vibe_printer.Prelude.{
  ◌+◌, ◌≤◌, ◌≡◌, ◌≢◌, ◌⊎◌, refl, none, some, [], ◌∷◌, ◌++◌, length, length-append, arith, keep,
}
use vibe_printer.Prelude.Texts.{Text, codes, text_leb}
use vibe_printer.Errors.{err, ok, api, api_error, rate_limited}
use vibe_printer.Audit.{
  PrintOutcome, AuditRow, AuditTable, valid, broken_at, verify_chain, record_entry, entry_of,
  verify_from, is_linked, is_hash, or_genesis,
}
use vibe_printer.Audit.Chain.{edit_detected, record_entry_valid}
use vibe_printer.Auth.{Hits, window, check}
use vibe_printer.Auth.Limits.{is_recent, check_cases}

abbrev digest : Text → Text
digest t = length t ∷ []

abbrev dump : PrintOutcome → Text → Text
dump f ts = codes f.outcome ++ ts

abbrev printed : PrintOutcome
printed = record {
  job_id = "a";
  printer_id = 1;
  actor = none;
  real_ip = none;
  bytes = 20;
  outcome = "completed";
}

abbrev lost : PrintOutcome
lost = record printed { outcome = "sent" }

abbrev at_ten : Text
at_ten = codes "10"

abbrev no_entries : AuditTable PrintOutcome
no_entries = record { rows = []; sequence = 0 }

record_entry_valid_example :
    verify_chain digest dump (record_entry digest dump printed at_ten no_entries) ≡ (valid, 0 + 1)
record_entry_valid_example =
    record_entry_valid digest dump (λ x e. cc) printed at_ten no_entries
      (unfold verify_chain in refl)

-- A row that starts a chain.
abbrev first : AuditRow PrintOutcome
first = record {
  id = 1;
  ts = at_ten;
  fields = printed;
  prev_hash = some (codes "00");
  entry_hash = some (digest (codes "00" ++ b'|' ∷ dump printed at_ten));
}

differs : (p : Text) → entry_of digest dump p lost at_ten ≢ entry_of digest dump p printed at_ten
unfolding entry_of
differs p e =
    ground (
      arith,
      length-append p (b'|' ∷ dump lost at_ten),
      length-append p (b'|' ∷ dump printed at_ten),
    )

edit_detected_example :
    (verify_chain digest dump
      (record { rows = record first { fields = lost } ∷ []; sequence = 1 })).0
    ≡ broken_at 1
edit_detected_example =
    edit_detected digest dump 1 [] first [] lost differs
      (unfold verify_chain verify_from is_linked is_hash entry_of or_genesis text_leb in refl)

abbrev two_hits : Hits
two_hits = ("10.0.0.7", 1 ∷ 70000000000 ∷ []) ∷ []

check_cases_example :
    let recent = keep (is_recent 80000000000) (1 ∷ 70000000000 ∷ []) in
    let (result, hits') = check 2 80000000000 "10.0.0.7" two_hits in
    ((2 ≤ length recent)
      × (result ≡ err (api (api_error rate_limited (some 429))))
      × (window "10.0.0.7" hits' ≡ recent))
    ⊎ ((length (window "10.0.0.7" hits') ≤ 2)
        × (result ≡ ok tt)
        × (window "10.0.0.7" hits' ≡ recent ++ 80000000000 ∷ []))
unfolding window
check_cases_example =
    check_cases 2 80000000000 "10.0.0.7" "10.0.0.7" two_hits ((refl, tt), (tt, tt))
