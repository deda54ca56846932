-- ===== src/Admin/Entries.antt =====
-- The entry that each handler of the administration API leaves in the audit of the configuration.
use vibe_printer.Prelude.{ℕ, ◌≡◌, refl, String, Option, none, some, Bool-cases, inl, inr}
use vibe_printer.Prelude.Texts.{Text}
use vibe_printer.Errors.{Result, ok, err, Result-cases}
use vibe_printer.Json.{Json, null, bool, num, str, arr, obj, nil, cons, end, Fields, truthy}
use vibe_printer.Json.Values.{get_or}
use vibe_printer.Jobs.Retention.{redact_payload}
use vibe_printer.Registry.Config.{Registry, get_printer}
use vibe_printer.Devices.{backend_capabilities}
use vibe_printer.PrintApi.{QueueSettings}
use vibe_printer.Audit.{ConfigChange, AuditTable, record_entry, prune_audit}
use vibe_printer.Admin.{AdminState, Request, change, config_change, registry_then}
use vibe_printer.Admin.Printing.{
  test_print, open_drawer, provision_queue, enqueue_for, document_payload, pulse_of, is_office,
  is_type_cups,
}
use vibe_printer.Admin.Operations.{erase_payload, prune_now, put_remote, old_section}
use vibe_printer.Admin.Calls

module _ (q : Request) where
  -- The audit after a reply: as it was after an error, and with the entry that is expected otherwise.
  abbrev pub logged : Option ConfigChange → AuditTable ConfigChange → AuditTable ConfigChange
  logged none t = t
  logged (some c) t = record_entry q.sha256 q.dumps c q.now t

  abbrev pub Logs :
      {A : Type 0}
      → (A → Option ConfigChange)
      → AuditTable ConfigChange
      → Result A × AdminState
      → Type 0
  Logs entry t (err e, s') = s'.config_audit ≡ t
  Logs entry t (ok a, s') = s'.config_audit ≡ logged (entry a) t

  pub registry_then-Logs :
      {A : Type 0} (r : Result A × Registry) (c : A → ConfigChange) (s : AdminState)
      → Logs (λ a. some (c a)) s.config_audit (registry_then q r c s)
  unfolding registry_then
  registry_then-Logs (err e, g) c s = refl
  registry_then-Logs (ok a, g) c s = refl

  pub reply-Logs :
      {A : Type 0} (f : A → Option ℕ) (entry : Option ℕ → Option ConfigChange)
      (t : AuditTable ConfigChange) (r : Result A × AdminState)
      → Logs (λ a. entry (f a)) t r
      → Logs entry t (Calls.reply f r)
  unfolding Calls.reply
  reply-Logs f entry t (err e, s) h = h
  reply-Logs f entry t (ok a, s) h = h

-- Calls that leave the audit alone, whatever they return.
pub quiet :
    {A : Type 0} (q : Request) (t : AuditTable ConfigChange) (r : Result A) (s : AdminState)
    → s.config_audit ≡ t
    → Logs q (λ a. none) t (r, s)
quiet q t (err e) s h = h
quiet q t (ok a) s h = h

module _ (p : QueueSettings) (q : Request) (s : AdminState) where
  pub test_print-Logs : (i : ℕ) → Logs q (λ a. none) s.config_audit (test_print p q i s)
  unfolding test_print enqueue_for
  test_print-Logs i = elim (Result-cases (get_printer i s.registry)) [
    | inr (e, bad) ↦ rw (test_print, bad) refl
    | inl (printer, good) ↦ elim (Bool-cases (is_office printer.content.config.type)) [
      | inl office ↦ rw (test_print, good, office) (quiet q s.config_audit _ _ refl)
      | inr thermal ↦ rw (test_print, good, thermal) (quiet q s.config_audit _ _ refl)
    ]
  ]

  pub open_drawer-Logs :
      (i : ℕ) (body : Fields)
      → Logs q
          (λ a. some (change q "printer" (some (q.str_of i)) "open_drawer"))
          s.config_audit
          (open_drawer p q i body s)
  unfolding open_drawer enqueue_for config_change
  open_drawer-Logs i body = elim (Result-cases (get_printer i s.registry)) [
    | inr (e, bad) ↦ rw (open_drawer, bad) refl
    | inl (printer, good) ↦ elim (Result-cases (backend_capabilities printer s.registry).0) [
      | inr (e, none_known) ↦ rw (open_drawer, good, none_known) refl
      | inl (caps, known) ↦ elim (Bool-cases caps.pulse) [
        | inr unable ↦ rw (open_drawer, good, known, unable) refl
        | inl able ↦
            elim (Result-cases
              (enqueue_for p q i (document_payload (arr (cons (obj (pulse_of body)) nil)) (obj end))
                (record s { registry = (backend_capabilities printer s.registry).1 })).0) [
                  | inr (e, full) ↦ rw (open_drawer, good, known, able, full) refl
                  | inl (job, queued) ↦ rw (open_drawer, good, known, able, queued) refl
                ]
      ]
    ]
  ]

  pub provision_queue-Logs :
      (i : ℕ) (body : Fields)
      → Logs q
          (λ a. some (change q "printer" (some (q.str_of i)) "provision_queue"))
          s.config_audit
          (provision_queue p q i body s)
  unfolding provision_queue
  provision_queue-Logs i body = elim (Result-cases (get_printer i s.registry)) [
    | inr (e, bad) ↦ rw (provision_queue, bad) refl
    | inl (printer, good) ↦ elim (Bool-cases (is_type_cups printer.content.config.type)) [
      | inr other ↦ rw (provision_queue, good, other) refl
      | inl is_cups ↦ elim (Bool-cases (truthy (get_or "device_uri" null body))) [
        | inr missing ↦ rw (provision_queue, good, is_cups, missing) refl
        | inl given ↦
            elim (Result-cases (
              q.provision printer (get_or "device_uri" null body)
                (get_or "make_model" (str "everywhere") body))) [
                  | inr (e, failed) ↦ rw (provision_queue, good, is_cups, given, failed) refl
                  | inl (u, done) ↦
                      rw (provision_queue, good, is_cups, given, done) (registry_then-Logs q _ _ s)
                ]
      ]
    ]
  ]

  pub erase_payload-Logs :
      (i : String)
      → Logs q
          (λ a. some (change q "job" (some i) "erase_payload"))
          s.config_audit
          (erase_payload q i s)
  unfolding erase_payload config_change
  erase_payload-Logs i =
      elim (Result-cases (redact_payload q.payload_hash q.payload_length i s.store).0) [
        | inr (e, bad) ↦ rw (erase_payload, bad) refl
        | inl (u, good) ↦ rw (erase_payload, good) refl
      ]

  pub put_remote-at :
      (body : Fields) (c : Json)
      → s.registry.device.config ≡ c
      → Logs q
          (λ a. some (change q "remote_access" none "update"))
          s.config_audit
          (put_remote q body s)
  unfolding put_remote
  put_remote-at body (obj config) e = elim (Result-cases (old_section config)) [
    | inr (f, bad) ↦ rw (put_remote, e, bad) refl
    | inl (existing, good) ↦ rw (put_remote, e, good) (registry_then-Logs q _ _ s)
  ]
  put_remote-at body null e = rw (put_remote, e) refl
  put_remote-at body (bool b) e = rw (put_remote, e) refl
  put_remote-at body (num n) e = rw (put_remote, e) refl
  put_remote-at body (str t) e = rw (put_remote, e) refl
  put_remote-at body (arr xs) e = rw (put_remote, e) refl

  pub prune_now-Logs :
      (a b c : Text)
      → Logs q
          (λ u. some (change q "retention" none "prune"))
          (prune_audit q.sha256 q.dumps c s.config_audit)
          (prune_now q a b c s)
  unfolding prune_now config_change
  prune_now-Logs a b c = refl
