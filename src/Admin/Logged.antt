-- ===== src/Admin/Logged.antt =====
-- What the audit of the configuration shows of the administration API.
use vibe_printer.Prelude.{◌≡◌, ◌≢◌, refl, Bool, true, false, Option, none, some, [], ap}
use vibe_printer.Prelude.Texts.{Text}
use vibe_printer.Errors.{Result, ok, err}
use vibe_printer.PrintApi.{QueueSettings}
use vibe_printer.Audit.{ConfigChange, AuditTable, verify_chain, valid}
use vibe_printer.Audit.Chain.{record_entry_valid}
use vibe_printer.Admin.{
  AdminState, Request, admin_update_device, admin_create_printer, admin_update_printer,
  admin_delete_printer, admin_create_format, admin_update_format, admin_delete_format,
  admin_create_template, admin_update_template, admin_delete_template, admin_create_overlay,
  admin_update_overlay, admin_delete_overlay,
}
use vibe_printer.Admin.Operations.{admin_cancel, admin_requeue, admin_resolve}
use vibe_printer.Admin.Calls
use vibe_printer.Admin.Entries.{
  logged, Logs, registry_then-Logs, reply-Logs, quiet, test_print-Logs, open_drawer-Logs,
  provision_queue-Logs, erase_payload-Logs, put_remote-at, prune_now-Logs,
}

-- The audit of the configuration after a call of the administration API: as it was after an error;
-- after a success with exactly the one entry that is expected of the call, by entity, id and action,
-- behind what was there (for a prune, behind what retention leaves). The calls that print a test page
-- and that cancel, requeue or resolve a job are the ones without an entry.
pub perform-Logs :
    (p : QueueSettings) (q : Request) (c : Calls.AdminCall) (s : AdminState)
    → Logs q (Calls.entry q c) (Calls.before_entry q c s.config_audit) (Calls.perform p q c s)
unfolding Calls.perform admin_update_device admin_create_printer admin_update_printer
    admin_delete_printer admin_create_format admin_update_format admin_delete_format
    admin_create_template admin_update_template admin_delete_template admin_create_overlay
    admin_update_overlay admin_delete_overlay admin_cancel admin_requeue admin_resolve
perform-Logs p q (Calls.put_device n t c v) s =
    reply-Logs q _ (Calls.entry q (Calls.put_device n t c v)) _ _ (registry_then-Logs q _ _ s)
perform-Logs p q (Calls.post_printer d) s =
    reply-Logs q _ (Calls.entry q (Calls.post_printer d)) _ _ (registry_then-Logs q _ _ s)
perform-Logs p q (Calls.put_printer i v d) s =
    reply-Logs q _ (Calls.entry q (Calls.put_printer i v d)) _ _ (registry_then-Logs q _ _ s)
perform-Logs p q (Calls.post_format d) s =
    reply-Logs q _ (Calls.entry q (Calls.post_format d)) _ _ (registry_then-Logs q _ _ s)
perform-Logs p q (Calls.put_format i v d) s =
    reply-Logs q _ (Calls.entry q (Calls.put_format i v d)) _ _ (registry_then-Logs q _ _ s)
perform-Logs p q (Calls.post_template d) s =
    reply-Logs q _ (Calls.entry q (Calls.post_template d)) _ _ (registry_then-Logs q _ _ s)
perform-Logs p q (Calls.put_template i v d) s =
    reply-Logs q _ (Calls.entry q (Calls.put_template i v d)) _ _ (registry_then-Logs q _ _ s)
perform-Logs p q (Calls.post_overlay d) s =
    reply-Logs q _ (Calls.entry q (Calls.post_overlay d)) _ _ (registry_then-Logs q _ _ s)
perform-Logs p q (Calls.put_overlay i v d) s =
    reply-Logs q _ (Calls.entry q (Calls.put_overlay i v d)) _ _ (registry_then-Logs q _ _ s)
perform-Logs p q (Calls.remove_printer i) s =
    reply-Logs q _ (Calls.entry q (Calls.remove_printer i)) _ _ (registry_then-Logs q _ _ s)
perform-Logs p q (Calls.remove_format i) s =
    reply-Logs q _ (Calls.entry q (Calls.remove_format i)) _ _ (registry_then-Logs q _ _ s)
perform-Logs p q (Calls.remove_template i) s =
    reply-Logs q _ (Calls.entry q (Calls.remove_template i)) _ _ (registry_then-Logs q _ _ s)
perform-Logs p q (Calls.remove_overlay i) s =
    reply-Logs q _ (Calls.entry q (Calls.remove_overlay i)) _ _ (registry_then-Logs q _ _ s)
perform-Logs p q (Calls.post_test i) s =
    reply-Logs q _ (Calls.entry q (Calls.post_test i)) _ _ (test_print-Logs p q s i)
perform-Logs p q (Calls.post_drawer i body) s =
    reply-Logs q _ (Calls.entry q (Calls.post_drawer i body)) _ _ (open_drawer-Logs p q s i body)
perform-Logs p q (Calls.post_queue i body) s =
    reply-Logs q _ (Calls.entry q (Calls.post_queue i body)) _ _ (provision_queue-Logs p q s i body)
perform-Logs p q (Calls.erase i) s =
    reply-Logs q _ (Calls.entry q (Calls.erase i)) _ _ (erase_payload-Logs p q s i)
perform-Logs p q (Calls.post_prune a b c) s =
    reply-Logs q _ (Calls.entry q (Calls.post_prune a b c)) _ _ (prune_now-Logs p q s a b c)
perform-Logs p q (Calls.put_remote_access body) s =
    reply-Logs q _ (Calls.entry q (Calls.put_remote_access body)) _ _
      (put_remote-at p q s body s.registry.device.config refl)
perform-Logs p q (Calls.post_cancel i) s =
    reply-Logs q _ (Calls.entry q (Calls.post_cancel i)) _ _ (quiet q s.config_audit _ _ refl)
perform-Logs p q (Calls.post_requeue i) s =
    reply-Logs q _ (Calls.entry q (Calls.post_requeue i)) _ _ (quiet q s.config_audit _ _ refl)
perform-Logs p q (Calls.post_resolve i body) s =
    reply-Logs q _ (Calls.entry q (Calls.post_resolve i body)) _ _ (quiet q s.config_audit _ _ refl)

Logs-valid :
    {A : Type 0} (q : Request) (entry : A → Option ConfigChange) (t : AuditTable ConfigChange)
    (r : Result A × AdminState)
    → ((x : Text) → q.sha256 x ≢ [])
    → Logs q entry t r
    → (verify_chain q.sha256 q.dumps t).0 ≡ valid
    → (verify_chain q.sha256 q.dumps r.1.config_audit).0 ≡ valid
Logs-valid q entry t (err e, s') hashes h fine = rw h fine
Logs-valid q entry t (ok a, s') hashes h fine = rw h (logged-valid q t (entry a) hashes fine)
  where
    logged-valid :
        (q : Request) (t : AuditTable ConfigChange) (c : Option ConfigChange)
        → ((x : Text) → q.sha256 x ≢ [])
        → (verify_chain q.sha256 q.dumps t).0 ≡ valid
        → (verify_chain q.sha256 q.dumps (logged q c t)).0 ≡ valid
    logged-valid q t none hashes fine = fine
    logged-valid q t (some c) hashes fine =
        ap (λ v. v.0) (record_entry_valid q.sha256 q.dumps hashes c q.now t fine)

abbrev pub is_prune : Calls.AdminCall → Bool
is_prune (Calls.post_prune a b c) = true
is_prune _ = false

before_entry_same :
    (q : Request) (c : Calls.AdminCall) (t : AuditTable ConfigChange)
    → is_prune c ≡ false
    → Calls.before_entry q c t ≡ t
before_entry_same q (Calls.post_prune a b c) t h = cc
before_entry_same q _ t h = refl

-- The administration API keeps its audit intact: with a hash that is never empty, a log of the
-- configuration that the check of the chain accepts is accepted after every call but a prune, whether
-- the call succeeds or fails.
pub perform-valid :
    (p : QueueSettings) (q : Request) (c : Calls.AdminCall) (s : AdminState)
    → ((x : Text) → q.sha256 x ≢ [])
    → is_prune c ≡ false
    → (verify_chain q.sha256 q.dumps s.config_audit).0 ≡ valid
    → (verify_chain q.sha256 q.dumps (Calls.perform p q c s).1.config_audit).0 ≡ valid
perform-valid p q c s hashes other fine =
    Logs-valid q (Calls.entry q c) (Calls.before_entry q c s.config_audit) (Calls.perform p q c s)
      hashes (perform-Logs p q c s) (rw (before_entry_same q c s.config_audit other) fine)
