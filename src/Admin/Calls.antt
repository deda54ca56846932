-- ===== src/Admin/Calls.antt =====
-- The calls of the administration API that change something, as values, and what the audit gets of each.
use vibe_printer.Prelude.{ℕ, String, Option, none, some}
use vibe_printer.Prelude.Texts.{Text}
use vibe_printer.Errors.{Result, ok, err}
use vibe_printer.Json.{Json, Fields}
use vibe_printer.Registry.Versioned.{Row}
use vibe_printer.Registry.Config.{PrinterCreate, Format, Template, Overlay}
use vibe_printer.PrintApi.{QueueSettings}
use vibe_printer.Audit.{ConfigChange, AuditTable, prune_audit}
use vibe_printer.Admin.{
  AdminState, Request, change, admin_update_device, admin_create_printer, admin_update_printer,
  admin_delete_printer, admin_create_format, admin_update_format, admin_delete_format,
  admin_create_template, admin_update_template, admin_delete_template, admin_create_overlay,
  admin_update_overlay, admin_delete_overlay,
}
use vibe_printer.Admin.Printing.{test_print, open_drawer, provision_queue}
use vibe_printer.Admin.Operations.{
  admin_cancel, admin_requeue, admin_resolve, erase_payload, prune_now, put_remote,
}

pub data AdminCall : Type 0 where
  put_device : (name timezone : String) (config : Json) (version : ℕ) → AdminCall
  post_printer : PrinterCreate → AdminCall
  put_printer : (i version : ℕ) → PrinterCreate → AdminCall
  post_format : Format → AdminCall
  put_format : (i version : ℕ) → Format → AdminCall
  post_template : Template → AdminCall
  put_template : (i version : ℕ) → Template → AdminCall
  post_overlay : Overlay → AdminCall
  put_overlay : (i version : ℕ) → Overlay → AdminCall
  remove_printer remove_format remove_template remove_overlay : ℕ → AdminCall
  post_test : ℕ → AdminCall
  post_drawer post_queue : ℕ → (body : Fields) → AdminCall
  post_cancel post_requeue erase : (i : String) → AdminCall
  post_resolve : (i : String) → (body : Fields) → AdminCall
  post_prune : (job_cut idem_cut audit_cut : Text) → AdminCall
  put_remote_access : (body : Fields) → AdminCall

-- The reply, of which the id of a new row is kept.
unfoldable pub reply :
    {A : Type 0} → (A → Option ℕ) → Result A × AdminState → Result (Option ℕ) × AdminState
reply f (err e, s) = (err e, s)
reply f (ok a, s) = (ok (f a), s)

abbrev new_id : {C : Type 0} → Row C → Option ℕ
new_id r = some r.id

abbrev no_id : {A : Type 0} → A → Option ℕ
no_id a = none

unfoldable pub perform :
    QueueSettings → Request → AdminCall → AdminState → Result (Option ℕ) × AdminState
unfolding reply
perform p q (put_device n t c v) s = reply no_id (admin_update_device q n t c v s)
perform p q (post_printer d) s = reply new_id (admin_create_printer q d s)
perform p q (put_printer i v d) s = reply no_id (admin_update_printer q i v d s)
perform p q (post_format d) s = reply new_id (admin_create_format q d s)
perform p q (put_format i v d) s = reply no_id (admin_update_format q i v d s)
perform p q (post_template d) s = reply new_id (admin_create_template q d s)
perform p q (put_template i v d) s = reply no_id (admin_update_template q i v d s)
perform p q (post_overlay d) s = reply new_id (admin_create_overlay q d s)
perform p q (put_overlay i v d) s = reply no_id (admin_update_overlay q i v d s)
perform p q (remove_printer i) s = reply no_id (admin_delete_printer q i s)
perform p q (remove_format i) s = reply no_id (admin_delete_format q i s)
perform p q (remove_template i) s = reply no_id (admin_delete_template q i s)
perform p q (remove_overlay i) s = reply no_id (admin_delete_overlay q i s)
perform p q (post_test i) s = reply no_id (test_print p q i s)
perform p q (post_drawer i body) s = reply no_id (open_drawer p q i body s)
perform p q (post_queue i body) s = reply no_id (provision_queue p q i body s)
perform p q (post_cancel i) s = reply no_id (admin_cancel q i s)
perform p q (post_requeue i) s = reply no_id (admin_requeue q i s)
perform p q (erase i) s = reply no_id (erase_payload q i s)
perform p q (post_resolve i body) s = reply no_id (admin_resolve q i body s)
perform p q (post_prune a b c) s = reply no_id (prune_now q a b c s)
perform p q (put_remote_access body) s = reply no_id (put_remote q body s)

-- What a team expects to find in the audit after a call that succeeded.
module _ (q : Request) where
  abbrev created : String → Option ℕ → Option ConfigChange
  created entity none = none
  created entity (some i) = some (change q entity (some (q.str_of i)) "create")

  abbrev of_row : String → ℕ → String → Option ConfigChange
  of_row entity i action = some (change q entity (some (q.str_of i)) action)

  abbrev pub entry : AdminCall → Option ℕ → Option ConfigChange
  entry (put_device n t c v) new = some (change q "device" none "update")
  entry (post_printer d) new = created "printer" new
  entry (put_printer i v d) new = of_row "printer" i "update"
  entry (post_format d) new = created "format" new
  entry (put_format i v d) new = of_row "format" i "update"
  entry (post_template d) new = created "template" new
  entry (put_template i v d) new = of_row "template" i "update"
  entry (post_overlay d) new = created "overlay" new
  entry (put_overlay i v d) new = of_row "overlay" i "update"
  entry (remove_printer i) new = of_row "printer" i "delete"
  entry (remove_format i) new = of_row "format" i "delete"
  entry (remove_template i) new = of_row "template" i "delete"
  entry (remove_overlay i) new = of_row "overlay" i "delete"
  entry (post_test i) new = none
  entry (post_drawer i body) new = of_row "printer" i "open_drawer"
  entry (post_queue i body) new = of_row "printer" i "provision_queue"
  entry (post_cancel i) new = none
  entry (post_requeue i) new = none
  entry (erase i) new = some (change q "job" (some i) "erase_payload")
  entry (post_resolve i body) new = none
  entry (post_prune a b c) new = some (change q "retention" none "prune")
  entry (put_remote_access body) new = some (change q "remote_access" none "update")

  -- Retention takes old entries away first.
  abbrev pub before_entry : AdminCall → AuditTable ConfigChange → AuditTable ConfigChange
  before_entry (post_prune a b c) t = prune_audit q.sha256 q.dumps c t
  before_entry _ t = t
