-- ===== src/Admin/Operations.antt =====
-- app/admin.py: the handlers on jobs, on retention and on the remote access.
use vibe_printer.Prelude.{true, false, String, none, some, if◌then◌else◌}
use vibe_printer.Prelude.Texts.{Text}
use vibe_printer.Errors.{Failure, Result, ok, err}
use vibe_printer.Json.{Json, null, bool, str, obj, Fields, end, field, get_field, set_field, truthy}
use vibe_printer.Json.Values.{get_or}
use vibe_printer.JobTable.{Job}
use vibe_printer.Jobs
use vibe_printer.Jobs.{JobStore, enqueue}
use vibe_printer.Jobs.Retention.{redact_payload, prune}
use vibe_printer.Registry.Config.{Device, update_device}
use vibe_printer.Audit.{prune_audit}
use vibe_printer.Admin.{AdminState, Request, change, config_change, registry_then}

-- The jobs: three calls of the queue that write no audit.
abbrev with_jobs : {A : Type 0} → Result A × JobStore → AdminState → Result A × AdminState
with_jobs (r, st) s = (r, record s { store = st })

module _ (q : Request) where
  unfoldable pub admin_cancel : (i : String) → AdminState → Result Job × AdminState
  admin_cancel i s = with_jobs (Jobs.cancel i q.now s.store) s

  unfoldable pub admin_requeue : (i : String) → AdminState → Result Job × AdminState
  admin_requeue i s = with_jobs (Jobs.requeue i q.now s.store) s

  -- `body.get("outcome", "done")`, which is only compared with "done".
  unfoldable pub outcome_of : (body : Fields) → String
  unfolding get_or
  outcome_of body = elim (get_or "outcome" (str "done") body) [ str t ↦ t | _ ↦ "" ]

  unfoldable pub admin_resolve :
      (i : String) → (body : Fields) → AdminState → Result Job × AdminState
  unfolding outcome_of
  admin_resolve i body s = with_jobs (Jobs.resolve i q.now (outcome_of body) s.store) s

  unfoldable pub erase_payload : (i : String) → AdminState → Result (Unit {0}) × AdminState
  unfolding redact_payload config_change
  erase_payload i s =
      let (r, st) = redact_payload q.payload_hash q.payload_length i s.store in
      elim r [
        | err e ↦ (err e, record s { store = st })
        | ok u ↦ (
          ok u,
          config_change q (change q "job" (some i) "erase_payload") (record s { store = st }),
        )
      ]

  -- `prune_now`: the cut-offs are computed from the settings.
  unfoldable pub prune_now :
      (job_cut idem_cut audit_cut : Text) → AdminState → Result (Unit {0}) × AdminState
  unfolding prune prune_audit config_change
  prune_now job_cut idem_cut audit_cut s = (
    ok tt,
    config_change q (change q "retention" none "prune") (record s {
      store = prune job_cut idem_cut s.store;
      config_audit = prune_audit q.sha256 q.dumps audit_cut s.config_audit;
      print_audit = prune_audit q.sha256 q.print_dumps audit_cut s.print_audit;
    }),
  )

-- `put_remote`: the section "remote_access" of the device's config.
unfoldable pub old_section : (config : Fields) → Result Fields
unfolding get_field
old_section config = elim (get_field "remote_access" config) [
  | none ↦ ok end
  | some (obj m) ↦ ok m
  | some _ ↦ err (Failure.other_exception "AttributeError")
]

-- A token in the body replaces the stored one, unless it is empty.
unfoldable pub token_of : (body existing : Fields) → Json
unfolding get_or truthy
token_of body existing =
    let token = get_or "tunnel_token" null body in
    if truthy token then token else get_or "tunnel_token" (str "") existing

unfoldable pub remote_section : (body existing : Fields) → Fields
unfolding get_or truthy token_of
remote_section body existing = field "mode" (get_or "mode" (str "lan") body) (
    field "hostname" (get_or "hostname" (str "") body) (
      field "access_team_domain" (get_or "access_team_domain" (str "") body) (
        field "access_aud" (get_or "access_aud" (str "") body) (
          field "cloudflared_metrics_url" (get_or "cloudflared_metrics_url" (str "") body) (
            field "access_lan_bypass" (bool (truthy (get_or "access_lan_bypass" (bool true) body)))
              (field "tunnel_mode"
                (get_or "tunnel_mode" (get_or "tunnel_mode" (str "named") existing) body)
                (field "tunnel_enabled"
                  (bool (
                    truthy (
                      get_or "tunnel_enabled" (get_or "tunnel_enabled" (bool false) existing)
                        body)))
                  (field "tunnel_token" (token_of body existing) end))))))))

unfoldable pub put_remote : Request → (body : Fields) → AdminState → Result Device × AdminState
unfolding old_section remote_section registry_then set_field
put_remote q body s =
    let d = s.registry.device in
    elim d.config [
      | obj config ↦ elim (old_section config) [
        | err e ↦ (err e, s)
        | ok existing ↦
            registry_then q
              (update_device d.name d.timezone
                (obj (set_field "remote_access" (obj (remote_section body existing)) config))
                d.version s.registry)
              (λ u. change q "remote_access" none "update") s
      ]
      | _ ↦ (err (Failure.other_exception "TypeError"), s)
    ]
