-- ===== src/Admin/Remote.antt =====
-- app/remote.py: `resolve_remote`, the remote-access settings that a client is shown, and `tunnel_token`;
-- and `get_device` of app/admin.py.
use vibe_printer.Prelude.{Bool, false, ◌&&◌, String, none, some, str_eq, if◌then◌else◌}
use vibe_printer.Errors.{Result, ok, err}
use vibe_printer.Json.{Json, null, bool, str, Fields, end, field, get_field, truthy}
use vibe_printer.Json.Values.{get_or}
use vibe_printer.Registry.Config.{Device}
use vibe_printer.Admin.{AdminState}
use vibe_printer.Admin.Operations.{old_section}

-- The fields of app/settings.py that it reads.
pub record RemoteSettings : Type 0 where
  pub remote_access_mode : String
  pub remote_hostname : String
  pub access_team_domain : String
  pub access_aud : String
  pub cloudflared_metrics_url : String
  pub access_lan_bypass : Bool

-- `v if v not in (None, "") else default`
unfoldable pub shown : String → (default : String) → (section : Fields) → Json
unfolding get_field
shown k default section = elim (get_field k section) [
  | none ↦ str default
  | some null ↦ str default
  | some (str s) ↦ if str_eq s "" then str default else str s
  | some v ↦ v
]

unfoldable pub bypass_of : Bool → (section : Fields) → Bool
unfolding get_field truthy
bypass_of default section = elim (get_field "access_lan_bypass" section) [
  | none ↦ default
  | some null ↦ default
  | some v ↦ truthy v
]

-- The reply, from the section "remote_access".
unfoldable pub remote_of : RemoteSettings → (section : Fields) → Fields
unfolding shown bypass_of get_or truthy
remote_of p section =
    let team = shown "access_team_domain" p.access_team_domain section in
    let aud = shown "access_aud" p.access_aud section in
    field "mode" (shown "mode" p.remote_access_mode section) (
      field "hostname" (shown "hostname" p.remote_hostname section) (
        field "access_team_domain" team (
          field "access_aud" aud (
            field "cloudflared_metrics_url"
              (shown "cloudflared_metrics_url" p.cloudflared_metrics_url section)
              (field "access_lan_bypass" (bool (bypass_of p.access_lan_bypass section)) (
                field "access_enabled" (bool (truthy team && truthy aud)) (
                  field "tunnel_mode" (get_or "tunnel_mode" (str "named") section) (
                    field "tunnel_enabled"
                      (bool (truthy (get_or "tunnel_enabled" (bool false) section)))
                      (field "tunnel_token_set" (bool (truthy (get_or "tunnel_token" null section)))
                        end)))))))))

unfoldable pub resolve_remote : RemoteSettings → (config : Fields) → Result Fields
unfolding old_section remote_of
resolve_remote p config = elim (old_section config) [
  | err e ↦ err e
  | ok section ↦ ok (remote_of p section)
]

-- `tunnel_token`, which the tunnel is started with.
unfoldable pub tunnel_token : (config : Fields) → Result Json
unfolding old_section get_or
tunnel_token config = elim (old_section config) [
  | err e ↦ err e
  | ok section ↦ ok (get_or "tunnel_token" (str "") section)
]

-- GET /admin/device: the row of the device, with its whole config.
unfoldable pub admin_get_device : AdminState → Device
admin_get_device s = s.registry.device
