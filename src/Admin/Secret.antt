-- ===== src/Admin/Secret.antt =====
-- What a client is shown of the token of the tunnel.
use vibe_printer.Prelude.{
  ap, ◌∙◌, ◌≡◌, refl, Bool, false, ◌&&◌, String, Option, none, some, str_eq, eq_iff, arith,
}
use vibe_printer.Errors.{ok}
use vibe_printer.Json.{Json, null, bool, str, obj, Fields, end, field, get_field, set_field, truthy}
use vibe_printer.Json.Values.{get_or}
use vibe_printer.Templating.Merge.{get_field-set_field}
use vibe_printer.Admin.Operations.{old_section}
use vibe_printer.Admin.Remote.{
  RemoteSettings, shown, bypass_of, remote_of, resolve_remote, admin_get_device,
}
use vibe_printer.Admin.{AdminState}

get_field-set_field_same :
    (k : String) (v : Json) (m : Fields) → get_field k (set_field k v m) ≡ some v
unfolding get_field set_field
get_field-set_field_same k v end = ground (arith, eq_iff k k)
get_field-set_field_same k v (field j w m) =
    ground (arith, eq_iff j k, get_field-set_field_same k v m)

-- The section with another token.
abbrev pub with_token : Json → Fields → Fields
with_token token section = set_field "tunnel_token" token section

shown-token :
    (k default : String) (token : Json) (section : Fields)
    → str_eq k "tunnel_token" ≡ false
    → shown k default (with_token token section) ≡ shown k default section
unfolding shown
shown-token k default token section other =
    rw (shown, get_field-set_field k "tunnel_token" token section other) refl

get_or-token :
    (k : String) (d token : Json) (section : Fields)
    → str_eq k "tunnel_token" ≡ false
    → get_or k d (with_token token section) ≡ get_or k d section
unfolding get_or
get_or-token k d token section other =
    rw (get_or, get_field-set_field k "tunnel_token" token section other) refl

bypass_of-token :
    (default : Bool) (token : Json) (section : Fields)
    → bypass_of default (with_token token section) ≡ bypass_of default section
unfolding bypass_of
bypass_of-token default token section =
    rw (bypass_of, get_field-set_field "access_lan_bypass" "tunnel_token" token section refl) refl

token-with_token :
    (token : Json) (section : Fields)
    → get_or "tunnel_token" null (with_token token section) ≡ token
unfolding get_or
token-with_token token section =
    rw (get_or, get_field-set_field_same "tunnel_token" token section) refl

module _ (p : RemoteSettings) (section : Fields) (token : Json) where
  -- The reply is what it would be for the bare section, and whether there is a token.
  abbrev reply : Bool → Fields
  reply is_set =
      let team = shown "access_team_domain" p.access_team_domain section in
      let aud = shown "access_aud" p.access_aud section in
      field "mode" (shown "mode" p.remote_access_mode section) (
        field "hostname" (shown "hostname" p.remote_hostname section) (
          field "access_team_domain" team (
            field "access_aud" aud (
              field "cloudflared_metrics_url"
                (shown "cloudflared_metrics_url" p.cloudflared_metrics_url section)
                (field "access_lan_bypass" (bool (bypass_of p.access_lan_bypass section)) (
                  field "access_enabled" (bool (truthy team && truthy aud)) (
                    field "tunnel_mode" (get_or "tunnel_mode" (str "named") section) (
                      field "tunnel_enabled"
                        (bool (truthy (get_or "tunnel_enabled" (bool false) section)))
                        (field "tunnel_token_set" (bool is_set) end)))))))))

  remote_of-token : remote_of p (with_token token section) ≡ reply (truthy token)
  unfolding remote_of
  remote_of-token =
      rw
        (
          remote_of,
          shown-token "mode" p.remote_access_mode token section refl,
          shown-token "hostname" p.remote_hostname token section refl,
          shown-token "access_team_domain" p.access_team_domain token section refl,
          shown-token "access_aud" p.access_aud token section refl,
          shown-token "cloudflared_metrics_url" p.cloudflared_metrics_url token section refl,
          bypass_of-token p.access_lan_bypass token section,
          get_or-token "tunnel_mode" (str "named") token section refl,
          get_or-token "tunnel_enabled" (bool false) token section refl,
          token-with_token token section,
        )
        refl

old_section-set :
    (section config : Fields)
    → old_section (set_field "remote_access" (obj section) config) ≡ ok section
unfolding old_section
old_section-set section config =
    rw (old_section, get_field-set_field_same "remote_access" (obj section) config) refl

-- What the reply of `resolve_remote` says of any two tokens that are both set or both not: the same.
resolve_remote-token :
    (p : RemoteSettings) (config section : Fields) (token token' : Json)
    → truthy token ≡ truthy token'
    → resolve_remote p (set_field "remote_access" (obj (with_token token section)) config)
      ≡ resolve_remote p (set_field "remote_access" (obj (with_token token' section)) config)
unfolding resolve_remote
resolve_remote-token p config section token token' same =
    rw
      (
        resolve_remote,
        old_section-set (with_token token section) config,
        old_section-set (with_token token' section) config,
        remote_of-token p section token,
        remote_of-token p section token',
        same,
      )
      refl

-- The token that a config shows: config["remote_access"]["tunnel_token"].
abbrev pub token_in : Json → Option Json
token_in (obj config) = elim (get_field "remote_access" config) [
  | some (obj section) ↦ get_field "tunnel_token" section
  | _ ↦ none
]
token_in _ = none

token_in-set :
    (config section : Fields) (token : Json)
    → token_in (obj (set_field "remote_access" (obj (with_token token section)) config))
      ≡ some token
token_in-set config section token =
    rw (token_in, get_field-set_field_same "remote_access" (obj (with_token token section)) config)
      (get_field-set_field_same "tunnel_token" token section)

-- Where the token of the tunnel is kept and where it is not. With any config of the device, and any two
-- tokens in it that are both set or both not, the remote-access settings that a client is shown are the
-- same. But GET /admin/device shows the whole config, and so the very token that is stored.
pub resolve_remote-secret :
    (p : RemoteSettings) (s : AdminState) (config section : Fields) (token token' : Json)
    → truthy token ≡ truthy token'
    → s.registry.device.config
      ≡ obj (set_field "remote_access" (obj (with_token token section)) config)
    → (resolve_remote p (set_field "remote_access" (obj (with_token token section)) config)
        ≡ resolve_remote p (set_field "remote_access" (obj (with_token token' section)) config))
      × (token_in (admin_get_device s).config ≡ some token)
unfolding admin_get_device
resolve_remote-secret p s config section token token' same stored = (
  resolve_remote-token p config section token token' same,
  ap token_in stored ∙ token_in-set config section token,
)
