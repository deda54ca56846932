-- ===== src/Tests/Admin.antt =====
-- The theorems on the administration API, applied.
use vibe_printer.Prelude.{◌≡◌, refl, true, some, [], ◌∷◌, length}
use vibe_printer.Prelude.Texts.{codes}
use vibe_printer.Errors.{ok}
use vibe_printer.PrintApi.{QueueSettings}
use vibe_printer.Audit.{verify_chain, valid}
use vibe_printer.Admin.{AdminState, Request}
use vibe_printer.Admin.Calls.{put_printer, remove_format, entry, perform}
use vibe_printer.Admin.Entries.{Logs}
use vibe_printer.Admin.Logged.{perform-Logs, perform-valid}
use vibe_printer.Admin.Remote.{RemoteSettings, resolve_remote, admin_get_device}
use vibe_printer.Admin.Secret.{with_token, token_in, resolve_remote-secret}
use vibe_printer.Json.{str, obj, end, set_field, truthy}
use vibe_printer.Tests.{job_a, holding, shop, front}

abbrev pub office : AdminState
office = record {
  registry = shop;
  store = holding job_a;
  config_audit = record { rows = []; sequence = 0 };
  print_audit = record { rows = []; sequence = 0 };
}

abbrev pub request : Request
request = record {
  real_ip = some "10.0.0.7";
  now = codes "2026-06-27T10:06:000001Z";
  job_id = "b";
  str_of = λ n. "1";
  sha256 = λ t. length t ∷ [];
  dumps = λ f ts. ts;
  print_dumps = λ f ts. ts;
  payload_hash = λ t. "digest";
  payload_length = λ t. 2;
  test_page = λ t. "JVBERi0=";
  text_now = "2026-06-27T10:06:000001Z";
  provision = λ p d m. ok tt;
}

abbrev limits : QueueSettings
limits = record { queue_max_depth = 10; per_printer_max_depth = 2 }

perform-Logs_example :
    Logs request
      (entry request (remove_format 1))
      office.config_audit
      (perform limits request (remove_format 1) office)
perform-Logs_example = perform-Logs limits request (remove_format 1) office

perform-valid_example :
    (verify_chain request.sha256 request.dumps
      (perform limits request (put_printer 1 1 front.content.config) office).1.config_audit).0
    ≡ valid
perform-valid_example =
    perform-valid limits request (put_printer 1 1 front.content.config) office (λ x e. cc) refl
      (unfold verify_chain in refl)

abbrev local_only : RemoteSettings
local_only = record {
  remote_access_mode = "lan";
  remote_hostname = "";
  access_team_domain = "";
  access_aud = "";
  cloudflared_metrics_url = "";
  access_lan_bypass = true;
}

-- An office with a token for its tunnel.
abbrev tunnelled : AdminState
tunnelled = record office {
  registry = record office.registry {
    device = record office.registry.device {
      config = obj (set_field "remote_access" (obj (with_token (str "a") end)) end);
    };
  };
}

resolve_remote-secret_example :
    (resolve_remote local_only (set_field "remote_access" (obj (with_token (str "a") end)) end)
      ≡ resolve_remote local_only (set_field "remote_access" (obj (with_token (str "b") end)) end))
    × (token_in (admin_get_device tunnelled).config ≡ some (str "a"))
resolve_remote-secret_example =
    resolve_remote-secret local_only tunnelled end end (str "a") (str "b") (unfold truthy in refl)
      refl
