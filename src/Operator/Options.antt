-- ===== src/Operator/Options.antt =====
-- cmd/main.go: the flags, and the options of the two servers and of the manager. The Go package
-- `flag` parses the command line, so the flags are given.
use kwarm.Base.{Bool, true, false, not, String, List, [], ◌∷◌, ltb, if◌then◌else◌, ℤ, pos}
use Prim.Native.String.{len}

pub record Flags : Type 0 where
  pub metrics_bind_address : String
  pub health_probe_bind_address : String
  pub leader_elect : Bool
  pub metrics_secure : Bool
  pub webhook_cert_path : String
  pub webhook_cert_name : String
  pub webhook_cert_key : String
  pub metrics_cert_path : String
  pub metrics_cert_name : String
  pub metrics_cert_key : String
  pub enable_http2 : Bool
  pub max_concurrent_pulls : ℤ
  pub max_pulls_per_node : ℤ

abbrev pub default_flags : Flags
default_flags = record {
  metrics_bind_address = "0";
  health_probe_bind_address = ":8081";
  leader_elect = false;
  metrics_secure = true;
  webhook_cert_path = "";
  webhook_cert_name = "tls.crt";
  webhook_cert_key = "tls.key";
  metrics_cert_path = "";
  metrics_cert_name = "tls.crt";
  metrics_cert_key = "tls.key";
  enable_http2 = false;
  max_concurrent_pulls = pos 10;
  max_pulls_per_node = pos 2;
}

-- `tls.Config`, as far as the code writes it.
pub record TlsConfig : Type 0 where
  pub next_protos : List String

abbrev pub disable_http2 : TlsConfig → TlsConfig
disable_http2 c = record c { next_protos = "http/1.1" ∷ [] }

unfoldable pub tls_opts : Flags → List (TlsConfig → TlsConfig)
tls_opts f = if not f.enable_http2 then disable_http2 ∷ [] else []

-- `webhook.Options`
pub record WebhookOptions : Type 0 where
  pub tls_opts : List (TlsConfig → TlsConfig)
  pub cert_dir : String
  pub cert_name : String
  pub key_name : String

unfoldable pub webhook_server_options : Flags → WebhookOptions
webhook_server_options f =
    let options : WebhookOptions = record {
      tls_opts = tls_opts f;
      cert_dir = "";
      cert_name = "";
      key_name = "";
    } in
    if ltb 0 (len f.webhook_cert_path)
    then (record options {
      cert_dir = f.webhook_cert_path;
      cert_name = f.webhook_cert_name;
      key_name = f.webhook_cert_key;
    })
    else options

-- `metricsserver.Options`; the filter provider is set to authentication and authorization, or not.
pub record MetricsOptions : Type 0 where
  pub bind_address : String
  pub secure_serving : Bool
  pub tls_opts : List (TlsConfig → TlsConfig)
  pub authenticated : Bool
  pub cert_dir : String
  pub cert_name : String
  pub key_name : String

unfoldable pub metrics_server_options : Flags → MetricsOptions
metrics_server_options f =
    let options : MetricsOptions = record {
      bind_address = f.metrics_bind_address;
      secure_serving = f.metrics_secure;
      tls_opts = tls_opts f;
      authenticated = false;
      cert_dir = "";
      cert_name = "";
      key_name = "";
    } in
    let filtered : MetricsOptions =
      if f.metrics_secure then record options { authenticated = true } else options in
    if ltb 0 (len f.metrics_cert_path)
    then (record filtered {
      cert_dir = f.metrics_cert_path;
      cert_name = f.metrics_cert_name;
      key_name = f.metrics_cert_key;
    })
    else filtered

-- `ctrl.Options`
pub record ManagerOptions : Type 0 where
  pub metrics : MetricsOptions
  pub webhook_server : WebhookOptions
  pub health_probe_bind_address : String
  pub leader_election : Bool
  pub leader_election_id : String

unfoldable pub manager_options : Flags → ManagerOptions
manager_options f = record {
  metrics = metrics_server_options f;
  webhook_server = webhook_server_options f;
  health_probe_bind_address = f.health_probe_bind_address;
  leader_election = f.leader_elect;
  leader_election_id = "c4bdb06d.kwarm.io";
}
