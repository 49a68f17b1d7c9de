-- ===== src/Operator/Tls.antt =====
-- What the two servers of the manager serve.
use kwarm.Base.{◌≡◌, List, [], ◌∷◌, if◌then◌else◌, arith}
use kwarm.Operator.Options.{
  Flags, TlsConfig, manager_options, metrics_server_options, webhook_server_options, tls_opts,
}

-- A server applies its options in their order.
unfoldable pub configured : List (TlsConfig → TlsConfig) → TlsConfig → TlsConfig
configured [] c = c
configured (opt ∷ opts) c = configured opts (opt c)

-- From any flags, both servers speak HTTP/1.1 alone unless HTTP/2 is enabled, and then what they would
-- speak by themselves; the metrics are served securely exactly when they ask for authentication, which
-- is when the flag says so.
pub manager_options-protocols :
    (f : Flags) (c : TlsConfig)
    → let o = manager_options f in
      let protocols = if f.enable_http2 then c.next_protos else "http/1.1" ∷ [] in
      ((configured o.metrics.tls_opts c).next_protos ≡ protocols)
      × ((configured o.webhook_server.tls_opts c).next_protos ≡ protocols)
      × (o.metrics.secure_serving ≡ f.metrics_secure)
      × (o.metrics.authenticated ≡ f.metrics_secure)
unfolding manager_options metrics_server_options webhook_server_options tls_opts configured
manager_options-protocols f c = ground arith
