-- ===== src/Examples/Operators.antt =====
-- The start of the operator, and its runs after a restart.
use kwarm.Base.{◌≡◌, ◌⊎◌, List, [], ◌∷◌, ◌++◌, if◌then◌else◌}
use kwarm.Cluster.{ok, err}
use kwarm.Operator.Options.{TlsConfig, default_flags, manager_options}
use kwarm.Operator.Start.{main}
use kwarm.Operator.Tls.{configured, manager_options-protocols}
use kwarm.Operator.Order.{
  Answer, StartCall, readyz_call, recording, plan, onto, IsGranted, IsRefused, main_follows_plan,
}
use kwarm.Examples.World.{conflict}

manager_options-protocols_example :
    let o = manager_options default_flags in
    let c : TlsConfig = record { next_protos = "h2" ∷ [] } in
    let protocols = if default_flags.enable_http2 then c.next_protos else "http/1.1" ∷ [] in
    ((configured o.metrics.tls_opts c).next_protos ≡ protocols)
    × ((configured o.webhook_server.tls_opts c).next_protos ≡ protocols)
    × (o.metrics.secure_serving ≡ default_flags.metrics_secure)
    × (o.metrics.authenticated ≡ default_flags.metrics_secure)
manager_options-protocols_example =
    manager_options-protocols default_flags (record { next_protos = "h2" ∷ [] })

-- The second check is refused.
abbrev no_readyz : Answer
no_readyz w (readyz_call _) = err conflict
no_readyz w _ = ok tt

main_follows_plan_example :
    let r = main (recording no_readyz) default_flags [] in
    (made rest : List StartCall) × (made ++ rest ≡ plan default_flags)
    × (r.1 ≡ onto made [])
    × (((r.0 ≡ 0) × (rest ≡ []) × IsGranted no_readyz r.1) ⊎ ((r.0 ≡ 1) × IsRefused no_readyz r.1))
main_follows_plan_example = main_follows_plan no_readyz default_flags
