-- ===== src/Collector/Reconcile/Tests.antt =====
-- Reconciles of one NodeConfig.
use waok8s.Prelude.{
  ℕ, ◌≡◌, refl, ◌∷◌, [], none, some, Option, Text, Dict, lit, lookup, true, false, arith,
}
use waok8s.Prelude.Int64.{ℤ, pos, negsuc}
use waok8s.Kube.{NamespacedName}
use waok8s.NodeApi.{EndpointTerm, NodeConfig, type_fake, type_redfish, type_dpapi}
use waok8s.Collector.{ValueType, AgentRunner, Collector}
use waok8s.Collector.Reconcile.{
  AnyAgent, collector_key, inlet_temp_agent, delta_p_agent, not_found, deleting, found, reconcile,
  reconcile_node_config_deletion, unsupported_delta_p,
}
use waok8s.Collector.Reconcile.Sound.{IsSound}
use waok8s.Collector.Reconcile.Deletion.{deletion-stops}
use waok8s.Collector.Reconcile.Leak.{IsOrphan, reconcile_all, reconcile_leaks}
use waok8s.Collector.Reconcile.Laws.{Registered, reconcile-IsSound, reconcile-Registered}

abbrev no_secrets : Text → Text → Option (Dict Text)
no_secrets namespace name = none

abbrev term_of : Text → Option ℤ → EndpointTerm
term_of type_ interval = record {
  type_ = type_;
  endpoint = lit "http://h";
  basic_auth_secret = none;
  fetch_interval = interval;
}

abbrev config : Text → NodeConfig
config pressure_type = record {
  namespace = lit "ns";
  name = lit "n0";
  spec = record {
    node_name = lit "n0";
    metrics_collector = record {
      inlet_temp = term_of type_redfish (some (pos 200000000));
      delta_p = term_of pressure_type none;
    };
    predictor = record { power_consumption = none; power_consumption_endpoint_provider = none };
  };
}

abbrev key : NamespacedName
key = record { namespace = lit "ns"; name = lit "n0" }

abbrev idle : Collector (AnyAgent ℕ)
idle = record { runners = []; next = 0; runner = λ n. none; running = λ n. false }

idle-IsSound : IsSound idle
unfolding lookup
idle-IsSound k n e = absurd (ground arith)

-- The collector after the first Reconcile.
abbrev once : Collector (AnyAgent ℕ)
once = (reconcile 15 7 no_secrets key (found (config type_fake)) idle).1

once-IsSound : IsSound once
once-IsSound = reconcile-IsSound 15 7 no_secrets key (found (config type_fake)) idle idle-IsSound

-- An interval of 200 milliseconds gives a timeout below zero.
abbrev times_of : Option (AgentRunner (AnyAgent ℕ)) → Option (ℤ × ℤ)
times_of none = none
times_of (some r) = some (r.interval, r.timeout)

negative_timeout : times_of (once.runner 0) ≡ some (pos 1000000000, negsuc 99999999)
unfolding reconcile
negative_timeout = refl

half_registered :
    ((reconcile 15 7 no_secrets key (found (config type_redfish)) idle).0
      ≡ some unsupported_delta_p)
    × ((reconcile 15 7 no_secrets key (found (config type_redfish)) idle).1.running 0 ≡ true)
unfolding reconcile
half_registered = (refl, refl)

reconcile-IsSound_example : IsSound (reconcile 15 7 no_secrets key not_found once).1
reconcile-IsSound_example = reconcile-IsSound 15 7 no_secrets key not_found once once-IsSound

reconcile-Registered_example :
    (a b : AnyAgent ℕ) × (inlet_temp_agent 15 7 no_secrets
        (lit "ns")
        (term_of type_redfish (some (pos 200000000)))
      ≡ some a)
    × (delta_p_agent 15 7 no_secrets (lit "ns") (lit "n0") (term_of type_dpapi none) ≡ some b)
    × Registered 15 7 no_secrets key
        (config type_dpapi)
        a
        b
        idle
        (reconcile 15 7 no_secrets key (found (config type_dpapi)) idle).1
unfolding reconcile
reconcile-Registered_example =
    reconcile-Registered 15 7 no_secrets key (config type_dpapi) idle refl

deletion-stops_example :
    (lookup
        (collector_key key ValueType.delta_pressure)
        (reconcile_node_config_deletion key once).runners
      ≡ none)
    × ((reconcile_node_config_deletion key once).running 1 ≡ false)
unfolding reconcile collector_key
deletion-stops_example = deletion-stops key once ValueType.delta_pressure 1 refl

reconcile_leaks_example :
    let now =
      reconcile_all 15 7 no_secrets
        ((key, deleting) ∷ [])
        (reconcile 15 7 no_secrets key (found (config type_fake)) once).1 in
    let gone = (reconcile 15 7 no_secrets key not_found now).1 in
    IsOrphan 0 now
    × IsOrphan 0 gone
    × ((t : ValueType) → lookup (collector_key key t) gone.runners ≡ none)
unfolding reconcile collector_key
reconcile_leaks_example =
    reconcile_leaks 15 7 no_secrets key (config type_fake) once ValueType.inlet_temperature 0
      ((key, deleting) ∷ []) once-IsSound refl refl
