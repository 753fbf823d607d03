-- ===== src/Collector/Reconcile.antt =====
-- wao-metrics-adapter/pkg/controller/nodeconfig_controller.go: the runners that a NodeConfig asks for.
pub mod Sound
pub mod Deletion
pub mod Laws
pub mod Leak
mod Tests
use waok8s.Prelude.{
  ◌++◌, ◌∷◌, List, [], Option, none, some, Text, Dict, lit, text_eq, Result, ok, err, Bool, true,
  false,
}
use waok8s.Prelude.Int64.{ℤ, pos, sub64}
use waok8s.Kube.{NamespacedName}
use waok8s.NodeApi.{EndpointTerm, NodeConfig, type_fake, type_redfish, type_dpapi}
use waok8s.Collector.{ValueType, Collector, value_type_name, register, unregister}
use waok8s.Agents.Http.{RequestEditorFn, with_basic_auth, with_curl_logger, get_basic_auth}
use waok8s.Agents.Redfish.{ServerType, InletTempAgent}
use waok8s.Agents.Dpapi.{DeltaPAgent}
use waok8s.Agents.Fake.{FakeAgent, new_inlet_temp_agent, new_delta_p_agent}

-- An agent; those that use HTTP have the timeout of their client.
pub data AnyAgent (F : Type 0) : Type 0 where
  fake_agent : FakeAgent F → AnyAgent F
  redfish_agent : InletTempAgent → ℤ → AnyAgent F
  dpapi_agent : DeltaPAgent → ℤ → AnyAgent F

-- `CollectorKey`
unfoldable pub collector_key : NamespacedName → ValueType → Text
collector_key obj_key type_ =
    obj_key.namespace ++ (b'/' ∷ (obj_key.name ++ (b'#' ∷ value_type_name type_)))

-- `DefaultFetchInterval`, and `defaultEndpointTerm`, of which only the interval is read.
abbrev pub default_fetch_interval : ℤ
default_fetch_interval = pos 15000000000

unfoldable pub fetch_interval_of : EndpointTerm → ℤ
fetch_interval_of conf = elim conf.fetch_interval [ none ↦ default_fetch_interval | some i ↦ i ]

-- `fetchTimeout` is 300 milliseconds less, and `requestTimeout` is as much less again.
unfoldable pub shorter_by_300ms : ℤ → ℤ
unfolding sub64
shorter_by_300ms d = sub64 d (pos 300000000)

pub data ReconcileError : Type 0 where
  get_failed unsupported_inlet_temp unsupported_delta_p : ReconcileError

-- What `Get` finds; `deleting` is a NodeConfig with a deletion timestamp.
pub data Found : Type 0 where
  not_found not_read deleting : Found
  found : NodeConfig → Found

-- `Register` for the agent of a term.
unfoldable pub register_agent :
    {F : Type 0}
    → NamespacedName
    → ValueType
    → AnyAgent F
    → NodeConfig
    → EndpointTerm
    → Collector (AnyAgent F)
    → Collector (AnyAgent F)
unfolding register collector_key fetch_interval_of shorter_by_300ms
register_agent obj_key type_ agent nc conf c =
    register (collector_key obj_key type_) agent nc.spec.node_name (fetch_interval_of conf)
      (shorter_by_300ms (fetch_interval_of conf)) c

-- `reconcileNodeConfigDeletion`
unfoldable pub reconcile_node_config_deletion :
    {F : Type 0} → NamespacedName → Collector (AnyAgent F) → Collector (AnyAgent F)
unfolding unregister collector_key
reconcile_node_config_deletion obj_key c =
    unregister (collector_key obj_key ValueType.delta_pressure)
      (unregister (collector_key obj_key ValueType.inlet_temperature) c)

module _ {F : Type 0} (fake_temp fake_pressure : F)
    (secrets : Text → Text → Option (Dict Text)) where
  abbrev pub editors_for : Text → EndpointTerm → List RequestEditorFn
  editors_for namespace conf =
      let (username, password) = get_basic_auth secrets namespace conf.basic_auth_secret in
      with_basic_auth username password ∷ with_curl_logger ∷ []

  -- The two switches on `conf.Type`.
  unfoldable pub inlet_temp_agent : Text → EndpointTerm → Option (AnyAgent F)
  unfolding text_eq fetch_interval_of shorter_by_300ms new_inlet_temp_agent get_basic_auth
      with_basic_auth with_curl_logger
  inlet_temp_agent namespace conf = elim (text_eq conf.type_ type_fake) [
    | true ↦ some (fake_agent (new_inlet_temp_agent fake_temp none (pos 100000000)))
    | false ↦ elim (text_eq conf.type_ type_redfish) [
      | true ↦ some (
          redfish_agent
            (record {
              address = conf.endpoint;
              server_type = ServerType.auto_detect;
              editor_fns = editors_for namespace conf;
            })
            (shorter_by_300ms (shorter_by_300ms (fetch_interval_of conf))))
      | false ↦ none
    ]
  ]

  unfoldable pub delta_p_agent : Text → Text → EndpointTerm → Option (AnyAgent F)
  unfolding text_eq fetch_interval_of shorter_by_300ms new_delta_p_agent get_basic_auth
      with_basic_auth with_curl_logger
  delta_p_agent namespace node_name conf = elim (text_eq conf.type_ type_fake) [
    | true ↦ some (fake_agent (new_delta_p_agent fake_pressure none (pos 100000000)))
    | false ↦ elim (text_eq conf.type_ type_dpapi) [
      | true ↦ some (
          dpapi_agent
            (record {
              address = conf.endpoint;
              sensor_name = [];
              node_name = node_name;
              node_ip = [];
              editor_fns = editors_for namespace conf;
            })
            (shorter_by_300ms (shorter_by_300ms (fetch_interval_of conf))))
      | false ↦ none
    ]
  ]

  -- `reconcileNodeConfig`: the error, if any, and the collector after it.
  unfoldable pub reconcile_node_config :
      NamespacedName
      → NodeConfig
      → Collector (AnyAgent F)
      → Option ReconcileError × Collector (AnyAgent F)
  unfolding inlet_temp_agent delta_p_agent register_agent
  reconcile_node_config obj_key nc c =
      let temp = nc.spec.metrics_collector.inlet_temp in
      let pressure = nc.spec.metrics_collector.delta_p in
      elim (inlet_temp_agent obj_key.namespace temp) [
        | none ↦ (some unsupported_inlet_temp, c)
        | some agent ↦
            let registered = register_agent obj_key ValueType.inlet_temperature agent nc temp c in
            elim (delta_p_agent obj_key.namespace nc.spec.node_name pressure) [
              | none ↦ (some unsupported_delta_p, registered)
              | some other ↦ (
                none,
                register_agent obj_key ValueType.delta_pressure other nc pressure registered,
              )
            ]
      ]

  -- `Reconcile`
  unfoldable pub reconcile :
      NamespacedName
      → Found
      → Collector (AnyAgent F)
      → Option ReconcileError × Collector (AnyAgent F)
  unfolding reconcile_node_config reconcile_node_config_deletion
  reconcile obj_key not_found c = (none, reconcile_node_config_deletion obj_key c)
  reconcile obj_key not_read c = (some get_failed, c)
  reconcile obj_key deleting c = (none, reconcile_node_config_deletion obj_key c)
  reconcile obj_key (found nc) c = reconcile_node_config obj_key nc c
