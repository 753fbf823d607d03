-- ===== src/NodeApi.antt =====
-- wao-core/api/node/v1beta1: the custom resources NodeConfig and NodeConfigTemplate. A pointer is an
-- `Option`; durations are integers of nanoseconds.
use waok8s.Prelude.{Option, Text, lit}
use waok8s.Prelude.Int64.{ℤ}

-- `EndpointTerm`; `basic_auth_secret` is the name in the reference to a Secret.
pub record EndpointTerm : Type 0 where
  pub type_ : Text
  pub endpoint : Text
  pub basic_auth_secret : Option Text
  pub fetch_interval : Option ℤ

pub record MetricsCollector : Type 0 where
  pub inlet_temp : EndpointTerm
  pub delta_p : EndpointTerm

pub record Predictor : Type 0 where
  pub power_consumption : Option EndpointTerm
  pub power_consumption_endpoint_provider : Option EndpointTerm

pub record NodeConfigSpec : Type 0 where
  pub node_name : Text
  pub metrics_collector : MetricsCollector
  pub predictor : Predictor

pub record NodeConfig : Type 0 where
  pub namespace : Text
  pub name : Text
  pub spec : NodeConfigSpec

abbrev pub type_fake : Text
type_fake = lit "Fake"

abbrev pub type_redfish : Text
type_redfish = lit "Redfish"

abbrev pub type_dpapi : Text
type_dpapi = lit "DifferentialPressureAPI"

abbrev pub type_v2_inference_protocol : Text
type_v2_inference_protocol = lit "V2InferenceProtocol"
