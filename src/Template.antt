-- ===== src/Template.antt =====
-- wao-core/api/node/v1beta1/nodeconfigtemplate_types.go: the data of a node, and the templates of a
-- NodeConfig. The one template `tmpl` is parsed again for each string, so its state is passed on.
pub mod Laws
pub mod Reconcile
pub mod Requests
mod Tests
use waok8s.Prelude.{
  ℕ, List, [], ◌∷◌, Option, none, some, Text, Dict, lit, lookup, split, text_eq, if◌then◌else◌,
}
use waok8s.Kube.{Node, NodeAddress}
use waok8s.NodeApi.{EndpointTerm, MetricsCollector, Predictor, NodeConfigSpec}

pub record TemplateDataIpv4 : Type 0 where
  pub address : Text
  pub octet1 : Text
  pub octet2 : Text
  pub octet3 : Text
  pub octet4 : Text

pub record TemplateData : Type 0 where
  pub hostname : Text
  pub ipv4 : TemplateDataIpv4

-- The first internal address.
unfoldable pub internal_address : List NodeAddress → Text
unfolding text_eq
internal_address [] = lit "x.x.x.x"
internal_address (addr ∷ addrs) =
    if text_eq addr.type_ (lit "InternalIP") then addr.address else internal_address addrs

-- The address with its octets: four `x` if it has not four parts.
unfoldable pub with_octets : Text → List Text → TemplateDataIpv4
with_octets address (a ∷ b ∷ c ∷ d ∷ []) = record {
  address = address;
  octet1 = a;
  octet2 = b;
  octet3 = c;
  octet4 = d;
}
with_octets address _ = record {
  address = address;
  octet1 = lit "x";
  octet2 = lit "x";
  octet3 = lit "x";
  octet4 = lit "x";
}

-- `NewTemplateDataFromNode`
unfoldable pub new_template_data_from_node : {F : Type 0} → Node F → TemplateData
unfolding lookup internal_address with_octets split
new_template_data_from_node node = record {
  hostname = elim (lookup (lit "kubernetes.io/hostname") node.labels) [
    | none ↦ lit "undefined.example.com"
    | some v ↦ v
  ];
  ipv4 =
      with_octets (internal_address node.addresses) (split b'.' (internal_address node.addresses));
}

-- text/template: `parse` gives the template after `Parse` has succeeded, `execute` its output.
pub record Engine (T : Type 0) : Type 0 where
  pub parse : T → Text → Option T
  pub execute : T → TemplateData → Option Text

module _ {T : Type 0} (engine : Engine T) where
  open engine use {parse, execute}

  -- `TemplateParseString`: the output, and `tmpl` after the call.
  unfoldable pub template_parse_string : T → Text → TemplateData → Option Text × T
  template_parse_string tmpl s values = elim (parse tmpl s) [
    | none ↦ (none, tmpl)
    | some t ↦ (execute t values, t)
  ]

  -- `if err == nil { out.X = v }`
  unfoldable pub rendered : T → Text → TemplateData → Text × T
  unfolding template_parse_string
  rendered tmpl s values =
      let (r, t) = template_parse_string tmpl s values in (elim r [ none ↦ s | some v ↦ v ], t)

  unfoldable pub rendered_secret : T → Option Text → TemplateData → Option Text × T
  unfolding rendered
  rendered_secret tmpl none values = (none, tmpl)
  rendered_secret tmpl (some s) values = let (v, t) = rendered tmpl s values in (some v, t)

  -- `TemplateParseEndpointTerm` of a pointer that is not nil.
  unfoldable pub parsed_term : T → EndpointTerm → TemplateData → EndpointTerm × T
  unfolding rendered rendered_secret
  parsed_term tmpl ep values =
      let (type_, t1) = rendered tmpl ep.type_ values in
      let (endpoint, t2) = rendered t1 ep.endpoint values in
      let (secret, t3) = rendered_secret t2 ep.basic_auth_secret values in
      (
        record {
          type_ = type_;
          endpoint = endpoint;
          basic_auth_secret = secret;
          fetch_interval = ep.fetch_interval;
        },
        t3,
      )

  -- `TemplateParseEndpointTerm`
  unfoldable pub template_parse_endpoint_term :
      T → Option EndpointTerm → TemplateData → Option EndpointTerm × T
  unfolding parsed_term
  template_parse_endpoint_term tmpl none values = (none, tmpl)
  template_parse_endpoint_term tmpl (some ep) values =
      let (out, t) = parsed_term tmpl ep values in (some out, t)

  -- `TemplateParseNodeConfig`
  unfoldable pub template_parse_node_config : T → NodeConfigSpec → TemplateData → NodeConfigSpec × T
  unfolding parsed_term template_parse_endpoint_term
  template_parse_node_config tmpl spec values =
      let (inlet, t1) = parsed_term tmpl spec.metrics_collector.inlet_temp values in
      let (delta, t2) = parsed_term t1 spec.metrics_collector.delta_p values in
      let (power, t3) = template_parse_endpoint_term t2 spec.predictor.power_consumption values in
      let (provider, t4) =
        template_parse_endpoint_term t3 spec.predictor.power_consumption_endpoint_provider values in
      (
        record {
          node_name = spec.node_name;
          metrics_collector = record { inlet_temp = inlet; delta_p = delta };
          predictor = record {
            power_consumption = power;
            power_consumption_endpoint_provider = provider;
          };
        },
        t4,
      )
