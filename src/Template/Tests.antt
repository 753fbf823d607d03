-- ===== src/Template/Tests.antt =====
-- Templates on one node; the engine of the tests knows texts without actions only.
use waok8s.Prelude.{
  inr, ℕ, ◌≡◌, refl, inl, [], ◌∷◌, Option, none, some, true, false, here, Text, lit, arith, text_eq,
}
use waok8s.Kube.{Node}
use waok8s.NodeApi.{EndpointTerm}
use waok8s.Samples.{worker, fake_term}
use waok8s.Template.{
  TemplateData, Engine, internal_address, new_template_data_from_node, template_parse_endpoint_term,
}
use waok8s.Template.Reconcile.{NodeConfigTemplate}
use waok8s.Template.Requests.{
  TemplateObject, found, map_func_node_to_node_config_template, reconcile, HasConfig,
  requested-HasConfig,
}
use waok8s.Template.Laws.{
  new_template_data_octets, template_parse_endpoint_term_plain, template_parse_endpoint_term_blank,
}

abbrev node : Node ℕ
node = record (worker (lit "n1") (lit "z1")) {
  addresses =
      record { type_ = lit "Hostname"; address = lit "n1" }
      ∷ record { type_ = lit "InternalIP"; address = lit "10.0.3.4" }
      ∷ [];
}

address_run : internal_address node.addresses ≡ lit "10.0.3.4"
unfolding internal_address text_eq
address_run = refl

new_template_data_octets_run : (new_template_data_from_node node).ipv4 ≡ record {
  address = internal_address node.addresses;
  octet1 = lit "10";
  octet2 = lit "0";
  octet3 = lit "3";
  octet4 = lit "4";
}
new_template_data_octets_run =
    new_template_data_octets node (lit "10") (lit "0") (lit "3") (lit "4") (omega arith)
      (omega arith) (omega arith) (omega arith) address_run

-- The template is the text that it was parsed from; a blank text leaves it alone.
abbrev plain_parse : Text → Text → Option Text
plain_parse t [] = some t
plain_parse t (c ∷ s) = some (c ∷ s)

abbrev plain : Engine Text
plain = record { parse = plain_parse; execute = λ t values. some t }

abbrev values : TemplateData
values = record {
  hostname = lit "n1";
  ipv4 = record {
    address = lit "10.0.3.4";
    octet1 = lit "10";
    octet2 = lit "0";
    octet3 = lit "3";
    octet4 = lit "4";
  };
}

abbrev dpapi_term : EndpointTerm
dpapi_term = record fake_term { endpoint = lit "http://10.0.0.1:5000" }

template_parse_endpoint_term-plain_run :
    (template_parse_endpoint_term plain [] (some dpapi_term) values).0 ≡ some dpapi_term
template_parse_endpoint_term-plain_run =
    template_parse_endpoint_term_plain plain values [] dpapi_term (λ t. (lit "Fake", refl, refl))
      (λ t. (lit "http://10.0.0.1:5000", refl, refl)) (inl refl)

template_parse_endpoint_term_blank_example :
    (ep' : EndpointTerm) × ((template_parse_endpoint_term plain [] (some fake_term) values).0
      ≡ some ep')
    × (ep'.type_ ≡ lit "Fake")
    × (ep'.endpoint ≡ lit "Fake")
template_parse_endpoint_term_blank_example =
    template_parse_endpoint_term_blank plain values [] (lit "Fake") fake_term (lit "Fake")
      (λ w. refl) refl refl refl

abbrev node_config_template : NodeConfigTemplate
node_config_template = record {
  namespace = lit "ns";
  name = lit "t";
  template = record {
    node_name = [];
    metrics_collector = record { inlet_temp = dpapi_term; delta_p = dpapi_term };
    predictor = record { power_consumption = none; power_consumption_endpoint_provider = none };
  };
}

abbrev template_object : TemplateObject
template_object = record {
  nct = node_config_template;
  deleting = false;
  selector = some (λ labels. true);
}

-- A template whose selector cannot be read, and one that selects no node.
abbrev broken_object : TemplateObject
broken_object = record template_object { selector = none }

abbrev choosy_object : TemplateObject
choosy_object = record template_object { selector = some (λ labels. false) }

requested-HasConfig_example :
    (map_func_node_to_node_config_template
        (some node)
        (some (broken_object ∷ choosy_object ∷ template_object ∷ []))
      ≡ record { namespace = lit "ns"; name = lit "t" } ∷ [])
    × ((reconcile plain
          (λ name. true)
          (λ name. true)
          (found template_object)
          (some (node ∷ []))
          ([], [])).0
        ≡ none)
    × HasConfig
        (lit "t-n1")
        (lit "n1")
        (reconcile plain
          (λ name. true)
          (λ name. true)
          (found template_object)
          (some (node ∷ []))
          ([], [])).1.1
requested-HasConfig_example =
    requested-HasConfig plain (λ name. true) (λ name. true) (broken_object ∷ choosy_object ∷ [])
      template_object (λ labels. true) [] node (node ∷ []) ([], [])
      (inl refl, (inr ((λ labels. false), refl, refl), tt)) refl refl refl (here refl) refl refl
