-- ===== src/LoadBalancer/Tests.antt =====
-- Runs of the weights and of ScoreService on small inputs.
use native.Mathlib.Nat.{le-div_iff_mul-le, div-mul-le_self, le_trans, mul-le-mul_left, div_self}
use waok8s.Prelude.{
  ℕ, ◌+◌, ◌*◌, ◌/◌, ◌≤◌, ◌<◌, ◌≡◌, refl, ap, ◌≢◌, ◌⊎◌, [], ◌∷◌, ◌++◌, none, some, Text, Dict, lit,
  In, here, there, arith, ok, err, lookup, text_eq, if◌then◌else◌,
}
use waok8s.Prelude.Int64.{ℤ, pos, negsuc, ◌≤ℤ◌, add64}
use waok8s.Samples.{whole, worker, config_for}
use waok8s.Kube.{NamespacedName, Node}
use waok8s.LoadBalancer.Weights.{normalize_scores}
use waok8s.LoadBalancer.Weights.Laws.{
  IsRounded, Fits, normalize_scores_best, normalize_scores_order,
}
use waok8s.LoadBalancer.Options.{WaolbOptions, defaulting_waolb_options, validating_waolb_options}
use waok8s.LoadBalancer.ScoreNode.{
  NodeEnv, unscored, failed, panicked, score_node, cpu_usage_format_raw,
}
use waok8s.LoadBalancer.ScoreNode.Outcome.{score_node-cases}
use waok8s.LoadBalancer.SvcPort.{decode_svc_port_name_string, decode-named_port}
use waok8s.LoadBalancer.Service.{ServiceEnv, score_service, score}
use waok8s.LoadBalancer.Service.Order.{among, kept, lookup-score, score-order}
use waok8s.LoadBalancer.Service.Laws.{Weighted, service_of, score_service-Weighted, score-stored}

quotient-le : (m a b : ℕ) → 0 < a → a ≤ b → m / b ≤ m / a
quotient-le m a b p h =
    (le-div_iff_mul-le p).1 (le_trans (mul-le-mul_left (m / b) h) (div-mul-le_self m b))

quotient_unit : (m a : ℕ) → 0 < m → m ≤ a → m / a ≤ 1
quotient_unit m a p h = le_trans (quotient-le m m a p h) (omega (arith, div_self p))

whole-IsRounded : IsRounded whole
whole-IsRounded = record {
  lef = λ x y. x ≤ y;
  div_antitone = λ m a b p q h r. quotient-le m a b q h;
  div_unit = λ m a p h r. (omega arith, quotient_unit m a p h);
  mul_mono = λ x y l h u. mul-le-mul_left 100 h;
  mul_percent = λ x l u. (omega arith, omega (arith, u));
  round_mono = λ x y l h u. omega (arith, h);
  div_self = λ m p r. div_self p;
  hundred = refl;
}

abbrev pub ip_a : Text
ip_a = lit "10.0.0.1"

abbrev pub ip_b : Text
ip_b = lit "10.0.0.2"

abbrev ip_c : Text
ip_c = lit "10.0.0.3"

abbrev some_watts : Dict ℤ
some_watts = (ip_a, pos 19) ∷ (ip_b, pos 9) ∷ (ip_c, negsuc 4) ∷ []

normalize_scores_run : normalize_scores whole some_watts ≡ (ip_a, pos 0) ∷ (ip_b, pos 100) ∷ []
unfolding normalize_scores add64
normalize_scores_run = refl

some_watts-Fits : Fits some_watts
some_watts-Fits ip n (here e) = ground (arith, ap (λ (x : Text × ℤ). x.1) e)
some_watts-Fits ip n (there (here e)) = ground (arith, ap (λ (x : Text × ℤ). x.1) e)
some_watts-Fits ip n (there (there (here e))) = ground (arith, ap (λ (x : Text × ℤ). x.1) e)
some_watts-Fits ip n (there (there (there i))) = elim i [ ]

nine_is_least : (jp : Text) (k : ℕ) → In (jp, pos k) some_watts → 9 ≤ k
nine_is_least jp k (here e) = ground (arith, ap (λ (x : Text × ℤ). x.1) e)
nine_is_least jp k (there (here e)) = ground (arith, ap (λ (x : Text × ℤ). x.1) e)
nine_is_least jp k (there (there (here e))) = ground (arith, ap (λ (x : Text × ℤ). x.1) e)
nine_is_least jp k (there (there (there i))) = elim i [ ]

normalize_scores_best_example : In (ip_b, pos 100) (normalize_scores whole some_watts)
normalize_scores_best_example =
    normalize_scores_best whole whole-IsRounded some_watts some_watts-Fits ip_b 9
      (there (here refl)) nine_is_least

normalize_scores_order_example :
    (s t : ℤ) × In (ip_b, s) (normalize_scores whole some_watts)
    × In (ip_a, t) (normalize_scores whole some_watts)
    × (t ≤ℤ s)
normalize_scores_order_example =
    normalize_scores_order whole whole-IsRounded some_watts some_watts-Fits ip_b ip_a 9 19
      (there (here refl)) (here refl) (omega arith)

abbrev few_options : WaolbOptions
few_options = record {
  ip_family = lit "IPv4";
  metrics_cache_ttl = pos 0;
  predictor_cache_ttl = pos 5;
  cpu_usage_format = [];
}

few_options_run : validating_waolb_options (defaulting_waolb_options few_options) ≡ ok tt
unfolding validating_waolb_options defaulting_waolb_options
few_options_run = refl

-- Two nodes; the second has no NodeConfig.
abbrev pub two_nodes : NodeEnv ℕ
two_nodes = record {
  node = λ name. some (worker name (lit "z"));
  node_usage = λ name. some (some 2);
  inlet_temp = λ name. some (some 20);
  delta_p = λ name. some (some 7);
  node_configs = some (config_for (lit "n1") ∷ []);
  predictor_endpoint = λ ns ep. none;
  predict = λ ns ep cpu inlet delta. some (10 * cpu + inlet + delta);
}

abbrev pub n1 : Text
n1 = lit "n1"

score_node_run : score_node whole two_nodes cpu_usage_format_raw n1 3 ≡ ok (pos 30)
unfolding score_node
score_node_run = refl

score_node_unscored : score_node whole two_nodes cpu_usage_format_raw (lit "n2") 3 ≡ err unscored
unfolding score_node
score_node_unscored = refl

score_node-cases_example :
    ((n : ℕ) × (score_node whole two_nodes cpu_usage_format_raw n1 3 ≡ ok (pos n)))
    ⊎ (score_node whole two_nodes cpu_usage_format_raw n1 3 ≡ err unscored)
    ⊎ (score_node whole two_nodes cpu_usage_format_raw n1 3 ≡ err failed)
    ⊎ ((score_node whole two_nodes cpu_usage_format_raw n1 3 ≡ err panicked)
        × (node : Node ℕ) × (two_nodes.node n1 ≡ some node)
        × (two_nodes.node_usage node.name ≡ some none))
score_node-cases_example = score_node-cases whole two_nodes cpu_usage_format_raw n1 3

decode-named_port_example :
    decode_svc_port_name_string (lit "default" ++ b'/' ∷ (lit "nginx" ++ b':' ∷ lit "http"))
    ≡ record { namespace = lit "default"; svc_name = lit "nginx"; port_name = lit "http" }
decode-named_port_example =
    decode-named_port (lit "default") (lit "nginx") (lit "http") (omega arith) (omega arith)
      (omega arith) (omega arith)

abbrev pub nginx : NamespacedName
nginx = record { namespace = lit "default"; name = lit "nginx" }

abbrev pub balanced : ServiceEnv ℕ
balanced = record {
  nodes = two_nodes;
  service =
      λ name. some (record { namespace = name.namespace; name = name.name; annotations = [] });
  endpoint_slices = λ ns name. some (
      record { address_type = lit "IPv6"; endpoints = [] }
      ∷ record {
        address_type = lit "IPv4";
        endpoints =
            record { node_name = some n1; addresses = ip_a ∷ [] }
            ∷ record { node_name = some (lit "n2"); addresses = ip_b ∷ [] }
            ∷ [];
      }
      ∷ []);
  parse_quantity = λ t. none;
  default_cpu = 3;
}

abbrev pub nginx_scores : Dict ℤ
nginx_scores = (ip_a, pos 0) ∷ (ip_b, pos 100) ∷ []

-- The node without a NodeConfig gets the best weight.
score_service_run :
    score_service whole balanced (lit "IPv4") cpu_usage_format_raw nginx ≡ ok nginx_scores
unfolding score_service score_node add64
score_service_run = refl

score_service-Weighted_example :
    Weighted whole balanced (lit "IPv4") cpu_usage_format_raw nginx ip_b (pos 100)
score_service-Weighted_example =
    score_service-Weighted whole balanced (lit "IPv4") cpu_usage_format_raw nginx nginx_scores ip_b
      (pos 100) score_service_run (there (here refl))

abbrev pub port_name : Text
port_name = lit "default/nginx:http"

pub score_run :
    score whole balanced (lit "IPv4") cpu_usage_format_raw (port_name ∷ [])
    ≡ ok ((port_name, nginx_scores) ∷ [])
unfolding score score_node add64
score_run = refl

stored_scores : lookup port_name ((port_name, nginx_scores) ∷ []) ≡ some nginx_scores
unfolding lookup text_eq
stored_scores = refl

score-stored_run :
    In port_name (port_name ∷ [])
    × (service_of whole balanced (lit "IPv4") cpu_usage_format_raw port_name ≡ ok nginx_scores)
    × (nginx_scores ≢ [])
score-stored_run =
    score-stored whole balanced (lit "IPv4") cpu_usage_format_raw (port_name ∷ [])
      ((port_name, nginx_scores) ∷ []) port_name nginx_scores score_run stored_scores

abbrev other_port : Text
other_port = lit "default/nginx:metrics"

abbrev both_scores : Dict (Dict ℤ)
both_scores = (port_name, nginx_scores) ∷ (other_port, nginx_scores) ∷ []

both_run :
    score whole balanced (lit "IPv4") cpu_usage_format_raw (port_name ∷ other_port ∷ [])
    ≡ ok both_scores
unfolding score score_node add64
both_run = refl

lookup-score_example : lookup other_port both_scores ≡ (
    if among other_port (port_name ∷ other_port ∷ [])
    then kept (service_of whole balanced (lit "IPv4") cpu_usage_format_raw other_port)
    else none)
lookup-score_example =
    lookup-score whole balanced (lit "IPv4") cpu_usage_format_raw other_port
      (port_name ∷ other_port ∷ []) both_scores both_run

swapped_names :
    (name : Text)
    → among name (port_name ∷ other_port ∷ []) ≡ among name (other_port ∷ port_name ∷ [])
unfolding among
swapped_names name = ground arith

score-order_example :
    (out' : Dict (Dict ℤ)) × (score whole balanced
        (lit "IPv4")
        cpu_usage_format_raw
        (other_port ∷ port_name ∷ [])
      ≡ ok out')
    × ((key : Text) → lookup key out' ≡ lookup key both_scores)
score-order_example =
    score-order whole balanced (lit "IPv4") cpu_usage_format_raw (port_name ∷ other_port ∷ [])
      (other_port ∷ port_name ∷ []) both_scores swapped_names both_run
