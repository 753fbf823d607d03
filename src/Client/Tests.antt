-- ===== src/Client/Tests.antt =====
-- Runs of the metrics client: one call at a time, and calls that overlap.
use waok8s.Prelude.{
  ◌+◌, In, List, ℕ, ◌<◌, ◌≡◌, refl, true, [], ◌∷◌, ◌++◌, none, some, Text, Dict, lit, lookup,
  insert, text_eq, arith, ok, err,
}
use waok8s.Kube.{NamespacedName}
use waok8s.Client.Keys.{Lacks}
use waok8s.Client.Metrics.{
  Origin, MetricsCache, GetError, metrics_cache_key, empty_entry, fill, get, get_node_metrics,
}
use waok8s.Client.Metrics.Laws.{Shows, IsName, Filled, get-Filled}
use waok8s.Client.Interleaving.{Pc, State, Reach, init}
use waok8s.Client.Interleaving.Provenance.{returned_served, returned_nil}
use waok8s.Client.Interleaving.Races.{nil_without_error}
use waok8s.Client.Interleaving.Liveness.{CanReturn, call_returns}
use waok8s.Client.Interleaving.Reach.{stay, then_step}
use waok8s.Client.Interleaving.Step.{load_nothing, load_entry, push, fill_ok}

abbrev show : NamespacedName → Text
show a = a.namespace ++ b'/' ∷ a.name

show-Shows : Shows show
show-Shows = record { joined = λ a. refl }

abbrev node_1 : NamespacedName
node_1 = record { namespace = []; name = lit "n1" }

abbrev pod_1 : NamespacedName
pod_1 = record { namespace = lit "default"; name = lit "web" }

node_1-IsName : IsName node_1
node_1-IsName = record {
  no_slash = omega arith;
  namespace_lacks = omega arith;
  name_lacks = omega arith;
}

pod_1-IsName : IsName pod_1
pod_1-IsName = record {
  no_slash = omega arith;
  namespace_lacks = omega arith;
  name_lacks = omega arith;
}

-- An origin with metrics for nodes and none for pods.
abbrev origin : Origin ℕ ℕ ℕ
origin = record {
  node_metrics = λ name. some 5;
  pod_metrics = λ ns name. none;
  custom_metric = λ name metric. some 6;
}

abbrev none_left : Origin ℕ ℕ ℕ
none_left = record {
  node_metrics = λ name. none;
  pod_metrics = λ ns name. none;
  custom_metric = λ name metric. none;
}

abbrev nothing : Dict (MetricsCache ℕ ℕ ℕ)
nothing = []

abbrev no_calls : List (Origin ℕ ℕ ℕ × ℕ)
no_calls = []

nothing-Filled : Filled show 30 no_calls nothing
unfolding lookup
nothing-Filled k cv e = absurd (ground arith)

abbrev filled : MetricsCache ℕ ℕ ℕ
filled = record { node_metrics = some 5; pod_metrics = none; custom_metrics = []; expired_at = 130 }

get_run : (get show 30 origin 100 node_1 (lit "node") (lit "metrics") nothing).0 ≡ ok filled
unfolding get text_eq
get_run = refl

abbrev key_1 : Text
key_1 = lit "/n1#node#metrics"

get_stored :
    lookup key_1 (get show 30 origin 100 node_1 (lit "node") (lit "metrics") nothing).1
    ≡ some filled
unfolding get lookup insert text_eq
get_stored = refl

get-Filled_example :
    (o : Origin ℕ ℕ ℕ) × (at_time : ℕ) × (obj : NamespacedName) × (t m : Text) × In
      (o, at_time)
      ((origin, 100) ∷ no_calls)
    × IsName obj
    × Lacks b'#' t
    × (key_1 ≡ metrics_cache_key show obj t m)
    × (fill o obj t m (empty_entry (at_time + 30)) ≡ ok filled)
get-Filled_example =
    get-Filled show 30 origin 100 node_1 (lit "node") (lit "metrics") nothing no_calls node_1-IsName
      (omega arith) nothing-Filled key_1 filled get_stored

abbrev old_cache : Dict (MetricsCache ℕ ℕ ℕ)
old_cache = (lit "default/web#pod#metrics", record filled { expired_at = 90 }) ∷ []

get_failed_run :
    (get show 30 origin 100 pod_1 (lit "pod") (lit "metrics") old_cache).0
    ≡ err GetError.unable_to_get
unfolding get text_eq
get_failed_run = refl

get_node_metrics_run : (get_node_metrics show 30 origin 100 (lit "n1") nothing).0 ≡ ok (some 5)
unfolding get_node_metrics text_eq
get_node_metrics_run = refl

-- Two threads that ask for one key, and an origin that answers 7.
abbrev key_of : ℕ → Text
key_of t = lit "k"

abbrev Served : Text → ℕ → Type 0
Served k v = v ≡ 7

abbrev begin : State ℕ
begin = init 0

begin-miss : lookup (lit "k") begin.cache ≡ none
unfolding lookup
begin-miss = refl

nil_without_error_example :
    (u : State ℕ) × Reach key_of 30 Served begin u × (u.pc 1 ≡ Pc.returned (some none))
nil_without_error_example =
    nil_without_error key_of 30 Served begin 0 1 (omega arith) refl (omega arith) refl refl
      begin-miss

-- The second call waits for the entry that the first one fills.
half_way : (u : State ℕ) × Reach key_of 30 Served begin u
unfolding lookup insert text_eq
half_way = (
  _,
  then_step (then_step (then_step stay (load_nothing 0 refl begin-miss)) (push 0 refl))
      (load_entry 1 0 refl refl),
)

call_returns_example : CanReturn key_of 30 Served half_way.0 1
call_returns_example = call_returns key_of 30 Served 0 half_way.0 1 half_way.1

race : (u : State ℕ) × Reach key_of 30 Served begin u × (u.pc 1 ≡ Pc.returned (some none))
race =
    nil_without_error key_of 30 Served begin 0 1 (omega arith) refl (omega arith) refl refl
      begin-miss

returned_nil_example :
    (r : ℕ) × (r < race.0.next) × ((race.0.heap r).key ≡ lit "k") × ((race.0.heap r).failed ≡ true)
returned_nil_example = returned_nil key_of 30 Served 0 race.0 1 race.1 race.2

one_call : (u : State ℕ) × Reach key_of 30 Served begin u × (u.pc 0 ≡ Pc.returned (some (some 7)))
one_call = (
  _,
  then_step (then_step (then_step stay (load_nothing 0 refl begin-miss)) (push 0 refl))
      (fill_ok 0 0 7 refl refl),
  refl,
)

returned_served_example : Served (lit "k") 7
returned_served_example = returned_served key_of 30 Served 0 one_call.0 0 7 one_call.1 one_call.2
