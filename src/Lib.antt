-- ===== src/Lib.antt =====
-- A model of waok8s, the workload allocation optimizer for Kubernetes.
--
-- The parts. The scheduler has two plugins: MinimizePower asks the metrics adapter's cached clients
-- for the state of a node and for a prediction of its power, and ranks nodes by the watts that a pod
-- would add; PodSpread narrows the nodes of a pod so that the pods of its ReplicaSet spread over
-- regions, zones or nodes. The load balancer predicts in the same way what one more request costs
-- each endpoint of a Service, and turns watts into weights. The clients cache what they get.
--
-- Where each part stands:
-- - Scheduler/Normalize: NormalizeScore and PowerConsumptions2Scores of
--   wao-scheduler/pkg/plugins/minimizepower/minimizepower.go. The two loops over the calculated
--   scores are `highest_from`, `lowest_from` and `rescale_all`; the map `scores2` is `insert_all`.
-- - Scheduler/Power: Score of the same file as `score`, PodCPURequestOrLimit, and (Power/Args) the
--   arguments of types.go with getArgs. `Stop` tells a return before the last line from a panic.
--   Scheduler/Cycle: New, PreFilter, and Score followed by NormalizeScore over the nodes of a cycle.
-- - Scheduler/PodSpread: wao-scheduler/pkg/plugins/podspread/podspread.go. PodSpread has the areas
--   and getSpreadMode, Session the annotation and updateSchedulingSession, Allocatable
--   getAllocatableNodes, Filter PreFilter.
-- - Client/Metrics: wao-metrics-adapter/pkg/client/metrics.go, one call at a time: `get` on a map
--   from keys to entries. Client/Interleaving: the same protocol with calls that overlap, as steps
--   of threads on shared entries. Client/Keys: keys that are joined by separators.
-- - Client/Predictor: wao-metrics-adapter/pkg/client/predictor.go, one call at a time: `do_query` is
--   `do`, with its arguments as a record.
-- - LoadBalancer: wao-loadbalancer/pkg/proxy/nftables/wao.go: Options (defaults and validation),
--   ScoreNode, Service (ScoreService and Score), Weights (normalizeScores), SvcPort
--   (decodeSvcPortNameString).
-- - LoadBalancer/Rules: writeServiceToEndpointRules of
--   wao-loadbalancer/pkg/proxy/nftables/proxier.go: weights become ranges of a random number.
-- - LoadBalancer/Tables, Chains and Sync: syncProxyRules of the same file, on the chains of services
--   and endpoints. Tables has the commands of a transaction and what nftables makes of them, Chains one
--   round of the loop over the service ports (`sync_service`), Sync the whole (`sync_proxy_rules`) and
--   the handlers, Sync/Events the life of a proxier as a sequence of events.
-- - LoadBalancer/Start: NewWAOLB, betterChunkSize, NewProxier. LoadBalancer/ProxyName: the selector of
--   services in wao-loadbalancer/cmd/kube-proxy/app/server.go, and the addresses in server_linux.go.
-- - Agreement: ScoreNode of the load balancer against Score of the scheduler.
-- - Collector: wao-metrics-adapter/pkg/metrics/store.go and collector.go: the store, a round of
--   agentRunner.Run, Register and Unregister. Collector/Overlap: the rounds of all runners as steps that
--   interleave; a runner keeps what GetOrInit returned until it writes. Collector/Reconcile: the runners
--   that a NodeConfig asks for, wao-metrics-adapter/pkg/controller/nodeconfig_controller.go.
--   Collector/Provider: the custom metrics, wao-metrics-adapter/pkg/provider/provider.go.
-- - Agents: wao-metrics-adapter/pkg/metrics/redfish, dpapi and fake, and pkg/util/http.go (Agents/Http,
--   where `call` is the sequence of steps that every HTTP call of the source repeats).
-- - Predictors: wao-metrics-adapter/pkg/predictor: V2 (v2inferenceprotocol), Redfish (the endpoint
--   provider), FromNodeConfig (fromnodeconfig and the fakes).
-- - Template: wao-core/api/node/v1beta1/nodeconfigtemplate_types.go: the data of a node, and the
--   templates in the fields of a NodeConfig; the state of the one global template is passed on.
--   Template/Reconcile and Template/Requests:
--   wao-core/internal/controller/node/nodeconfigtemplate_controller.go.
-- - Kube and NodeApi: the Kubernetes objects by the fields that are read, and
--   wao-core/api/node/v1beta1/nodeconfig_types.go.
-- - Prelude: int64 with wrap-around, float64 as an interface, byte strings, maps, results.
-- - Samples, and the modules Tests: data, and runs on small inputs.
--
-- What is a parameter: float64 arithmetic (`Floats`; where a theorem needs more, `IsRounded` names the
-- properties of IEEE 754 that it needs, on numbers from 0 to 100), the API server, the metrics APIs, the predictors,
-- text/template, net/http, net/url, encoding/json, strconv.ParseFloat, resource.ParseQuantity, and
-- NamespacedName.String. Maps are
-- association lists; what depends on the order in which Go visits a map is read as a set. Times are
-- natural numbers.
-- All loops are structural recursion on lists, so no fuel is needed.
--
-- The change trackers of kube-proxy and its CategorizeEndpoints, nftables and the labels of
-- k8s.io/apimachinery are parameters too, with what they document as named hypotheses.
--
-- What is not modelled: logging and the measurement of times; the command line tools, the start-up and
-- generated code; the copy of kube-proxy in wao-loadbalancer, but for the parts named above. Of
-- syncProxyRules these are left out: the deletion of chains that have been stale for a second, which is
-- a transaction of its own before the sync; the tables and chains of setupNFTables; the elements of
-- maps and sets; the rules of the chains of external traffic and of the firewall, which are other
-- chains than those of the two policies and of the endpoints. The pieces of the load balancer's Score
-- run one after the other.
pub mod Prelude
pub mod Kube
pub mod NodeApi
pub mod Template
pub mod Agents
pub mod Predictors
pub mod Agreement
pub mod Collector
pub mod Samples
pub mod Client
pub mod Scheduler
pub mod LoadBalancer
