-- ===== src/LoadBalancer.antt =====
-- wao-loadbalancer/pkg/proxy/nftables/wao.go: the weights of the endpoints of a Service.
pub mod Options
pub mod ProxyName
pub mod Weights
pub mod SvcPort
pub mod ScoreNode
pub mod Service
pub mod Rules
pub mod Tables
pub mod Chains
pub mod Sync
pub mod Start
mod Tests
