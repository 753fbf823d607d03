-- ===== src/Client.antt =====
-- wao-metrics-adapter/pkg/client: the cached clients that the scheduler and the load balancer use.
pub mod Keys
pub mod Metrics
pub mod Interleaving
pub mod Predictor
mod Tests
