-- ===== src/Predictors.antt =====
-- wao-metrics-adapter/pkg/predictor: where the power of a node is predicted, and by whom.
pub mod V2
pub mod Redfish
pub mod FromNodeConfig
pub mod Scan
pub mod Laws
mod Tests
