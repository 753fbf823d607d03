-- ===== src/Agents.antt =====
-- wao-metrics-adapter/pkg/metrics/{redfish,dpapi,fake} and pkg/util/http.go: the agents that fetch the
-- temperature and the pressure of a node.
pub mod Http
pub mod Redfish
pub mod Dpapi
pub mod Fake
pub mod Laws
mod Tests
