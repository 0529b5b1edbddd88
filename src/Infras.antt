-- ===== src/Infras.antt =====
-- backend/infra.go, with backend/configmap.go and backend/common.go: the infrastructures as the API
-- reads and writes them.
pub mod Calls
pub mod ConfigMap
pub mod Operations
pub mod BaseInfo
pub mod Reconciled
pub mod Service
mod Examples
