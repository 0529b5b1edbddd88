-- ===== src/Api.antt =====
-- api/router.go, api/insecure.go, api/model.go and api/infra.go: what stands between a request and
-- the backend.
pub mod Retry
pub mod Gate
pub mod Session
pub mod Resources
pub mod Infras
pub mod Nodes
pub mod Schemas
mod Examples
