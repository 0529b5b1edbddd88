-- ===== src/Types.antt =====
-- k8s/pkg/apis/cube/v1alpha1: the custom resources that the program keeps in the cluster.
pub mod Meta
pub mod Auth
pub mod Infra
pub mod Rbac
pub mod Workloads
