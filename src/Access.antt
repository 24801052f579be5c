-- ===== src/Access.antt =====
-- Who may do what on which cluster and namespace (server/authz.mjs, server/k8s-gate.mjs).
pub mod Store
pub mod Levels
pub mod Grants
pub mod Gate
pub mod Tools
