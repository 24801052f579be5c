-- ===== src/Kube.antt =====
-- The Kubernetes API paths that the gateway builds and reads back.
pub mod Encode
pub mod Kinds
pub mod ApiPath
pub mod Alias
pub mod RoundTrip
