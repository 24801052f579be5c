-- ===== src/Policy.antt =====
-- server/authorize.mjs: the policy on API keys, the tools and the namespaces that a key may use.
pub mod Raw
pub mod Tools
pub mod Namespaces
