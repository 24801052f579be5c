-- ===== src/Sessions.antt =====
-- The sessions of the platform and their Kubernetes credentials: server/platform-session-reaper.mjs,
-- server/session-revoke.mjs, server/session-touch.mjs and server/window-records.mjs.
pub mod Store
pub mod Reaper
pub mod Revoke
pub mod Windows
