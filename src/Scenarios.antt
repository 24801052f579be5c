-- ===== src/Scenarios.antt =====
-- Runs of the theorems at concrete inputs.
mod Tables
mod Gates
mod Tools
mod Paths
mod Keys
mod Reaping
mod Revoking
mod Retries
mod Terminals
mod Moving
mod Shells
mod Volumes
mod Names
mod Mentions
