-- ===== src/Tests.antt =====
-- Runs of the definitions on concrete inputs, and the theorems at concrete inputs.
pub mod Data
mod Runs
mod Connections
mod Responses
mod Identities
mod Maps
mod Passes
mod Logs
mod Settings
mod Starts
mod Loops
mod Watches
mod Pools
mod Reports
