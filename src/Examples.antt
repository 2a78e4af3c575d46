-- ===== src/Examples.antt =====
-- Tests, and the theorems at concrete inputs, on the small cluster of `Cluster`.
mod Cluster
mod Strings
mod Reconciles
mod Policies
mod Specs
mod Connections
mod Store
mod Journeys
mod Limits
mod Tokens
mod Recordings
mod Logins
mod Handlers
mod Programs
mod Tunnels
mod Settings
