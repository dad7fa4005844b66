-- ===== src/Tests.antt =====
-- Runs at concrete inputs: the theorems of the domain package and of the store applied once each.
pub mod Labels
pub mod Configs
pub mod Deploys
pub mod Limits
pub mod Drives
pub mod Reaps
pub mod Loops
pub mod Ports
pub mod Auths
pub mod Sources
pub mod Invitations
pub mod Uploading
pub mod Suspensions
pub mod Seeds
pub mod Shelves
pub mod People
pub mod Connectors
