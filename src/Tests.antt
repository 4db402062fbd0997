-- ===== src/Tests.antt =====
-- The theorems applied to small stores, and the values that they run on.
pub mod Values
mod Sessions
mod Pages
mod Packages
mod Calls
mod Components
mod Bql
mod Oidc
mod Grants
mod Graphs
mod Logins
mod Runs
mod Guards
mod Blobs
