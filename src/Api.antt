-- ===== src/Api.antt =====
-- The API service (api/): accounts and access, and the requests that queue a deployment.
pub mod World
pub mod Access
pub mod Auth
pub mod Projects
pub mod Members
pub mod RepoUrl
pub mod Branches
pub mod Deploy
pub mod Webhook
pub mod Listing
pub mod Builds
pub mod Retention
pub mod Admin
pub mod Audit
pub mod Env
pub mod Streams
pub mod Analyzer
mod Tests
