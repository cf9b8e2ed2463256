-- ===== src/Yum.antt =====
-- The yum plugin: a repository's handler, its status database and its packages.
pub mod Sql
pub mod Status
pub mod Packages
pub mod Metadata
pub mod Handler
pub mod Properties
pub mod Api
pub mod Manifests
pub mod Extra
pub mod Events
pub mod Loop
pub mod Reposync
pub mod Deletion
pub mod Mirror
mod Examples
