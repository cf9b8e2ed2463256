-- ===== src/Static.antt =====
-- The static plugin: the files of a repository (internal/plugins/static/pkg/staticdb) and the
-- processing of their manifests (internal/plugins/static/pkg/staticrepository).
pub mod Files
pub mod Manifests
mod Examples
