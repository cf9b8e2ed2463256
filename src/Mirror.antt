-- ===== src/Mirror.antt =====
-- The mirror plugin: the files of a repository (internal/plugins/mirror/pkg/mirrordb) and the sync
-- by a plan of rsync (internal/plugins/mirror/pkg/mirrorrepository).
pub mod Files
pub mod Plan
mod Examples
