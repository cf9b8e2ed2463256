-- ===== src/Repository.antt =====
-- internal/pkg/repository: the event queue and the artifact synchronisation that every repository
-- handler embeds (handler.go), and the table of handlers (manager.go).
pub mod Queue
pub mod Artifacts
pub mod Manager
mod Examples
