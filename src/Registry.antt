-- ===== src/Registry.antt =====
-- internal/pkg/beskar: the registry, of which the manager of the plugins is modelled.
pub mod Plugins
