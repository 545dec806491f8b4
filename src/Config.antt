-- ===== src/Config.antt =====
-- internal/config: the configuration file.
pub mod Yaml
pub mod Migrate
