-- ===== src/Adoption.antt =====
-- internal/adoption: the adoption state that the stub learns from a controller, its file, and the
-- merge of an update into it.
pub mod State
pub mod Store
pub mod Validate
pub mod Env
pub mod Merge
pub mod MgmtCfg
pub mod Json
pub mod Blocks
pub mod ServerTime
pub mod Response
pub mod Update
