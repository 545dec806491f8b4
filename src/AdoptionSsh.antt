-- ===== src/AdoptionSsh.antt =====
-- internal/adoptionssh: the commands of an SSH adoption, which are answered and never run.
pub mod Parse
pub mod State
pub mod Handler
pub mod Execute
