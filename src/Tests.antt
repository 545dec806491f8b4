-- ===== src/Tests.antt =====
-- Concrete runs of the definitions, and the theorems at concrete inputs.
mod Inform
mod Schedule
mod Adoption
mod Answers
mod AdoptionSsh
mod Discovery
mod Heartbeat
mod Device
mod Profiles
mod Topology
mod Config
mod Observe
