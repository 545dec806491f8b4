-- ===== src/Adoption/State.antt =====
-- The states of the lifecycle of internal/adoption/state.go. `State` is a string type.
use unifi_stubd.Prelude.Text.{Bytes, codes}

abbrev pub factory : Bytes
factory = codes "factory"

abbrev pub discovered : Bytes
discovered = codes "discovered"

abbrev pub adopting : Bytes
adopting = codes "adopting"

abbrev pub provisioning : Bytes
provisioning = codes "provisioning"

abbrev pub connected : Bytes
connected = codes "connected"

abbrev pub failed : Bytes
failed = codes "failed"
