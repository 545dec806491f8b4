-- ===== src/Device/Topology/Conflicts.antt =====
-- internal/device/topology.go: ResolveTopology and resolveDirectionConflicts.
pub mod Kept
pub mod Apart
pub mod Once
pub mod Edges
use unifi_stubd.Prelude.{
  ℕ, zero, suc, Bool, true, false, ◌&&◌, ◌==◌, ltb, List, [], ◌∷◌, ◌++◌, Option, none, some,
  get_elem?, set, replicate, length, Result, ok, err, ◌>>=◌, if◌then◌else◌,
}
use unifi_stubd.Prelude.Text.{Bytes, same}
use unifi_stubd.Device.{Port}
use unifi_stubd.Device.Topology.{
  Direction, Edge, TopologyWarning, TopologyError, Resolution, Chosen, normalized_topology_mac,
  topology_source_priority, resolve_port_neighbor,
}

abbrev pub same_direction : Direction → Direction → Bool
same_direction Direction.upstream Direction.upstream = true
same_direction Direction.upstream Direction.downstream = false
same_direction Direction.downstream Direction.upstream = false
same_direction Direction.downstream Direction.downstream = true

-- The state of the loop: the index of an edge for each neighbor, the marks and the warnings.
pub record Pass : Type 0 where
  pub by_mac : List (Bytes × ℕ)
  pub keep : List Bool
  pub warnings : List TopologyWarning

unfoldable pub lookup_mac : Bytes → List (Bytes × ℕ) → Option ℕ
lookup_mac key [] = none
lookup_mac key ((k, i) ∷ m) = if same k key then some i else lookup_mac key m

abbrev pub key_of : Edge → Bytes
key_of e = normalized_topology_mac e.neighbor.mac

abbrev pub priority_of : Edge → ℕ
priority_of e = topology_source_priority e.neighbor.source

abbrev pub warned : Pass → TopologyWarning → Pass
warned st w = record st { warnings = st.warnings ++ w ∷ [] }

-- The cases of the `switch` for an edge and a previous one in the other direction.
unfoldable pub judge : ℕ → Edge → ℕ → Edge → Pass → Result TopologyError Pass
judge j previous i edge st =
    let mac = edge.neighbor.mac in
    if priority_of previous == priority_of edge && ltb 1 (priority_of previous)
    then err (TopologyError.conflicting_directions previous edge)
    else if priority_of previous == priority_of edge
    then ok (
        warned (record st { keep = set (set st.keep j false) i false })
          (TopologyWarning.both_through_lldp mac))
    else if ltb (priority_of edge) (priority_of previous)
    then ok (
        warned (record st { keep = set st.keep i false })
          (TopologyWarning.overrides_edge mac previous edge))
    else ok (
        warned (record st { keep = set st.keep j false; by_mac = (key_of edge, i) ∷ st.by_mac })
          (TopologyWarning.overrides_edge mac edge previous))

abbrev pub against : ℕ → Option Edge → ℕ → Edge → Pass → Result TopologyError Pass
against j none i edge st = ok st
against j (some previous) i edge st =
    if same_direction previous.direction edge.direction then ok st else judge j previous i edge st

abbrev pub step_of : List Edge → Option ℕ → ℕ → Edge → Pass → Result TopologyError Pass
step_of all none i edge st = ok (record st { by_mac = (key_of edge, i) ∷ st.by_mac })
step_of all (some j) i edge st = against j (get_elem? all j) i edge st

-- One edge of the loop.
abbrev pub conflict_step : List Edge → ℕ → Edge → Pass → Result TopologyError Pass
conflict_step all i edge st = step_of all (lookup_mac (key_of edge) st.by_mac) i edge st

unfoldable pub conflict_pass : List Edge → ℕ → List Edge → Pass → Result TopologyError Pass
conflict_pass all i [] st = ok st
conflict_pass all i (edge ∷ edges) st =
    conflict_step all i edge st >>= conflict_pass all (suc i) edges

abbrev pub kept_edges : List Edge → List Bool → List Edge
kept_edges [] keep = []
kept_edges (edge ∷ edges) [] = []
kept_edges (edge ∷ edges) (k ∷ keep) =
    let rest = kept_edges edges keep in if k then edge ∷ rest else rest

-- `resolveDirectionConflicts`.
unfoldable pub resolve_direction_conflicts : Resolution → Result TopologyError Resolution
resolve_direction_conflicts r = do
  st ←
      conflict_pass r.edges 0 r.edges
        (record { by_mac = []; keep = replicate (length r.edges) true; warnings = r.warnings })
  ok (record { edges = kept_edges r.edges st.keep; warnings = st.warnings })

abbrev pub direction_of : Port → Direction
direction_of port = if port.uplink then Direction.upstream else Direction.downstream

abbrev pub with_chosen : Port → Chosen → Resolution → Resolution
with_chosen port (none, warnings) r = record r { warnings = r.warnings ++ warnings }
with_chosen port (some n, warnings) r = record {
  edges =
      r.edges
      ++ record { local_port = port.index; direction = direction_of port; neighbor = n } ∷ [];
  warnings = r.warnings ++ warnings;
}

-- The loop of `ResolveTopology`.
unfoldable pub collect_edges : List Port → Resolution → Result TopologyError Resolution
collect_edges [] r = ok r
collect_edges (port ∷ ports) r = do
  chosen ← resolve_port_neighbor port
  collect_edges ports (with_chosen port chosen r)

-- `ResolveTopology`.
unfoldable pub resolve_topology : List Port → Result TopologyError Resolution
resolve_topology ports = do
  r ← collect_edges ports (record { edges = []; warnings = [] })
  resolve_direction_conflicts r
