-- ===== src/Device/Topology/Configured.antt =====
-- Configured neighbors win over those that LLDP learned.
use mathlib.Core.Path.{subst}
use unifi_stubd.Prelude.{
  ℕ, ◌≡◌, refl, sym, ap, ◌∙◌, arith, Bool, true, false, not, ◌||◌, List, [], ◌∷◌, Option, none,
  some, inl, inr, ok, ok-injective, Bool-cases,
}
use unifi_stubd.Prelude.Text.{Bytes, same}
use unifi_stubd.Device.{TopologyNeighbor, Port}
use unifi_stubd.Device.Topology.{
  TopologyWarning, Neighbors, Chosen, normalize_topology_neighbor, normalized_topology_mac,
  merge_topology_neighbor, merge_into, is_lldp, sorted_in, collect, beside_lldp, learned_neighbor,
  chosen_neighbor, resolve_port_neighbor,
}

-- A raw neighbor whose address can be read is configured.
abbrev is_configured : Option TopologyNeighbor → Bool
is_configured none = false
is_configured (some n) = not (is_lldp n.source)

abbrev pub any_configured : List TopologyNeighbor → Bool
any_configured [] = false
any_configured (raw ∷ raws) = is_configured (normalize_topology_neighbor raw) || any_configured raws

-- All entries come from LLDP, or all are configured.
abbrev AllFrom : Bool → Neighbors → Type 0
AllFrom b [] = Unit
AllFrom b ((key, n) ∷ entries) = (is_lldp n.source ≡ b) × AllFrom b entries

abbrev filled : Neighbors → Bool
filled [] = false
filled (entry ∷ entries) = true

merge_into-AllFrom :
    (b : Bool) (entries : Neighbors) (key : Bytes) (n : TopologyNeighbor)
    → AllFrom b entries
    → is_lldp n.source ≡ b
    → AllFrom b (merge_into entries key n)
unfolding merge_into merge_topology_neighbor
merge_into-AllFrom b [] key n h s = (s, tt)
merge_into-AllFrom b ((k, old) ∷ entries) key n (h, hs) s = elim (Bool-cases (same k key)) [
  | inl found ↦ rw found (s, hs)
  | inr other ↦ rw other (h, merge_into-AllFrom b entries key n hs s)
]

merge_into-filled :
    (entries : Neighbors) (key : Bytes) (n : TopologyNeighbor)
    → filled (merge_into entries key n) ≡ true
unfolding merge_into
merge_into-filled [] key n = refl
merge_into-filled ((k, old) ∷ entries) key n = elim (Bool-cases (same k key)) [
  | inl found ↦ rw found
  | inr other ↦ rw other
]

-- The maps hold what their names say, and the configured one is empty exactly if none is configured.
record IsSorted (seen : Bool) (maps : Neighbors × Neighbors) : Type 0 where
  configured : AllFrom false maps.0
  lldp : AllFrom true maps.1
  any : filled maps.0 ≡ seen

sorted_in-IsSorted :
    (found : Option TopologyNeighbor) (seen : Bool) (maps : Neighbors × Neighbors)
    → IsSorted seen maps
    → IsSorted (is_configured found || seen) (sorted_in found maps)
sorted_in-IsSorted none seen maps h = h
sorted_in-IsSorted (some n) seen (configured, lldp) h =
    let key = normalized_topology_mac n.mac in
    elim (Bool-cases (is_lldp n.source)) [
      | inl learned ↦ rw learned (record {
        configured = h.configured;
        lldp = merge_into-AllFrom true lldp key n h.lldp learned;
        any = h.any;
      })
      | inr given ↦ rw given (record {
        configured = merge_into-AllFrom false configured key n h.configured given;
        lldp = h.lldp;
        any = merge_into-filled configured key n;
      })
    ]

or_swap : (a b c : Bool) → (b || (a || c)) ≡ ((a || b) || c)
or_swap true true c = refl
or_swap true false c = refl
or_swap false true c = refl
or_swap false false c = refl

collect-IsSorted :
    (raws : List TopologyNeighbor) (seen : Bool) (maps : Neighbors × Neighbors)
    → IsSorted seen maps
    → IsSorted (seen || any_configured raws) (collect raws maps)
unfolding collect
collect-IsSorted [] seen maps h = subst (λ (b : Bool). IsSorted b maps) (ground arith) h
collect-IsSorted (raw ∷ raws) seen maps h =
    let found = normalize_topology_neighbor raw in
    subst (λ (b : Bool). IsSorted b (collect raws (sorted_in found maps)))
      (sym (or_swap (is_configured found) seen (any_configured raws)))
      (collect-IsSorted raws (is_configured found || seen) (sorted_in found maps)
        (sorted_in-IsSorted found seen maps h))

beside_lldp-source :
    (port : ℕ) (lldp : Neighbors) (n : TopologyNeighbor)
    → (beside_lldp port lldp n).0.source ≡ n.source
unfolding beside_lldp merge_topology_neighbor
beside_lldp-source port [] n = refl
beside_lldp-source port ((mac, learned) ∷ entries) n =
    elim (Bool-cases (same mac (normalized_topology_mac n.mac))) [
      | inl found ↦ rw found (beside_lldp-source port entries (merge_topology_neighbor learned n))
      | inr other ↦ rw other (beside_lldp-source port entries n)
    ]

learned_neighbor-lldp :
    (port : ℕ) (lldp : Neighbors) (n : TopologyNeighbor)
    → AllFrom true lldp
    → (learned_neighbor port lldp).0 ≡ some n
    → is_lldp n.source ≡ true
learned_neighbor-lldp port [] n h e = cc
learned_neighbor-lldp port ((key, m) ∷ []) n h e =
    let same_neighbor : m ≡ n = cc in
    subst (λ (x : TopologyNeighbor). is_lldp x.source ≡ true) same_neighbor h.0
learned_neighbor-lldp port ((key, m) ∷ second ∷ more) n h e = cc

chosen_neighbor-source :
    (port : ℕ) (configured lldp : Neighbors) (n : TopologyNeighbor) (ws : List TopologyWarning)
    → AllFrom false configured
    → AllFrom true lldp
    → chosen_neighbor port configured lldp ≡ ok (some n, ws)
    → is_lldp n.source ≡ not (filled configured)
chosen_neighbor-source port [] lldp n ws c l h =
    learned_neighbor-lldp port lldp n l (ap (λ (x : Chosen). x.0) (ok-injective h))
chosen_neighbor-source port ((key, m) ∷ []) lldp n ws c l h =
    let picked : some (beside_lldp port lldp m).0 ≡ some n =
      ap (λ (x : Chosen). x.0) (ok-injective h) in
    let same_neighbor : (beside_lldp port lldp m).0 ≡ n = cc in
    subst (λ (x : TopologyNeighbor). is_lldp x.source ≡ false) same_neighbor
      (ap is_lldp (beside_lldp-source port lldp m) ∙ c.0)
chosen_neighbor-source port ((key, m) ∷ second ∷ more) lldp n ws c l h = cc

-- The neighbor that is selected for a port comes from LLDP exactly if no neighbor of the port with an
-- address that can be read is configured.
pub resolve_port_neighbor-source :
    (port : Port) (n : TopologyNeighbor) (ws : List TopologyWarning)
    → resolve_port_neighbor port ≡ ok (some n, ws)
    → is_lldp n.source ≡ not (any_configured port.neighbors)
unfolding resolve_port_neighbor
resolve_port_neighbor-source port n ws h =
    let maps = collect port.neighbors ([], []) in
    let s =
      collect-IsSorted port.neighbors false ([], [])
        (record { configured = tt; lldp = tt; any = refl }) in
    chosen_neighbor-source port.index maps.0 maps.1 n ws s.configured s.lldp h ∙ ap not s.any
