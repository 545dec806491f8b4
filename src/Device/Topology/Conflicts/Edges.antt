-- ===== src/Device/Topology/Conflicts/Edges.antt =====
-- Where the edges of a topology come from.
use mathlib.Core.Path.{subst}
use unifi_stubd.Prelude.{some-injective}
use unifi_stubd.Prelude.{
  ℕ, zero, suc, ◌≡◌, ◌⊎◌, refl, sym, not, List, [], ◌∷◌, ◌++◌, none, some, inl, inr, get_elem?, ok,
  bind-eq-ok, ok-injective,
}
use unifi_stubd.Device.{Port}
use unifi_stubd.Device.Topology.{
  Edge, TopologyWarning, Resolution, Chosen, is_lldp, resolve_port_neighbor,
}
use unifi_stubd.Device.Topology.Configured.{any_configured, resolve_port_neighbor-source}
use unifi_stubd.Device.Topology.Conflicts.{
  direction_of, with_chosen, collect_edges, resolve_topology,
}
use unifi_stubd.Device.Topology.Conflicts.Kept.{Has, resolve_direction_conflicts_lem}

-- The edge leads from one of the ports to the neighbor that is selected for it, upstream exactly if the
-- port is the uplink, and the neighbor comes from LLDP exactly if none is configured for the port.
pub record FromPort (ports : List Port) (e : Edge) : Type 0 where
  pub place : ℕ
  pub port : Port
  pub at_place : get_elem? ports place ≡ some port
  pub warnings : List TopologyWarning
  pub selected : resolve_port_neighbor port ≡ ok (some e.neighbor, warnings)
  pub local_port : e.local_port ≡ port.index
  pub direction : e.direction ≡ direction_of port
  pub source : is_lldp e.neighbor.source ≡ not (any_configured port.neighbors)

FromPort-there :
    (p : Port) (ports : List Port) (e : Edge) → FromPort ports e → FromPort (p ∷ ports) e
FromPort-there p ports e f = record {
  place = suc f.place;
  port = f.port;
  at_place = f.at_place;
  warnings = f.warnings;
  selected = f.selected;
  local_port = f.local_port;
  direction = f.direction;
  source = f.source;
}

Has-append : (es : List Edge) (x e : Edge) → Has e (es ++ x ∷ []) → Has e es ⊎ (x ≡ e)
Has-append [] x e (zero, h) = inr (some-injective h)
Has-append [] x e (suc k, h) = cc
Has-append (y ∷ es) x e (zero, h) = inl (0, h)
Has-append (y ∷ es) x e (suc k, h) = elim (Has-append es x e (k, h)) [
  | inl (i, found) ↦ inl (suc i, found)
  | inr new ↦ inr new
]

with_chosen-FromPort :
    (p : Port) (ports : List Port) (chosen : Chosen) (r : Resolution) (e : Edge)
    → resolve_port_neighbor p ≡ ok chosen
    → Has e (with_chosen p chosen r).edges
    → Has e r.edges ⊎ FromPort (p ∷ ports) e
with_chosen-FromPort p ports (none, ws) r e h has = inl has
with_chosen-FromPort p ports (some n, ws) r e h has =
    let edge : Edge = record { local_port = p.index; direction = direction_of p; neighbor = n } in
    elim (Has-append r.edges edge e has) [
      | inl old ↦ inl old
      | inr new ↦ inr (
          subst (FromPort (p ∷ ports)) new (record {
            place = 0;
            port = p;
            at_place = refl;
            warnings = ws;
            selected = h;
            local_port = refl;
            direction = refl;
            source = resolve_port_neighbor-source p n ws h;
          }))
    ]

collect_edges-FromPort :
    (ports : List Port) (r r' : Resolution) (e : Edge)
    → collect_edges ports r ≡ ok r'
    → Has e r'.edges
    → Has e r.edges ⊎ FromPort ports e
unfolding collect_edges
collect_edges-FromPort [] r r' e h has =
    inl (subst (λ (x : Resolution). Has e x.edges) (sym (ok-injective h)) has)
collect_edges-FromPort (p ∷ ports) r r' e h has =
    let (chosen, one, rest) = bind-eq-ok (resolve_port_neighbor p) _ h in
    elim (collect_edges-FromPort ports (with_chosen p chosen r) r' e rest has) [
      | inl early ↦ with_chosen-FromPort p ports chosen r e one early
      | inr late ↦ inr (FromPort-there p ports e late)
    ]

no_edges : (e : Edge) → Has e [] → ⊥
no_edges e (k, h) = cc

-- Each edge of a resolved topology leads from one of the ports to the neighbor that is selected for
-- that port, upstream exactly if the port is the uplink, and this neighbor comes from LLDP exactly if
-- no neighbor with a readable address is configured for the port.
pub resolve_topology-FromPort :
    (ports : List Port) (r : Resolution) (e : Edge)
    → resolve_topology ports ≡ ok r
    → Has e r.edges
    → FromPort ports e
unfolding resolve_topology
resolve_topology-FromPort ports r e h has =
    let (collected, first, second) =
      bind-eq-ok (collect_edges ports (record { edges = []; warnings = [] })) _ h in
    let given = (resolve_direction_conflicts_lem collected r e second).1 has in
    elim (collect_edges-FromPort ports _ collected e first given) [
      | inl nothing ↦ absurd (no_edges e nothing)
      | inr from ↦ from
    ]
