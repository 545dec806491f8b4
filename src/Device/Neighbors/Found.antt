-- ===== src/Device/Neighbors/Found.antt =====
-- What configured neighbors keep of the ports.
use unifi_stubd.Prelude.{false-true}
use unifi_stubd.Prelude.{
  ℕ, zero, suc, ◌-◌, ◌≡◌, ◌⊎◌, refl, sym, ap, ◌∙◌, inl, inr, not, ◌||◌, List, [], ◌∷◌, map,
  by_branch, length,
}
use unifi_stubd.Prelude.Int.{ℤ, pos, pos_part, ltb_ℤ}
use unifi_stubd.Prelude.Text.{Bytes, codes, same_iff, lower_byte, is_empty, trim_space}
use unifi_stubd.Device.{MacTableEntry, Port, PortNeighbor}
use unifi_stubd.Device.Neighbors.{
  with_neighbor, merge_mac_table_entry, normalize_mac_table_entry, equal_fold, put_entry,
  topology_neighbor, attach, change_port, apply_port_neighbor, apply_port_neighbors,
}

-- An address, in whatever case, is one of a table.
abbrev pub HasMac : Bytes → List MacTableEntry → Type 0
HasMac mac [] = ⊥
HasMac mac (e ∷ es) = (map lower_byte e.mac ≡ map lower_byte mac) ⊎ HasMac mac es

-- Of two tables the second has the addresses of the first, and no address twice if the first has none.
abbrev pub Grows : List MacTableEntry → List MacTableEntry → Type 0
Grows es fs = (mac : Bytes) → HasMac mac es → HasMac mac fs

abbrev pub Distinct : List MacTableEntry → Type 0
Distinct [] = Unit
Distinct (e ∷ es) = (HasMac e.mac es → ⊥) × Distinct es

HasMac-put_entry :
    (e : MacTableEntry) (es : List MacTableEntry) (mac : Bytes)
    → HasMac mac (put_entry e es)
    → (map lower_byte e.mac ≡ map lower_byte mac) ⊎ HasMac mac es
unfolding put_entry merge_mac_table_entry
HasMac-put_entry e [] mac h = h
HasMac-put_entry e (m ∷ es) mac h =
    by_branch
      (λ (xs : List MacTableEntry).
        HasMac mac xs → (map lower_byte e.mac ≡ map lower_byte mac) ⊎ HasMac mac (m ∷ es))
      (equal_fold m.mac e.mac) (merge_mac_table_entry m e ∷ es) (m ∷ put_entry e es)
      (λ hit k. elim k [ inl same_mac ↦ inl same_mac | inr later ↦ inr (inr later) ])
      (λ miss k. elim k [
        | inl same_mac ↦ inr (inl same_mac)
        | inr later ↦ elim (HasMac-put_entry e es mac later) [
          | inl new ↦ inl new
          | inr old ↦ inr (inr old)
        ]
      ])
      h

put_entry-Grows : (e : MacTableEntry) (es : List MacTableEntry) → Grows es (put_entry e es)
unfolding put_entry merge_mac_table_entry
put_entry-Grows e [] mac h = absurd h
put_entry-Grows e (m ∷ es) mac h =
    by_branch (HasMac mac) (equal_fold m.mac e.mac) (merge_mac_table_entry m e ∷ es)
      (m ∷ put_entry e es)
      (λ hit. elim h [
        | inl here ↦
            inl (sym ((same_iff (map lower_byte m.mac) (map lower_byte e.mac)).0 hit) ∙ here)
        | inr later ↦ inr later
      ])
      (λ miss. elim h [ inl here ↦ inl here | inr later ↦ inr (put_entry-Grows e es mac later) ])

put_entry-there : (e : MacTableEntry) (es : List MacTableEntry) → HasMac e.mac (put_entry e es)
unfolding put_entry merge_mac_table_entry
put_entry-there e [] = inl refl
put_entry-there e (m ∷ es) =
    by_branch (HasMac e.mac) (equal_fold m.mac e.mac) (merge_mac_table_entry m e ∷ es)
      (m ∷ put_entry e es) (λ hit. inl refl) (λ miss. inr (put_entry-there e es))

Moved :
    (a b : MacTableEntry) (es : List MacTableEntry)
    → map lower_byte a.mac ≡ map lower_byte b.mac
    → HasMac a.mac es
    → HasMac b.mac es
Moved a b [] e h = absurd h
Moved a b (m ∷ es) e (inl here) = inl (here ∙ e)
Moved a b (m ∷ es) e (inr later) = inr (Moved a b es e later)

put_entry-Distinct :
    (e : MacTableEntry) (es : List MacTableEntry) → Distinct es → Distinct (put_entry e es)
unfolding put_entry merge_mac_table_entry
put_entry-Distinct e [] d = (λ h. h, tt)
put_entry-Distinct e (m ∷ es) (new, d) =
    by_branch Distinct (equal_fold m.mac e.mac) (merge_mac_table_entry m e ∷ es)
      (m ∷ put_entry e es)
      (λ hit.
        let here = (same_iff (map lower_byte m.mac) (map lower_byte e.mac)).0 hit in
        (λ h. new (Moved e m es (sym here) h), d))
      (λ miss. (
        λ h. elim (HasMac-put_entry e es m.mac h) [
          | inl twice ↦
              false-true
                (sym miss ∙ (same_iff (map lower_byte m.mac) (map lower_byte e.mac)).1 (sym twice))
          | inr old ↦ new old
        ],
        put_entry-Distinct e es d,
      ))

-- A port after the neighbors: all but its addresses and its neighbors is as it was, its table has the
-- addresses that it had and no address twice if it had none twice.
pub record IsExtended (p q : Port) : Type 0 where
  pub kept : record q { macs = p.macs; neighbors = p.neighbors } ≡ p
  pub grows : Grows p.macs q.macs
  pub distinct : Distinct p.macs → Distinct q.macs

abbrev pub AllExtended : List Port → List Port → Type 0
AllExtended [] [] = Unit
AllExtended [] (q ∷ qs) = ⊥
AllExtended (p ∷ ps) [] = ⊥
AllExtended (p ∷ ps) (q ∷ qs) = IsExtended p q × AllExtended ps qs

same_port : (p : Port) → IsExtended p p
same_port p = record { kept = refl; grows = λ mac h. h; distinct = λ d. d }

IsExtended-trans : (p q r : Port) → IsExtended p q → IsExtended q r → IsExtended p r
IsExtended-trans p q r a b = record {
  kept = ap (λ (x : Port). record x { macs = p.macs; neighbors = p.neighbors }) b.kept ∙ a.kept;
  grows = λ mac h. b.grows mac (a.grows mac h);
  distinct = λ d. b.distinct (a.distinct d);
}

all_same : (ps : List Port) → AllExtended ps ps
all_same [] = tt
all_same (p ∷ ps) = (same_port p, all_same ps)

AllExtended-trans :
    (ps qs rs : List Port) → AllExtended ps qs → AllExtended qs rs → AllExtended ps rs
AllExtended-trans [] [] rs a b = b
AllExtended-trans [] (q ∷ qs) rs a b = absurd a
AllExtended-trans (p ∷ ps) [] rs a b = absurd a
AllExtended-trans (p ∷ ps) (q ∷ qs) [] a b = absurd b
AllExtended-trans (p ∷ ps) (q ∷ qs) (r ∷ rs) (a, rest) (b, more) =
    (IsExtended-trans p q r a b, AllExtended-trans ps qs rs rest more)

attach-IsExtended :
    (e : MacTableEntry) (remote_port : ℤ) (p : Port) → IsExtended p (attach e remote_port p)
attach-IsExtended e remote_port p =
    by_branch (IsExtended p) (not (equal_fold (trim_space e.type_name) (codes "client")))
      (with_neighbor (topology_neighbor e remote_port) p) (record p { macs = put_entry e p.macs })
      (λ device. record { kept = refl; grows = λ mac h. h; distinct = λ d. d })
      (λ client. record {
        kept = refl;
        grows = put_entry-Grows e p.macs;
        distinct = put_entry-Distinct e p.macs;
      })

change_port-AllExtended :
    (k : ℕ) (f : Port → Port) (ps : List Port)
    → ((p : Port) → IsExtended p (f p))
    → AllExtended ps (change_port k f ps)
change_port-AllExtended k f [] h = tt
change_port-AllExtended zero f (p ∷ ps) h = (h p, all_same ps)
change_port-AllExtended (suc k) f (p ∷ ps) h = (same_port p, change_port-AllExtended k f ps h)

apply_port_neighbor-AllExtended :
    (ports : List Port) (n : PortNeighbor) → AllExtended ports (apply_port_neighbor ports n)
unfolding apply_port_neighbor
apply_port_neighbor-AllExtended ports n =
    by_branch (AllExtended ports)
      ((ltb_ℤ n.port (pos 1) || ltb_ℤ (pos (length ports)) n.port)
        || is_empty (trim_space n.entry.mac))
      ports
      (change_port (pos_part n.port - 1)
        (attach (normalize_mac_table_entry n.entry (codes "client")) n.remote_port) ports)
      (λ skipped. all_same ports)
      (λ placed.
        change_port-AllExtended (pos_part n.port - 1)
          (attach (normalize_mac_table_entry n.entry (codes "client")) n.remote_port) ports
          (attach-IsExtended (normalize_mac_table_entry n.entry (codes "client")) n.remote_port))

-- Whatever neighbors are configured, for ports that exist or not, there are as many ports afterwards,
-- of which all but the addresses and the neighbors is as it was; no address is lost, and no port has
-- an address twice, in whatever case, that had none twice before.
pub apply_port_neighbors-AllExtended :
    (ports : List Port) (ns : List PortNeighbor) → AllExtended ports (apply_port_neighbors ports ns)
unfolding apply_port_neighbors
apply_port_neighbors-AllExtended ports [] = all_same ports
apply_port_neighbors-AllExtended ports (n ∷ ns) =
    AllExtended-trans ports (apply_port_neighbor ports n)
      (apply_port_neighbors (apply_port_neighbor ports n) ns)
      (apply_port_neighbor-AllExtended ports n)
      (apply_port_neighbors-AllExtended (apply_port_neighbor ports n) ns)
