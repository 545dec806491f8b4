-- ===== src/Device/Build/Uplink.antt =====
-- The uplink of the ports that are built for a profile.
use mathlib.Core.Path.{subst}
use unifi_stubd.Prelude.{
  ℕ, zero, suc, ◌+◌, ◌-◌, ◌≤◌, ◌<◌, ◌≡◌, refl, ap, ◌∙◌, inl, inr, arith, true, false, List, [], ◌∷◌,
  map, length, length-map, if◌then◌else◌, Bool-cases,
}
use unifi_stubd.Prelude.Int.{ℤ, pos, negsuc, pos_part, ◌≤ℤ◌, ◌<ℤ◌, ltb_ℤ, leb_ℤ}
use unifi_stubd.Device.{Port, PortBuildOptions, Profile}
use unifi_stubd.Device.Layout.{PortLayout, normalize_port_layout, profile_port_layout}
use unifi_stubd.Device.Build.{
  without_uplink, with_uplink, apply_uplink_port, switch_ports_with_layout, build_ports,
}
use unifi_stubd.Device.Build.Shape.{Marked, IsBuilt, or_plain-IsBuilt, grouped_switch_ports-IsBuilt}

-- Ports in their order of which none is an uplink.
abbrev Unmarked : ℕ → List Port → Type 0
Unmarked i [] = Unit
Unmarked i (p ∷ ps) = (p.index ≡ suc i) × (p.uplink ≡ false) × Unmarked (suc i) ps

Unmarked-without_uplink :
    (u i : ℕ) (ps : List Port) → Marked u i ps → Unmarked i (map without_uplink ps)
Unmarked-without_uplink u i [] h = tt
Unmarked-without_uplink u i (p ∷ ps) (a, b, h) = (a, refl, Unmarked-without_uplink u (suc i) ps h)

-- No index after `i` is one up to `i`.
Marked-of_Unmarked : (u i : ℕ) (ps : List Port) → u ≤ i → Unmarked i ps → Marked u i ps
Marked-of_Unmarked u i [] le h = tt
Marked-of_Unmarked u i (p ∷ ps) le (a, b, h) =
    (a, ground arith, Marked-of_Unmarked u (suc i) ps (omega arith) h)

with_uplink-Marked :
    (target i : ℕ) (ps : List Port)
    → Unmarked i ps
    → Marked (suc (target + i)) i (with_uplink target ps)
unfolding with_uplink
with_uplink-Marked target i [] h = tt
with_uplink-Marked zero i (p ∷ ps) (a, b, h) =
    (a, ground arith, Marked-of_Unmarked (suc (0 + i)) (suc i) ps (omega arith) h)
with_uplink-Marked (suc target) i (p ∷ ps) (a, b, h) = (
  a,
  ground arith,
  subst (λ (u : ℕ). Marked u (suc i) (with_uplink target ps)) (omega arith)
      (with_uplink-Marked target (suc i) ps h),
)

length-with_uplink : (target : ℕ) (ps : List Port) → length (with_uplink target ps) ≡ length ps
unfolding with_uplink
length-with_uplink target [] = refl
length-with_uplink zero (p ∷ ps) = refl
length-with_uplink (suc target) (p ∷ ps) = ap suc (length-with_uplink target ps)

-- The shape of the ports with the uplink that the options choose, if it is one of the ports.
pub record IsChosen (n : ℕ) (uplink_port : ℤ) (ports : List Port) : Type 0 where
  pub built : IsBuilt n ports
  pub chosen : pos 0 <ℤ uplink_port → uplink_port ≤ℤ pos n → pos built.uplink ≡ uplink_port

apply_uplink_port-IsChosen :
    (n : ℕ) (ports : List Port) (uplink_port : ℤ)
    → IsBuilt n ports
    → IsChosen n uplink_port (apply_uplink_port ports uplink_port)
unfolding apply_uplink_port
apply_uplink_port-IsChosen n ports (negsuc k) b =
    let no_choice : leb_ℤ (negsuc k) (pos 0) ≡ true = ground arith in
    rw no_choice (record { built = b; chosen = λ low high. absurd (omega arith) })
apply_uplink_port-IsChosen n ports (pos zero) b = record {
  built = b;
  chosen = λ low high. absurd (omega arith);
}
apply_uplink_port-IsChosen n ports (pos (suc k)) b =
    let positive : leb_ℤ (pos (suc k)) (pos 0) ≡ false = ground arith in
    let back : suc k - 1 ≡ k = omega arith in
    elim (Bool-cases (ltb_ℤ (pos (length ports)) (pos (suc k)))) [
      | inl beyond ↦
          rw (positive, beyond)
            (record { built = b; chosen = λ low high. absurd (ground (arith, b.size)) })
      | inr within ↦
          let marked : Marked (suc (k + 0)) 0 (with_uplink k (map without_uplink ports)) =
            with_uplink-Marked k 0 _ (Unmarked-without_uplink b.uplink 0 ports b.marked) in
          rw (positive, within, back)
            (record {
              built = record {
                size =
                    length-with_uplink k (map without_uplink ports)
                    ∙ length-map ports without_uplink
                    ∙ b.size;
                uplink = suc k;
                low = omega arith;
                high = ground (arith, b.size);
                marked =
                    subst (λ (u : ℕ). Marked u 0 (with_uplink k (map without_uplink ports)))
                      (omega arith) marked;
              };
              chosen = λ low high. refl;
            })
    ]

-- The number of ports that is asked for: that of the options if it is positive, else that of the
-- profile, and at least one.
abbrev pub port_number : Profile → PortBuildOptions → ℕ
port_number profile options =
    if ltb_ℤ (pos 0) options.count
    then pos_part options.count
    else if ltb_ℤ profile.ports (pos 1)
    then 1
    else pos_part profile.ports

switch_ports_with_layout-IsChosen :
    (count : ℤ) (layout : PortLayout)
    → IsChosen
        (if ltb_ℤ count (pos 1) then 1 else pos_part count)
        layout.uplink_port
        (switch_ports_with_layout count layout)
unfolding switch_ports_with_layout normalize_port_layout
switch_ports_with_layout-IsChosen count layout =
    let n = if ltb_ℤ count (pos 1) then 1 else pos_part count in
    let positive : 0 < n = ground arith in
    let normal = normalize_port_layout layout in
    apply_uplink_port-IsChosen n _ layout.uplink_port
      (or_plain-IsBuilt normal n _ positive (grouped_switch_ports-IsBuilt normal n positive))

port_number_lem :
    (profile : Profile) (options : PortBuildOptions) (count : ℤ)
    → count ≡ (if ltb_ℤ (pos 0) options.count then options.count else profile.ports)
    → (if ltb_ℤ count (pos 1) then 1 else pos_part count) ≡ port_number profile options
port_number_lem profile options count h = ground arith

profile_port_layout-uplink_port :
    (profile : Profile) (options : PortBuildOptions)
    → (profile_port_layout profile options).uplink_port ≡ options.uplink_port
unfolding profile_port_layout
profile_port_layout-uplink_port profile options = ground arith

-- Whatever the groups of the profile are, BuildPorts gives the number of ports that is asked for,
-- with the indices from 1 in order, and exactly one of them is the uplink: the one of the options if
-- it is one of the ports.
pub build_ports-IsChosen :
    (profile : Profile) (options : PortBuildOptions)
    → IsChosen (port_number profile options) options.uplink_port (build_ports profile options)
unfolding build_ports
build_ports-IsChosen profile options =
    let layout = profile_port_layout profile options in
    let count = if ltb_ℤ (pos 0) options.count then options.count else profile.ports in
    subst
      (λ (u : ℤ). IsChosen (port_number profile options) u (switch_ports_with_layout count layout))
      (profile_port_layout-uplink_port profile options)
      (subst (λ (n : ℕ). IsChosen n layout.uplink_port (switch_ports_with_layout count layout))
        (port_number_lem profile options count refl)
        (switch_ports_with_layout-IsChosen count layout))
