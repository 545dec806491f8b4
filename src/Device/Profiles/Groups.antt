-- ===== src/Device/Profiles/Groups.antt =====
-- The ports of groups that fit a profile.
use unifi_stubd.Prelude.{
  ℕ, ◌<◌, ◌≡◌, refl, ap, ◌∙◌, arith, true, false, ◌==◌, List, [], ◌∷◌, some, length, if◌then◌else◌,
  tests,
}
use unifi_stubd.Prelude.Int.{ℤ, pos, negsuc, pos_part, ltb_ℤ}
use unifi_stubd.Device.{Port, PortBuildOptions, PortGroup, Profile}
use unifi_stubd.Device.Layout.{PortLayout, profile_port_layout, normalize_port_layout}
use unifi_stubd.Device.Build.{
  group_ports, group_totals, no_groups, grouped_switch_ports, or_plain, apply_uplink_port,
  switch_ports_with_layout, build_ports,
}
use unifi_stubd.Device.Build.Shape.{length-group_ports, group_totals-eq-some}

layout_groups :
    (profile : Profile) (options : PortBuildOptions)
    → ltb_ℤ (pos 0) options.link_speed ≡ false
    → (profile_port_layout profile options).port_groups ≡ profile.port_groups
unfolding profile_port_layout
layout_groups profile options h = ground arith

some_ports :
    (layout : PortLayout) (count : ℕ) (ports : List Port)
    → 0 < length ports
    → or_plain layout count ports ≡ ports
some_ports layout count [] h = absurd (omega arith)
some_ports layout count (p ∷ ports) h = refl

same_total : (n : ℕ) → (n == n) ≡ true
same_total n = grind tests

grouped_ports :
    (layout : PortLayout) (groups : List PortGroup) (total found : ℕ)
    → layout.port_groups ≡ groups
    → no_groups groups ≡ false
    → group_totals 0 0 groups ≡ some (total, found)
    → grouped_switch_ports total layout
      ≡ group_ports layout (if found == 0 then 1 else found) 0 layout.port_groups
unfolding grouped_switch_ports
grouped_ports layout groups total found same grouped totals =
    let here : no_groups layout.port_groups ≡ false = ap no_groups same ∙ grouped in
    let counted : group_totals 0 0 layout.port_groups ≡ some (total, found) =
      ap (group_totals 0 0) same ∙ totals in
    rw (here, counted, same_total total) refl

low_total : (count : ℤ) (total : ℕ) → count ≡ pos total → ltb_ℤ count (pos 1) ≡ false → 0 < total
low_total (pos k) total e h = grind tests
low_total (negsuc k) total e h = cc

normal_groups : (given : PortLayout) → (normalize_port_layout given).port_groups ≡ given.port_groups
unfolding normalize_port_layout
normal_groups given = refl

normal_uplink_port :
    (given : PortLayout) → (normalize_port_layout given).uplink_port ≡ given.uplink_port
unfolding normalize_port_layout
normal_uplink_port given = refl

switch_ports_with_layout-grouped :
    (given : PortLayout) (groups : List PortGroup) (count : ℤ) (total found : ℕ)
    → given.port_groups ≡ groups
    → no_groups groups ≡ false
    → group_totals 0 0 groups ≡ some (total, found)
    → count ≡ pos total
    → ltb_ℤ count (pos 1) ≡ false
    → switch_ports_with_layout count given
      ≡ apply_uplink_port
          (group_ports (normalize_port_layout given) (if found == 0 then 1 else found) 0 groups)
          given.uplink_port
unfolding switch_ports_with_layout
switch_ports_with_layout-grouped given groups count total found same grouped totals number
      positive =
    let layout = normalize_port_layout given in
    let first = if found == 0 then 1 else found in
    let here : layout.port_groups ≡ groups = normal_groups given ∙ same in
    let ports = group_ports layout first 0 groups in
    let built : grouped_switch_ports total layout ≡ ports =
      grouped_ports layout groups total found here grouped totals
      ∙ ap (group_ports layout first 0) here in
    let (size, fits) = group_totals-eq-some 0 0 groups total found (omega arith) totals in
    let at_least : 0 < length ports = omega (
      arith,
      length-group_ports layout first 0 groups,
      size,
      low_total count total number positive,
    ) in
    let chosen : (if ltb_ℤ count (pos 1) then 1 else pos_part count) ≡ total =
      rw positive (ap pos_part number) in
    ap
      (λ (n : ℕ).
        apply_uplink_port (or_plain layout n (grouped_switch_ports n layout)) layout.uplink_port)
      chosen
    ∙ ap (λ (ps : List Port). apply_uplink_port (or_plain layout total ps) layout.uplink_port) built
    ∙ ap (λ (ps : List Port). apply_uplink_port ps layout.uplink_port)
        (some_ports layout total ports at_least)
    ∙ ap (apply_uplink_port ports) (normal_uplink_port given)

-- The branch that is taken where the groups fit the number of ports: no layout is left out.
pub build_ports-grouped :
    (profile : Profile) (options : PortBuildOptions) (total found : ℕ)
    → no_groups profile.port_groups ≡ false
    → group_totals 0 0 profile.port_groups ≡ some (total, found)
    → profile.ports ≡ pos total
    → ltb_ℤ profile.ports (pos 1) ≡ false
    → ltb_ℤ (pos 0) options.count ≡ false
    → ltb_ℤ (pos 0) options.link_speed ≡ false
    → build_ports profile options
      ≡ apply_uplink_port
          (group_ports
            (normalize_port_layout (profile_port_layout profile options))
            (if found == 0 then 1 else found)
            0
            profile.port_groups)
          (profile_port_layout profile options).uplink_port
unfolding build_ports
build_ports-grouped profile options total found grouped totals ports positive no_count no_speed =
    rw no_count (
      switch_ports_with_layout-grouped (profile_port_layout profile options) profile.port_groups
        profile.ports total found (layout_groups profile options no_speed) grouped totals ports
        positive)
