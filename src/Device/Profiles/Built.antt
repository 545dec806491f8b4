-- ===== src/Device/Profiles/Built.antt =====
-- internal/device/port_build.go: what BuildPorts makes of the groups of a valid profile.
use unifi_stubd.Prelude.{ℕ, ◌≡◌, ◌⊎◌, List, [], ◌∷◌, Option, length}
use unifi_stubd.Prelude.Int.{pos, ◌<ℤ◌}
use unifi_stubd.Device.{Port, PortBuildOptions, Profile}
use unifi_stubd.Device.Layout.{profile_port_layout, normalize_port_layout}
use unifi_stubd.Device.Profiles.Uplinks.{FirstUplink, IsUplink}
use unifi_stubd.Device.Profiles.Grouped.{FromGroups}

-- The ports are the same but for their marks as uplinks.
abbrev pub AllSameButUplink : List Port → List Port → Type 0
AllSameButUplink [] [] = Unit
AllSameButUplink [] (q ∷ qs) = ⊥
AllSameButUplink (p ∷ ps) [] = ⊥
AllSameButUplink (p ∷ ps) (q ∷ qs) = (q ≡ record p { uplink = q.uplink }) × AllSameButUplink ps qs

-- The ports of the groups of a profile, of which the port of the first uplink group, or else the first
-- port, is the uplink, and then an uplink port that is asked for.
pub record IsGrouped (profile : Profile) (options : PortBuildOptions) (qs : List Port)
    : Type 0 where
  pub marked : Option ℕ
  pub first : ℕ
  pub ports : List Port
  pub marked_group : FirstUplink 0 profile.port_groups marked
  pub is_uplink : IsUplink marked first
  pub from_groups :
      FromGroups
        (normalize_port_layout (profile_port_layout profile options))
        first
        0
        profile.port_groups
        ports
  pub as_many : profile.ports ≡ pos (length ports)
  pub same_ports : AllSameButUplink ports qs
  pub same_uplink : (qs ≡ ports) ⊎ (pos 0 <ℤ options.uplink_port)
