-- ===== src/Device/Profiles/Grouped.antt =====
-- internal/device/port_build.go: what the ports of groups are.
use unifi_stubd.Prelude.{
  ℕ, zero, suc, some, ◌+◌, ◌≡◌, refl, arith, true, false, ◌==◌, List, [], ◌∷◌, ◌++◌, length,
  if◌then◌else◌, inl, inr, Bool-cases, tests,
}
use unifi_stubd.Prelude.Int.{ℤ, pos, pos_part, leb_ℤ, ◌≤ℤ◌, ◌<ℤ◌}
use unifi_stubd.Prelude.Text.{Bytes, is_empty}
use unifi_stubd.Device.{Port, PortGroup}
use unifi_stubd.Device.Layout.{PortLayout, media_for_speed}
use unifi_stubd.Device.Build.{block_port, block_ports, generated_port, group_ports, group_totals}
use unifi_stubd.Device.Build.Shape.{length-block_ports}
use unifi_stubd.Device.Profiles.Uplinks.{totals_step}

-- A group's speed if it gives one, or else that of the layout.
pub data IsSpeed (given otherwise : ℤ) : ℤ → Type 0 where
  own : pos 0 <ℤ given → IsSpeed given otherwise given
  common : given ≤ℤ pos 0 → IsSpeed given otherwise otherwise

-- A group's medium if it gives one, or else that of the speed.
abbrev pub IsMedia : Bytes → ℤ → Bytes → Type 0
IsMedia [] speed media = media ≡ media_for_speed speed
IsMedia (c ∷ given) speed media = media ≡ c ∷ given

-- The port with the number `k` of a group, where `first` is the uplink.
pub data HasLabel (layout : PortLayout) (g : PortGroup) (first k : ℕ) (p : Port) : Type 0 where
  uplink :
      k ≡ first
      → p.uplink ≡ true
      → p.speed ≡ layout.uplink_speed
      → p.media ≡ layout.uplink_media
      → HasLabel layout g first k p
  member :
      (k ≡ first → ⊥)
      → p.uplink ≡ false
      → IsSpeed g.speed layout.speed p.speed
      → IsMedia g.media p.speed p.media
      → HasLabel layout g first k p

pub record IsOfGroup (layout : PortLayout) (g : PortGroup) (first k : ℕ) (p : Port) : Type 0 where
  pub number : p.index ≡ k
  pub profile_uplink : p.profile_uplink ≡ g.uplink
  pub label : HasLabel layout g first k p

-- The ports of one group behind `base` ports.
abbrev pub AllOfGroup : PortLayout → PortGroup → ℕ → ℕ → List Port → Type 0
AllOfGroup layout g first base [] = Unit
AllOfGroup layout g first base (p ∷ ps) =
    IsOfGroup layout g first (suc base) p × AllOfGroup layout g first (suc base) ps

-- The ports are those of the groups in their order, as many of each group as it says.
pub data FromGroups (layout : PortLayout) (first : ℕ)
    : ℕ → List PortGroup → List Port → Type 0 where
  no_group : (base : ℕ) → FromGroups layout first base [] []
  group :
      (base n : ℕ) (g : PortGroup) (gs : List PortGroup) (block rest : List Port)
      → g.count ≡ pos n
      → length block ≡ n
      → AllOfGroup layout g first base block
      → FromGroups layout first (base + n) gs rest
      → FromGroups layout first base (g ∷ gs) (block ++ rest)

media_lem :
    (given : Bytes) (speed : ℤ)
    → IsMedia given speed (if is_empty given then media_for_speed speed else given)
media_lem [] speed = refl
media_lem (c ∷ given) speed = refl

same_place : (k first : ℕ) → (k == first) ≡ true → k ≡ first
same_place k first h = grind tests

other_place : (k first : ℕ) → (k == first) ≡ false → k ≡ first → ⊥
other_place k first h = grind tests

module _ (layout : PortLayout) (g : PortGroup) (first : ℕ) where
  -- The speed and the medium of a port of the group that is not the uplink.
  abbrev speed_of : ℤ
  speed_of = if leb_ℤ g.speed (pos 0) then layout.speed else g.speed

  abbrev media_of : Bytes
  media_of = if is_empty g.media then media_for_speed speed_of else g.media

  IsSpeed-speed_of : IsSpeed g.speed layout.speed speed_of
  IsSpeed-speed_of = elim (Bool-cases (leb_ℤ g.speed (pos 0))) [
    | inl low ↦ let h : g.speed ≤ℤ pos 0 = ground arith in rw low (IsSpeed.common h)
    | inr high ↦ let h : pos 0 <ℤ g.speed = ground arith in rw high (IsSpeed.own h)
  ]

  IsOfGroup-block_port :
      (k : ℕ) → IsOfGroup layout g first k (block_port layout speed_of media_of g.uplink first k)
  unfolding generated_port
  IsOfGroup-block_port k = elim (Bool-cases (k == first)) [
    | inl here ↦ record {
      number = refl;
      profile_uplink = refl;
      label = HasLabel.uplink (same_place k first here) here (rw here refl) (rw here refl);
    }
    | inr other ↦ record {
      number = refl;
      profile_uplink = refl;
      label =
          HasLabel.member (other_place k first other) other (rw other IsSpeed-speed_of)
            (rw other (media_lem g.media speed_of));
    }
  ]

  AllOfGroup-block_ports :
      (base n : ℕ)
      → AllOfGroup layout g first base (block_ports layout speed_of media_of g.uplink first base n)
  unfolding block_ports
  AllOfGroup-block_ports base zero = tt
  AllOfGroup-block_ports base (suc n) =
      (IsOfGroup-block_port (suc base), AllOfGroup-block_ports (suc base) n)

pub FromGroups-group_ports :
    (layout : PortLayout) (first base total u : ℕ) (gs : List PortGroup) (end found : ℕ)
    → group_totals total u gs ≡ some (end, found)
    → FromGroups layout first base gs (group_ports layout first base gs)
unfolding group_ports
FromGroups-group_ports layout first base total u [] end found h = FromGroups.no_group base
FromGroups-group_ports layout first base total u (g ∷ gs) end found h =
    let (counted, rest) = totals_step total u g gs end found h in
    FromGroups.group base (pos_part g.count) g gs _ _ counted
      (length-block_ports layout (speed_of layout g first) (media_of layout g first) g.uplink first
        base (pos_part g.count))
      (AllOfGroup-block_ports layout g first base (pos_part g.count))
      (FromGroups-group_ports layout first (base + pos_part g.count) _ _ gs end found rest)
