-- ===== src/Device/Profiles/Uplinks.antt =====
-- internal/device/port_build.go: the port of the first uplink group.
use unifi_stubd.Prelude.{
  ℕ, suc, ◌+◌, ◌≡◌, refl, tests, sym, ap, arith, Bool, true, false, ◌&&◌, ◌==◌, List, [], ◌∷◌,
  Option, none, some, some-injective, if◌then◌else◌, inl, inr, Bool-cases,
}
use unifi_stubd.Prelude.Int.{ℤ, pos, negsuc, pos_part, ltb_ℤ}
use unifi_stubd.Device.{PortGroup}
use unifi_stubd.Device.Build.{group_totals}

-- Behind `base` ports, the number of the first port of the first group that is marked as an uplink.
pub data FirstUplink : ℕ → List PortGroup → Option ℕ → Type 0 where
  no_group : (base : ℕ) → FirstUplink base [] none
  here :
      (base : ℕ) (g : PortGroup) (gs : List PortGroup)
      → g.uplink ≡ true
      → FirstUplink base (g ∷ gs) (some (suc base))
  later :
      (base n : ℕ) (g : PortGroup) (gs : List PortGroup) (found : Option ℕ)
      → g.uplink ≡ false
      → g.count ≡ pos n
      → FirstUplink (base + n) gs found
      → FirstUplink base (g ∷ gs) found

-- The uplink is the port that was found, or the first one.
abbrev pub IsUplink : Option ℕ → ℕ → Type 0
IsUplink none k = k ≡ 1
IsUplink (some i) k = k ≡ i

counted_lem : (z : ℤ) → ltb_ℤ z (pos 1) ≡ false → z ≡ pos (pos_part z)
counted_lem (pos n) h = refl
counted_lem (negsuc n) h = ground arith

-- The totals of groups are those of the groups behind the first one.
pub totals_step :
    (total u : ℕ) (g : PortGroup) (gs : List PortGroup) (end found : ℕ)
    → group_totals total u (g ∷ gs) ≡ some (end, found)
    → (g.count ≡ pos (pos_part g.count))
      × (group_totals (total + pos_part g.count) (if g.uplink && u == 0 then suc total else u) gs
          ≡ some (end, found))
unfolding group_totals
totals_step total u g gs end found h = elim (Bool-cases (ltb_ℤ g.count (pos 1))) [
  | inl empty ↦ let no : ◌≡◌ {A = Option (ℕ × ℕ)} none (some (end, found)) = rw empty at h in cc
  | inr full ↦ (counted_lem g.count full, rw full at h)
]

suc_not_zero : (u : ℕ) → (suc u == 0) ≡ false
suc_not_zero u = grind tests

and_zero : (b : Bool) (u : ℕ) → (b && suc u == 0) ≡ false
and_zero true u = suc_not_zero u
and_zero false u = refl

-- An uplink that was found stays.
totals-keep :
    (total u : ℕ) (gs : List PortGroup) (end found : ℕ)
    → group_totals total (suc u) gs ≡ some (end, found)
    → found ≡ suc u
unfolding group_totals
totals-keep total u [] end found h = ground arith
totals-keep total u (g ∷ gs) end found h =
    let (_, rest) = totals_step total (suc u) g gs end found h in
    totals-keep (total + pos_part g.count) u gs end found (rw (and_zero g.uplink u) at rest)

-- What the first loop of groupedSwitchPorts finds is the first port of the first uplink group, or
-- nothing, and then the first port is the uplink.
pub FirstUplink-totals :
    (base : ℕ) (gs : List PortGroup) (end found : ℕ)
    → group_totals base 0 gs ≡ some (end, found)
    → (marked : Option ℕ) × FirstUplink base gs marked
      × IsUplink marked (if found == 0 then 1 else found)
unfolding group_totals
FirstUplink-totals base [] end found h =
    let none_found : 0 ≡ found = ap (λ (p : ℕ × ℕ). p.1) (some-injective h) in
    (none, FirstUplink.no_group base, rw (sym none_found) refl)
FirstUplink-totals base (g ∷ gs) end found h =
    let (counted, rest) = totals_step base 0 g gs end found h in
    elim (Bool-cases g.uplink) [
      | inl marked ↦
          let first = totals-keep (base + pos_part g.count) base gs end found (rw marked at rest) in
          (some (suc base), FirstUplink.here base g gs marked, rw (first, suc_not_zero base) refl)
      | inr unmarked ↦
          let (o, found_later, is_uplink) =
            FirstUplink-totals (base + pos_part g.count) gs end found (rw unmarked at rest) in
          (
            o,
            FirstUplink.later base (pos_part g.count) g gs o unmarked counted found_later,
            is_uplink,
          )
    ]
