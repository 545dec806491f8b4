-- ===== src/Device/Profiles/Fitting.antt =====
-- Groups that fit a profile.
use unifi_stubd.Prelude.{
  ℕ, suc, ◌+◌, ◌<◌, ◌≡◌, refl, ap, ◌∙◌, arith, Bool, true, false, not, ◌&&◌, ◌==◌, List, [], ◌∷◌,
  some, Result, ok, ◌>>◌, bind-eq-ok, reject-eq-ok, ok-injective, if◌then◌else◌, tests,
}
use unifi_stubd.Prelude.Int.{ℤ, pos, negsuc, pos_part, ltb_ℤ, ◌<ℤ◌}
use unifi_stubd.Prelude.Text.{is_empty}
use unifi_stubd.Device.{PortGroup, Profile}
use unifi_stubd.Device.Build.{group_totals, no_groups}
use unifi_stubd.Device.Build.Shape.{total_of}
use unifi_stubd.Device.Profiles.{
  count_groups, is_number, check_totals, validate_port_groups, validate_profile,
}

-- Each group has a port at least.
abbrev pub AllPositive : List PortGroup → Type 0
AllPositive [] = Unit
AllPositive (g ∷ gs) = (pos 0 <ℤ g.count) × AllPositive gs

-- The groups of a profile, of which there is one at least, have as many ports as the profile says.
pub record IsFitting (profile : Profile) : Type 0 where
  pub grouped : no_groups profile.port_groups ≡ false
  pub positive : AllPositive profile.port_groups
  pub total : profile.ports ≡ pos (total_of profile.port_groups)

pub group_totals-AllPositive :
    (total u : ℕ) (gs : List PortGroup)
    → AllPositive gs
    → (found : ℕ) × (group_totals total u gs ≡ some (total + total_of gs, found))
unfolding group_totals
group_totals-AllPositive total u [] h =
    let none_left : total ≡ total + 0 = omega arith in (u, ap (λ (n : ℕ). some (n, u)) none_left)
group_totals-AllPositive total u (g ∷ gs) (positive, h) =
    let (found, rest) =
      group_totals-AllPositive (total + pos_part g.count)
        (if g.uplink && u == 0 then suc total else u) gs h in
    let counted : ltb_ℤ g.count (pos 1) ≡ false = ground arith in
    let sum : total + pos_part g.count + total_of gs ≡ total + (pos_part g.count + total_of gs) =
      omega arith in
    (found, rw counted (rest ∙ ap (λ (n : ℕ). some (n, found)) sum))

positive_total : (gs : List PortGroup) → no_groups gs ≡ false → AllPositive gs → 0 < total_of gs
positive_total [] grouped h = cc
positive_total (g ∷ gs) grouped (positive, h) =
    let one : 0 < pos_part g.count = ground arith in omega arith

pub IsFitting-positive :
    (profile : Profile) → IsFitting profile → ltb_ℤ profile.ports (pos 1) ≡ false
IsFitting-positive profile fits =
    let some_port = positive_total profile.port_groups fits.grouped fits.positive in
    rw fits.total (ground arith)

then-eq-ok :
    {E A : Type 0} (m : Result E (Unit {0})) (k : Result E A) {a : A}
    → (m >> k) ≡ ok a
    → (m ≡ ok tt) × (k ≡ ok a)
then-eq-ok (ok tt) k h = (refl, h)
then-eq-ok (Result.err e) k h = cc

count_groups-AllPositive :
    (index total uplinks : ℕ) (groups : List PortGroup) (end marked : ℕ)
    → count_groups index total uplinks groups ≡ ok (end, marked)
    → AllPositive groups × (total + total_of groups ≡ end)
unfolding count_groups
count_groups-AllPositive index total uplinks [] end marked h =
    let e : total ≡ end = ap (λ (n : ℕ × ℕ). n.0) (ok-injective h) in (tt, omega arith)
count_groups-AllPositive index total uplinks (g ∷ gs) end marked h =
    let (positive, h1) = reject-eq-ok (ltb_ℤ g.count (pos 1)) _ _ h in
    let (speed, h2) = reject-eq-ok (ltb_ℤ g.speed (pos 0)) _ _ h1 in
    let (rest, sum) =
      count_groups-AllPositive (suc index) (total + pos_part g.count)
        (if g.uplink then suc uplinks else uplinks) gs end marked h2 in
    let counted : pos 0 <ℤ g.count = ground arith in ((counted, rest), omega arith)

is_number_lem : (n : ℕ) (z : ℤ) → is_number n z ≡ true → z ≡ pos n
is_number_lem n (pos k) h = grind tests
is_number_lem n (negsuc k) h = grind tests

not_and : (a b : Bool) → a ≡ false → (not a && not b) ≡ false → b ≡ true
not_and false true e h = refl
not_and false false e h = cc
not_and true b e h = cc

validate_profile-groups :
    (profile : Profile)
    → validate_profile profile ≡ ok tt
    → (ltb_ℤ profile.ports (pos 1) ≡ false) × (validate_port_groups profile ≡ ok tt)
unfolding validate_profile
validate_profile-groups profile h =
    let (schema, h1) = reject-eq-ok (not (is_number 1 profile.schema_version)) _ _ h in
    let (name, h2) = reject-eq-ok (is_empty profile.name) _ _ h1 in
    let (model, h3) = reject-eq-ok (is_empty profile.model) _ _ h2 in
    let (ports, h4) = reject-eq-ok (ltb_ℤ profile.ports (pos 1)) _ _ h3 in
    let (speed, h5) = reject-eq-ok (ltb_ℤ profile.port_speed (pos 0)) _ _ h4 in
    let (uplink, h6) = reject-eq-ok (ltb_ℤ profile.uplink_speed (pos 0)) _ _ h5 in
    let (groups, h7) = then-eq-ok (validate_port_groups profile) _ h6 in (ports, groups)

-- The groups of a valid profile fit it.
pub validate_profile-IsFitting :
    (profile : Profile)
    → validate_profile profile ≡ ok tt
    → no_groups profile.port_groups ≡ false
    → IsFitting profile
unfolding validate_port_groups
validate_profile-IsFitting profile valid grouped =
    let (_, checked) = validate_profile-groups profile valid in
    let ((total, uplinks), counted, totals) =
      bind-eq-ok (count_groups 0 0 0 profile.port_groups) (check_totals profile) checked in
    let (fits, one) =
      reject-eq-ok (not (no_groups profile.port_groups) && not (is_number total profile.ports)) _ _
        totals in
    let (positive, sum) =
      count_groups-AllPositive 0 0 0 profile.port_groups total uplinks counted in
    let number =
      is_number_lem total profile.ports
        (not_and (no_groups profile.port_groups) (is_number total profile.ports) grouped fits) in
    record { grouped = grouped; positive = positive; total = number ∙ ap pos (omega (arith, sum)) }
