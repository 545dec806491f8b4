-- ===== src/Device/Build/Shape.antt =====
-- The shape of the ports that are built for a profile.
use mathlib.Core.Path.{subst}
use unifi_stubd.Prelude.{
  ℕ, zero, suc, ◌+◌, ◌≤◌, ◌<◌, ◌≡◌, refl, ap, ◌∙◌, ◌⊎◌, inl, inr, arith, Bool, ◌&&◌, ◌==◌, List, [],
  ◌∷◌, ◌++◌, some, length, length-append, if◌then◌else◌, Bool-cases, Option-cases,
}
use unifi_stubd.Prelude.Int.{ℤ, pos_part}
use unifi_stubd.Prelude.Text.{Bytes}
use unifi_stubd.Device.{Port, PortGroup}
use unifi_stubd.Device.Layout.{PortLayout}
use unifi_stubd.Device.Build.{
  generated_port, block_ports, group_ports, group_totals, ports_of_totals, no_groups,
  grouped_switch_ports, plain_ports, or_plain,
}

-- The ports after index `i` have the indices that follow, and the one with index `u` is the uplink.
abbrev pub Marked : ℕ → ℕ → List Port → Type 0
Marked u i [] = Unit
Marked u i (p ∷ ps) = (p.index ≡ suc i) × (p.uplink ≡ (suc i == u)) × Marked u (suc i) ps

Marked-append :
    (u i : ℕ) (xs ys : List Port)
    → Marked u i xs
    → Marked u (i + length xs) ys
    → Marked u i (xs ++ ys)
Marked-append u i [] ys h k = subst (λ (n : ℕ). Marked u n ys) (omega arith) k
Marked-append u i (x ∷ xs) ys (a, b, h) k =
    (a, b, Marked-append u (suc i) xs ys h (subst (λ (n : ℕ). Marked u n ys) (omega arith) k))

abbrev pub total_of : List PortGroup → ℕ
total_of [] = 0
total_of (g ∷ gs) = pos_part g.count + total_of gs

module _ (layout : PortLayout) where
  pub length-block_ports :
      (speed : ℤ) (media : Bytes) (profile_uplink : Bool) (u i n : ℕ)
      → length (block_ports layout speed media profile_uplink u i n) ≡ n
  unfolding block_ports
  length-block_ports speed media profile_uplink u i zero = refl
  length-block_ports speed media profile_uplink u i (suc n) =
      ap suc (length-block_ports speed media profile_uplink u (suc i) n)

  block_ports-Marked :
      (speed : ℤ) (media : Bytes) (profile_uplink : Bool) (u i n : ℕ)
      → Marked u i (block_ports layout speed media profile_uplink u i n)
  unfolding block_ports generated_port
  block_ports-Marked speed media profile_uplink u i zero = tt
  block_ports-Marked speed media profile_uplink u i (suc n) =
      (refl, refl, block_ports-Marked speed media profile_uplink u (suc i) n)

  plain_ports-Marked : (i n : ℕ) → Marked 1 i (plain_ports layout i n)
  unfolding plain_ports generated_port
  plain_ports-Marked i zero = tt
  plain_ports-Marked i (suc n) = (refl, refl, plain_ports-Marked (suc i) n)

  length-plain_ports : (i n : ℕ) → length (plain_ports layout i n) ≡ n
  unfolding plain_ports
  length-plain_ports i zero = refl
  length-plain_ports i (suc n) = ap suc (length-plain_ports (suc i) n)

  pub length-group_ports :
      (u i : ℕ) (gs : List PortGroup) → length (group_ports layout u i gs) ≡ total_of gs
  unfolding group_ports
  length-group_ports u i [] = refl
  length-group_ports u i (g ∷ gs) = omega (
    arith,
    length-append {0} _ (group_ports layout u (i + pos_part g.count) gs),
    length-block_ports _ _ g.uplink u i (pos_part g.count),
    length-group_ports u (i + pos_part g.count) gs,
  )

  group_ports-Marked : (u i : ℕ) (gs : List PortGroup) → Marked u i (group_ports layout u i gs)
  unfolding group_ports
  group_ports-Marked u i [] = tt
  group_ports-Marked u i (g ∷ gs) =
      Marked-append u i _ _ (block_ports-Marked _ _ g.uplink u i (pos_part g.count)) (
        rw (length-block_ports _ _ g.uplink u i (pos_part g.count))
          (group_ports-Marked u (i + pos_part g.count) gs))

-- The totals of groups that are not empty: an uplink that was found stays, and lies in the total.
pub group_totals-eq-some :
    (total u : ℕ) (gs : List PortGroup) (end found : ℕ)
    → u ≤ total
    → group_totals total u gs ≡ some (end, found)
    → (end ≡ total + total_of gs) × (found ≤ end)
unfolding group_totals
group_totals-eq-some total u [] end found h e = ground arith
group_totals-eq-some total u (g ∷ gs) end found h e =
    let rest =
      group_totals-eq-some (total + pos_part g.count) (if g.uplink && u == 0 then suc total else u)
        gs end found in
    ground (arith, rest)

-- Of one number of ports, one in the range is the uplink.
pub record IsBuilt (n : ℕ) (ports : List Port) : Type 0 where
  pub size : length ports ≡ n
  pub uplink : ℕ
  pub low : 0 < uplink
  pub high : uplink ≤ n
  pub marked : Marked uplink 0 ports

module _ (layout : PortLayout) where
  ports_of_totals-IsBuilt :
      (n : ℕ)
      → 0 < n
      → (ports_of_totals n layout (group_totals 0 0 layout.port_groups) ≡ [])
        ⊎ IsBuilt n (ports_of_totals n layout (group_totals 0 0 layout.port_groups))
  ports_of_totals-IsBuilt n pos_n = elim (Option-cases (group_totals 0 0 layout.port_groups)) [
    | inl e ↦ inl (rw e)
    | inr ((end, found), e) ↦
        let (total, fits) = group_totals-eq-some 0 0 layout.port_groups end found (omega arith) e in
        rw e (elim (Bool-cases (end == n)) [
          | inr no_match ↦ inl (rw no_match)
          | inl fit ↦ rw fit (
              inr (record {
                size =
                    length-group_ports layout (if found == 0 then 1 else found) 0 layout.port_groups
                    ∙ ground arith;
                uplink = if found == 0 then 1 else found;
                low = ground arith;
                high = ground arith;
                marked =
                    group_ports-Marked layout (if found == 0 then 1 else found) 0
                      layout.port_groups;
              }))
        ])
  ]

  pub grouped_switch_ports-IsBuilt :
      (n : ℕ)
      → 0 < n
      → (grouped_switch_ports n layout ≡ []) ⊎ IsBuilt n (grouped_switch_ports n layout)
  unfolding grouped_switch_ports
  grouped_switch_ports-IsBuilt n pos_n = elim (Bool-cases (no_groups layout.port_groups)) [
    | inl e ↦ inl (rw e)
    | inr e ↦ rw e (ports_of_totals-IsBuilt n pos_n)
  ]

  pub or_plain-IsBuilt :
      (n : ℕ) (ports : List Port)
      → 0 < n
      → (ports ≡ []) ⊎ IsBuilt n ports
      → IsBuilt n (or_plain layout n ports)
  or_plain-IsBuilt n [] pos_n h = record {
    size = length-plain_ports layout 0 n;
    uplink = 1;
    low = omega arith;
    high = omega arith;
    marked = plain_ports-Marked layout 0 n;
  }
  or_plain-IsBuilt n (p ∷ ps) pos_n (inl e) = cc
  or_plain-IsBuilt n (p ∷ ps) pos_n (inr h) = h
