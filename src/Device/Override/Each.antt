-- ===== src/Device/Override/Each.antt =====
-- Overrides of a list of ports, seen from one port.
use unifi_stubd.Prelude.{
  ℕ, zero, suc, ◌-◌, ◌<◌, ◌≡◌, ◌≢◌, refl, sym, ap, ◌∙◌, arith, Bool, true, false, ◌||◌, ◌==◌, List,
  [], ◌∷◌, Option, none, some, inl, inr, length, get_elem?, length-set, get_elem?-set_self,
  get_elem?-set_ne, if◌then◌else◌, Bool-cases,
}
use unifi_stubd.Prelude.Int.{ℤ, pos, negsuc, pos_part, ltb_ℤ}
use unifi_stubd.Device.{Port, PortOverride}
use unifi_stubd.Device.Override.{apply_override, overridden, apply_in_range, apply_port_overrides}

-- The number names the port at a place.
abbrev pub names_port : ℤ → ℕ → Bool
names_port (negsuc n) i = false
names_port (pos n) i = n == suc i

abbrev pub map_port : (Port → Port) → Option Port → Option Port
map_port f none = none
map_port f (some p) = some (f p)

-- The overrides that name a port, in their order.
abbrev pub overrides_at : ℕ → List PortOverride → Port → Port
overrides_at i [] p = p
overrides_at i (o ∷ os) p =
    overrides_at i os (if names_port o.port i then apply_override o p else p)

length-overridden :
    (o : PortOverride) (found : Option Port) (i : ℕ) (ports : List Port)
    → length (overridden o found i ports) ≡ length ports
length-overridden o none i ports = refl
length-overridden o (some p) i ports = length-set ports i (apply_override o p)

length-apply_in_range :
    (ports : List Port) (o : PortOverride) → length (apply_in_range ports o) ≡ length ports
unfolding apply_in_range
length-apply_in_range ports o =
    elim (Bool-cases (ltb_ℤ o.port (pos 1) || ltb_ℤ (pos (length ports)) o.port)) [
      | inl out ↦ rw out
      | inr within ↦ rw within (length-overridden o _ (pos_part o.port - 1) ports)
    ]

get_elem?_bound :
    (ports : List Port) (i : ℕ) (p : Port) → get_elem? ports i ≡ some p → i < length ports
get_elem?_bound [] i p h = cc
get_elem?_bound (q ∷ ports) zero p h = omega arith
get_elem?_bound (q ∷ ports) (suc i) p h = omega (arith, get_elem?_bound ports i p h)

get_elem?-beyond : (ports : List Port) (i : ℕ) → length ports < suc i → get_elem? ports i ≡ none
get_elem?-beyond [] i h = refl
get_elem?-beyond (q ∷ ports) zero h = absurd (omega arith)
get_elem?-beyond (q ∷ ports) (suc i) h = get_elem?-beyond ports i (omega arith)

-- The port at the place that is overridden.
get_elem?-overridden_self :
    (o : PortOverride) (i : ℕ) (ports : List Port) (found : Option Port)
    → get_elem? ports i ≡ found
    → get_elem? (overridden o found i ports) i ≡ map_port (apply_override o) found
get_elem?-overridden_self o i ports none h = h
get_elem?-overridden_self o i ports (some p) h =
    get_elem?-set_self ports i (apply_override o p) (get_elem?_bound ports i p h)

get_elem?-overridden_ne :
    (o : PortOverride) (k i : ℕ) (ports : List Port) (found : Option Port)
    → k ≢ i
    → get_elem? (overridden o found k ports) i ≡ get_elem? ports i
get_elem?-overridden_ne o k i ports none h = refl
get_elem?-overridden_ne o k i ports (some p) h = get_elem?-set_ne ports (apply_override o p) h

map_port_same : (f : Port → Port) (found : Option Port) → found ≡ none → map_port f found ≡ found
map_port_same f none h = refl
map_port_same f (some p) h = cc

map_port_id : (found : Option Port) → map_port (λ p. p) found ≡ found
map_port_id none = refl
map_port_id (some p) = refl

-- The number of a place that is named.
names_port_lem : (z : ℤ) (i : ℕ) → names_port z i ≡ true → z ≡ pos (suc i)
names_port_lem (negsuc n) i h = cc
names_port_lem (pos n) i h = ground arith

other_place :
    (z : ℤ) (i : ℕ) → names_port z i ≡ false → ltb_ℤ z (pos 1) ≡ false → pos_part z - 1 ≢ i
other_place (negsuc n) i h k = ground arith
other_place (pos n) i h k = ground arith

past_end :
    (ports : List Port) (z : ℤ) (i : ℕ)
    → z ≡ pos (suc i)
    → (ltb_ℤ z (pos 1) || ltb_ℤ (pos (length ports)) z) ≡ true
    → length ports < suc i
past_end ports z i e h = ground arith

or_left : (a b : Bool) → (a || b) ≡ false → a ≡ false
or_left a b h = ground arith

place_of : (z : ℤ) (i : ℕ) → z ≡ pos (suc i) → pos_part z - 1 ≡ i
place_of z i e = rw e (omega arith)

get_elem?-apply_in_range :
    (ports : List Port) (o : PortOverride) (i : ℕ)
    → get_elem? (apply_in_range ports o) i
      ≡ map_port (λ p. if names_port o.port i then apply_override o p else p) (get_elem? ports i)
unfolding apply_in_range
get_elem?-apply_in_range ports o i =
    let out = ltb_ℤ o.port (pos 1) || ltb_ℤ (pos (length ports)) o.port in
    elim (Bool-cases (names_port o.port i)) [
      | inl named ↦
          let number = names_port_lem o.port i named in
          elim (Bool-cases out) [
            | inl beyond ↦
                let nothing = get_elem?-beyond ports i (past_end ports o.port i number beyond) in
                rw (named, beyond) (sym (map_port_same (apply_override o) _ nothing))
            | inr within ↦
                let place : pos_part o.port - 1 ≡ i = place_of o.port i number in
                rw (named, within, place) (get_elem?-overridden_self o i ports _ refl)
          ]
      | inr other ↦ elim (Bool-cases out) [
        | inl beyond ↦ rw (other, beyond) (sym (map_port_id (get_elem? ports i)))
        | inr within ↦
            rw (other, within)
              (get_elem?-overridden_ne o (pos_part o.port - 1) i ports _
                  (other_place o.port i other (or_left _ _ within))
                ∙ sym (map_port_id (get_elem? ports i)))
      ]
    ]

overrides_at_map :
    (o : PortOverride) (os : List PortOverride) (i : ℕ) (found : Option Port)
    → map_port
        (overrides_at i os)
        (map_port (λ p. if names_port o.port i then apply_override o p else p) found)
      ≡ map_port (overrides_at i (o ∷ os)) found
overrides_at_map o os i none = refl
overrides_at_map o os i (some p) = refl

-- ApplyPortOverrides keeps the number of ports, and makes of each port what the overrides that name
-- it make of it in their order, whatever overrides for other ports or for none stand between them.
pub apply_port_overrides_lem :
    (ports : List Port) (os : List PortOverride) (i : ℕ)
    → (length (apply_port_overrides ports os) ≡ length ports)
      × (get_elem? (apply_port_overrides ports os) i
          ≡ map_port (overrides_at i os) (get_elem? ports i))
unfolding apply_port_overrides
apply_port_overrides_lem ports [] i = (refl, sym (map_port_id (get_elem? ports i)))
apply_port_overrides_lem ports (o ∷ os) i =
    let (size, rest) = apply_port_overrides_lem (apply_in_range ports o) os i in
    (
      size ∙ length-apply_in_range ports o,
      rest
          ∙ ap (map_port (overrides_at i os)) (get_elem?-apply_in_range ports o i)
          ∙ overrides_at_map o os i (get_elem? ports i),
    )
