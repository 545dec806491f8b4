-- ===== src/Device/Topology/Conflicts/Kept.antt =====
-- Which edges are kept.
use mathlib.Core.Path.{subst}
use unifi_stubd.Prelude.{some-injective}
use unifi_stubd.Prelude.{
  ℕ, zero, suc, ◌+◌, ◌<◌, ◌≡◌, ◌≢◌, ◌⊎◌, refl, sym, ap, ◌∙◌, arith, Bool, true, false, ◌&&◌, ◌==◌,
  ltb, List, [], ◌∷◌, Option, none, some, inl, inr, get_elem?, set, replicate, length, length-set,
  length-replicate, get_elem?-set_ne, ok, err, bind-eq-ok, ok-injective, Bool-cases, then_branch,
  else_branch,
}
use unifi_stubd.Prelude.Text.{Bytes, same, same_iff}
use unifi_stubd.Device.Topology.{Direction, Edge, TopologyWarning, Resolution}
use unifi_stubd.Device.Topology.Conflicts.{
  Pass, same_direction, lookup_mac, key_of, priority_of, judge, against, step_of, conflict_step,
  conflict_pass, kept_edges, resolve_direction_conflicts,
}

pub same_direction_sym :
    (d d' : Direction) → same_direction d d' ≡ false → same_direction d' d ≡ false
same_direction_sym Direction.upstream Direction.upstream h = h
same_direction_sym Direction.upstream Direction.downstream h = refl
same_direction_sym Direction.downstream Direction.upstream h = refl
same_direction_sym Direction.downstream Direction.downstream h = h

-- Two edges lead to one neighbor in different directions.
pub record Opposite (e e' : Edge) : Type 0 where
  pub one_neighbor : key_of e ≡ key_of e'
  pub directions : same_direction e.direction e'.direction ≡ false

abbrev pub IsAt : List Edge → ℕ → Edge → Type 0
IsAt all i e = get_elem? all i ≡ some e

pub IsAt-bound : (all : List Edge) (i : ℕ) (e : Edge) → IsAt all i e → i < length all
IsAt-bound [] i e h = cc
IsAt-bound (x ∷ all) zero e h = omega arith
IsAt-bound (x ∷ all) (suc i) e h = omega (arith, IsAt-bound all i e h)

-- An edge whose mark is cleared has an opposite one.
abbrev pub Justified : List Edge → List Bool → Type 0
Justified all keep =
    (i : ℕ) (e : Edge)
    → IsAt all i e
    → get_elem? keep i ≡ some false
    → (e' : Edge) × (j : ℕ) × IsAt all j e' × Opposite e e'

-- The map leads to edges of its neighbor.
abbrev pub Indexed : List Edge → List (Bytes × ℕ) → Type 0
Indexed all m =
    (key : Bytes) (j : ℕ) → lookup_mac key m ≡ some j → (e : Edge) × IsAt all j e × (key_of e ≡ key)

pub Justified-set :
    (all : List Edge) (keep : List Bool) (k : ℕ) (e e' : Edge) (j : ℕ)
    → IsAt all k e
    → IsAt all j e'
    → Opposite e e'
    → Justified all keep
    → Justified all (set keep k false)
Justified-set all keep k e e' j at_k at_j opp h i x at_i cleared = elim (Bool-cases (k == i)) [
  | inl same_place ↦
      let place : k ≡ i = ground arith in
      let edge : e ≡ x = some-injective (sym at_k ∙ ap (get_elem? all) place ∙ at_i) in
      (e', j, at_j, subst (λ (y : Edge). Opposite y e') edge opp)
  | inr other ↦
      let apart : k ≢ i = λ q. ground arith in
      h i x at_i (sym (get_elem?-set_ne keep false apart) ∙ cleared)
]

pub record IsGood (all : List Edge) (st : Pass) : Type 0 where
  pub justified : Justified all st.keep
  pub indexed : Indexed all st.by_mac
  pub size : length st.keep ≡ length all

pub Indexed-put :
    (all : List Edge) (m : List (Bytes × ℕ)) (i : ℕ) (e : Edge)
    → IsAt all i e
    → Indexed all m
    → Indexed all ((key_of e, i) ∷ m)
unfolding lookup_mac
Indexed-put all m i e at_i h key j found = elim (Bool-cases (same (key_of e) key)) [
  | inl new ↦
      let place : i ≡ j = some-injective (then_branch _ (some i) _ new found) in
      (e, subst (λ (k : ℕ). IsAt all k e) place at_i, (same_iff (key_of e) key).0 new)
  | inr old ↦ h key j (else_branch _ (some i) _ old found)
]

pub Opposite-sym : (e e' : Edge) → Opposite e e' → Opposite e' e
Opposite-sym e e' o = record {
  one_neighbor = sym o.one_neighbor;
  directions = same_direction_sym e.direction e'.direction o.directions;
}

judge-IsGood :
    (all : List Edge) (j : ℕ) (previous : Edge) (i : ℕ) (edge : Edge) (st st' : Pass)
    → IsAt all j previous
    → IsAt all i edge
    → Opposite previous edge
    → judge j previous i edge st ≡ ok st'
    → IsGood all st
    → IsGood all st'
unfolding judge
judge-IsGood all j previous i edge st st' at_j at_i opp h g =
    let drop_j = Justified-set all st.keep j previous edge i at_j at_i opp g.justified in
    let swapped = Opposite-sym previous edge opp in
    elim (Bool-cases (priority_of previous == priority_of edge && ltb 1 (priority_of previous))) [
      | inl both ↦ let no : err _ ≡ ok st' = then_branch _ _ _ both h in cc
      | inr no_error ↦
          let h1 = else_branch _ _ _ no_error h in
          elim (Bool-cases (priority_of previous == priority_of edge)) [
            | inl tie ↦ subst (IsGood all) (ok-injective (then_branch _ _ _ tie h1)) (record {
              justified =
                  Justified-set all (set st.keep j false) i edge previous j at_i at_j swapped
                    drop_j;
              indexed = g.indexed;
              size = length-set (set st.keep j false) i false ∙ length-set st.keep j false ∙ g.size;
            })
            | inr no_tie ↦
                let h2 = else_branch _ _ _ no_tie h1 in
                elim (Bool-cases (ltb (priority_of edge) (priority_of previous))) [
                  | inl weaker ↦
                      subst (IsGood all) (ok-injective (then_branch _ _ _ weaker h2)) (record {
                        justified =
                            Justified-set all st.keep i edge previous j at_i at_j swapped
                              g.justified;
                        indexed = g.indexed;
                        size = length-set st.keep i false ∙ g.size;
                      })
                  | inr stronger ↦
                      subst (IsGood all) (ok-injective (else_branch _ _ _ stronger h2)) (record {
                        justified = drop_j;
                        indexed = Indexed-put all st.by_mac i edge at_i g.indexed;
                        size = length-set st.keep j false ∙ g.size;
                      })
                ]
          ]
    ]

against-IsGood :
    (all : List Edge) (j : ℕ) (previous : Edge) (i : ℕ) (edge : Edge) (st st' : Pass)
    → IsAt all j previous
    → IsAt all i edge
    → key_of previous ≡ key_of edge
    → against j (some previous) i edge st ≡ ok st'
    → IsGood all st
    → IsGood all st'
against-IsGood all j previous i edge st st' at_j at_i one h g =
    elim (Bool-cases (same_direction previous.direction edge.direction)) [
      | inl along ↦ subst (IsGood all) (ok-injective (then_branch _ _ _ along h)) g
      | inr opposite ↦
          judge-IsGood all j previous i edge st st' at_j at_i
            (record { one_neighbor = one; directions = opposite }) (else_branch _ _ _ opposite h) g
    ]

pub step_of-IsGood :
    (all : List Edge) (i : ℕ) (edge : Edge) (st st' : Pass) (found : Option ℕ)
    → IsAt all i edge
    → lookup_mac (key_of edge) st.by_mac ≡ found
    → step_of all found i edge st ≡ ok st'
    → IsGood all st
    → IsGood all st'
step_of-IsGood all i edge st st' none at_i e h g = subst (IsGood all) (ok-injective h) (record {
  justified = g.justified;
  indexed = Indexed-put all st.by_mac i edge at_i g.indexed;
  size = g.size;
})
step_of-IsGood all i edge st st' (some j) at_i e h g =
    let (previous, at_j, one) = g.indexed (key_of edge) j e in
    against-IsGood all j previous i edge st st' at_j at_i one (rw at_j at h) g

-- The edges that are left are those behind an index.
abbrev pub Suffix : List Edge → ℕ → List Edge → Type 0
Suffix all i edges = (k : ℕ) → get_elem? all (i + k) ≡ get_elem? edges k

pub Suffix-head :
    (all : List Edge) (i : ℕ) (edge : Edge) (edges : List Edge)
    → Suffix all i (edge ∷ edges)
    → IsAt all i edge
Suffix-head all i edge edges h = ap (get_elem? all) (omega arith) ∙ h 0

pub Suffix-tail :
    (all : List Edge) (i : ℕ) (edge : Edge) (edges : List Edge)
    → Suffix all i (edge ∷ edges)
    → Suffix all (suc i) edges
Suffix-tail all i edge edges h k = ap (get_elem? all) (omega arith) ∙ h (suc k)

pub conflict_pass-IsGood :
    (all : List Edge) (i : ℕ) (edges : List Edge) (st st' : Pass)
    → Suffix all i edges
    → conflict_pass all i edges st ≡ ok st'
    → IsGood all st
    → IsGood all st'
unfolding conflict_pass
conflict_pass-IsGood all i [] st st' s h g = subst (IsGood all) (ok-injective h) g
conflict_pass-IsGood all i (edge ∷ edges) st st' s h g =
    let (next, one, rest) = bind-eq-ok (conflict_step all i edge st) _ h in
    conflict_pass-IsGood all (suc i) edges next st' (Suffix-tail all i edge edges s) rest
      (step_of-IsGood all i edge st next _ (Suffix-head all i edge edges s) refl one g)

-- The edge stands somewhere in the list.
abbrev pub Has : Edge → List Edge → Type 0
Has e es = (k : ℕ) × (get_elem? es k ≡ some e)

Has-there : (e x : Edge) (es : List Edge) → Has e es → Has e (x ∷ es)
Has-there e x es (k, h) = (suc k, h)

kept_edges-Has :
    (all : List Edge) (keep : List Bool) (i : ℕ) (e : Edge)
    → IsAt all i e
    → get_elem? keep i ≡ some true
    → Has e (kept_edges all keep)
kept_edges-Has [] keep i e h k = cc
kept_edges-Has (x ∷ all) [] i e h k = cc
kept_edges-Has (x ∷ all) (b ∷ keep) zero e h k = rw (some-injective k) (0, h)
kept_edges-Has (x ∷ all) (true ∷ keep) (suc i) e h k =
    Has-there e x (kept_edges all keep) (kept_edges-Has all keep i e h k)
kept_edges-Has (x ∷ all) (false ∷ keep) (suc i) e h k = kept_edges-Has all keep i e h k

-- A kept edge has its mark.
pub kept_edges-marked :
    (all : List Edge) (keep : List Bool) (e : Edge)
    → Has e (kept_edges all keep)
    → (i : ℕ) × IsAt all i e × (get_elem? keep i ≡ some true)
kept_edges-marked [] keep e (k, h) = cc
kept_edges-marked (x ∷ all) [] e (k, h) = cc
kept_edges-marked (x ∷ all) (true ∷ keep) e (zero, h) = (0, h, refl)
kept_edges-marked (x ∷ all) (true ∷ keep) e (suc k, h) =
    let (i, at_i, mark) = kept_edges-marked all keep e (k, h) in (suc i, at_i, mark)
kept_edges-marked (x ∷ all) (false ∷ keep) e (k, h) =
    let (i, at_i, mark) = kept_edges-marked all keep e (k, h) in (suc i, at_i, mark)

same_length :
    {A B : Type 0} (xs : List A) (ys : List B) (i : ℕ) (x : A)
    → length ys ≡ length xs
    → get_elem? xs i ≡ some x
    → (y : B) × (get_elem? ys i ≡ some y)
same_length [] ys i x h e = cc
same_length (z ∷ xs) [] i x h e = absurd (omega arith)
same_length (z ∷ xs) (y ∷ ys) zero x h e = (y, refl)
same_length (z ∷ xs) (y ∷ ys) (suc i) x h e = same_length xs ys i x (omega arith) e

get_elem?-marks : (n i : ℕ) → get_elem? (replicate n true) i ≡ some false → ⊥
get_elem?-marks zero i h = cc
get_elem?-marks (suc n) zero h = cc
get_elem?-marks (suc n) (suc i) h = get_elem?-marks n i h

pub first_pass-IsGood :
    (all : List Edge) (warnings : List TopologyWarning)
    → IsGood all (record { by_mac = []; keep = replicate (length all) true; warnings = warnings })
unfolding lookup_mac
first_pass-IsGood all warnings = record {
  justified = λ i e at_i cleared. absurd (get_elem?-marks (length all) i cleared);
  indexed = λ key j found. cc;
  size = length-replicate (length all) true;
}

kept_or_Opposite :
    (all : List Edge) (keep : List Bool) (i : ℕ) (e : Edge)
    → Justified all keep
    → length keep ≡ length all
    → IsAt all i e
    → Has e (kept_edges all keep) ⊎ ((e' : Edge) × Has e' all × Opposite e e')
kept_or_Opposite all keep i e justified size at_i =
    let (b, mark) = same_length all keep i e size at_i in
    elim (Bool-cases b) [
      | inl yes_kept ↦ inl (kept_edges-Has all keep i e at_i (mark ∙ ap some yes_kept))
      | inr cleared ↦
          let (e', j, at_j, opp) = justified i e at_i (mark ∙ ap some cleared) in
          inr (e', (j, at_j), opp)
    ]

-- If the directions are resolved, an edge is left out only because of an edge to the same neighbor in
-- the other direction, and nothing but the edges that were given is kept.
pub resolve_direction_conflicts_lem :
    (r r' : Resolution) (e : Edge)
    → resolve_direction_conflicts r ≡ ok r'
    → (Has e r.edges → Has e r'.edges ⊎ ((e' : Edge) × Has e' r.edges × Opposite e e'))
      × (Has e r'.edges → Has e r.edges)
unfolding resolve_direction_conflicts
resolve_direction_conflicts_lem r r' e h =
    let (st, pass, made) = bind-eq-ok (conflict_pass r.edges 0 r.edges _) _ h in
    let good =
      conflict_pass-IsGood r.edges 0 r.edges _ st (λ k. ap (get_elem? r.edges) (omega arith)) pass
        (first_pass-IsGood r.edges r.warnings) in
    let same_result = ok-injective made in
    subst
      (λ (x : Resolution).
        (Has e r.edges → Has e x.edges ⊎ ((e' : Edge) × Has e' r.edges × Opposite e e'))
        × (Has e x.edges → Has e r.edges))
      same_result
      (
        λ (i, at_i). kept_or_Opposite r.edges st.keep i e good.justified good.size at_i,
        λ has. let (i, at_i, mark) = kept_edges-marked r.edges st.keep e has in (i, at_i),
      )
