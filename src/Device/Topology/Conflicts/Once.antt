-- ===== src/Device/Topology/Conflicts/Once.antt =====
-- No neighbor is kept in both directions, if it has at most one edge in each.
use mathlib.Core.Path.{subst}
use unifi_stubd.Prelude.{some-injective}
use unifi_stubd.Prelude.{
  ℕ, suc, ◌+◌, ◌<◌, ◌≡◌, ◌⊎◌, refl, sym, ap, ◌∙◌, arith, true, false, ◌==◌, ltb, List, [], ◌∷◌,
  ◌++◌, Option, none, some, inl, inr, get_elem?, replicate, length, ok, bind-eq-ok, ok-injective,
  Bool-cases, else_branch,
}
use unifi_stubd.Prelude.Text.{Bytes, same, same_iff, same_refl}
use unifi_stubd.Device.Topology.{Edge, TopologyWarning, Resolution}
use unifi_stubd.Device.Topology.Conflicts.{
  Pass, same_direction, lookup_mac, key_of, against, step_of, conflict_step, conflict_pass,
  kept_edges, priority_of, judge, resolve_direction_conflicts,
}
use unifi_stubd.Device.Topology.Conflicts.Kept.{
  Opposite, IsAt, IsAt-bound, IsGood, Has, Suffix, Suffix-head, Suffix-tail, step_of-IsGood,
  first_pass-IsGood, kept_edges-marked,
}
use unifi_stubd.Device.Topology.Conflicts.Apart.{
  OneEach, Cleared, IsResolved, Judged, third_direction, judge-Judged, extended, split_bound,
  lookup_mac-put, lookup_mac-put_inv,
}

found_after :
    (all : List Edge) (n : ℕ) (key : Bytes) (j : ℕ) (m m' : List (Bytes × ℕ))
    → lookup_mac key m ≡ some j
    → (lookup_mac key m' ≡ some j) ⊎ (lookup_mac key m' ≡ some n)
    → (k : ℕ) × (lookup_mac key m' ≡ some k)
found_after all n key j m m' h (inl e) = (j, e)
found_after all n key j m m' h (inr e) = (n, e)

-- A neighbor that is met for the first time.
first_met :
    (all : List Edge) (n : ℕ) (edge : Edge) (st : Pass)
    → IsAt all n edge
    → lookup_mac (key_of edge) st.by_mac ≡ none
    → IsResolved all n st
    → IsResolved all (suc n) (record st { by_mac = (key_of edge, n) ∷ st.by_mac })
unfolding lookup_mac
first_met all n edge st at_n none_found r = record {
  resolved =
      extended all n edge st (record st { by_mac = (key_of edge, n) ∷ st.by_mac }) at_n r (λ k c. c)
        (λ i e less at_i opp.
          let (j, found) = r.seen i e less at_i in
          let found' : lookup_mac (key_of edge) st.by_mac ≡ some j =
            subst (λ (key : Bytes). lookup_mac key st.by_mac ≡ some j) opp.one_neighbor found in
          absurd (let no : ◌≡◌ {A = Option ℕ} none (some j) = sym none_found ∙ found' in cc));
  seen = λ i e less at_i. elim (split_bound i n less) [
    | inl before ↦
        let (j, found) = r.seen i e before at_i in
        found_after all n (key_of e) j st.by_mac ((key_of edge, n) ∷ st.by_mac) found
          (lookup_mac-put (key_of edge) (key_of e) n j st.by_mac found)
    | inr at_end ↦
        let edge' = some-injective (sym at_i ∙ ap (get_elem? all) at_end ∙ at_n) in
        (n, rw edge' (rw (same_refl (key_of edge)) refl))
  ];
  below = λ key j found. elim (lookup_mac-put_inv (key_of edge) key n j st.by_mac found) [
    | inl old ↦ let h = r.below key j old in omega arith
    | inr new ↦ omega arith
  ];
}

-- A neighbor that was met before, in the other direction.
met_again :
    (all : List Edge) (n : ℕ) (edge : Edge) (j : ℕ) (previous : Edge) (st st' : Pass)
    → OneEach all
    → IsAt all n edge
    → IsAt all j previous
    → lookup_mac (key_of edge) st.by_mac ≡ some j
    → Opposite previous edge
    → Judged all j n edge st st'
    → IsResolved all n st
    → IsResolved all (suc n) st'
met_again all n edge j previous st st' each at_n at_j found opp judged r = record {
  resolved = extended all n edge st st' at_n r judged.monotone (λ i e less at_i opp'.
      let place = each i j e previous at_i at_j (opp'.one_neighbor ∙ sym opp.one_neighbor) (
        third_direction e.direction previous.direction edge.direction opp'.directions
          opp.directions) in
      subst (λ (k : ℕ). Cleared st'.keep k ⊎ Cleared st'.keep n) (sym place) judged.one);
  seen = λ i e less at_i. elim (split_bound i n less) [
    | inl before ↦
        let (k, known) = r.seen i e before at_i in
        found_after all n (key_of e) k st.by_mac st'.by_mac known (judged.known (key_of e) k known)
    | inr at_end ↦
        let edge' = some-injective (sym at_i ∙ ap (get_elem? all) at_end ∙ at_n) in
        rw edge' (
          found_after all n (key_of edge) j st.by_mac st'.by_mac found
            (judged.known (key_of edge) j found))
  ];
  below = λ key k known. elim (judged.fresh key k known) [
    | inl old ↦ let h = r.below key k old in omega arith
    | inr new ↦ omega arith
  ];
}

step_of-IsResolved :
    (all : List Edge) (n : ℕ) (edge : Edge) (st st' : Pass) (found : Option ℕ)
    → OneEach all
    → IsAt all n edge
    → lookup_mac (key_of edge) st.by_mac ≡ found
    → step_of all found n edge st ≡ ok st'
    → IsGood all st
    → IsResolved all n st
    → IsResolved all (suc n) st'
step_of-IsResolved all n edge st st' none each at_n e h g r =
    subst (IsResolved all (suc n)) (ok-injective h) (first_met all n edge st at_n e r)
step_of-IsResolved all n edge st st' (some j) each at_n e h g r =
    let (previous, at_j, one) = g.indexed (key_of edge) j e in
    let h' : against j (some previous) n edge st ≡ ok st' = rw at_j at h in
    elim (Bool-cases (same_direction previous.direction edge.direction)) [
      | inl along ↦
          let place = each j n previous edge at_j at_n one along in
          let before = r.below (key_of edge) j e in absurd (omega arith)
      | inr opposite ↦
          met_again all n edge j previous st st' each at_n at_j e
            (record { one_neighbor = one; directions = opposite })
            (judge-Judged all j previous n edge st st' at_j at_n g.size
              (else_branch _ _ _ opposite h'))
            r
    ]

conflict_pass-IsResolved :
    (all : List Edge) (n : ℕ) (edges : List Edge) (st st' : Pass)
    → OneEach all
    → Suffix all n edges
    → conflict_pass all n edges st ≡ ok st'
    → IsGood all st
    → IsResolved all n st
    → (m : ℕ) × IsResolved all m st' × (n + length edges ≡ m)
unfolding conflict_pass
conflict_pass-IsResolved all n [] st st' each s h g r =
    (n, subst (IsResolved all n) (ok-injective h) r, omega arith)
conflict_pass-IsResolved all n (edge ∷ edges) st st' each s h g r =
    let (next, one, rest) = bind-eq-ok (conflict_step all n edge st) _ h in
    let at_n = Suffix-head all n edge edges s in
    let (m, r', size) =
      conflict_pass-IsResolved all (suc n) edges next st' each (Suffix-tail all n edge edges s) rest
        (step_of-IsGood all n edge st next _ at_n refl one g)
        (step_of-IsResolved all n edge st next _ each at_n refl one g r) in
    (m, r', omega arith)

first_pass-IsResolved :
    (all : List Edge) (warnings : List TopologyWarning)
    → IsResolved all 0
        (record { by_mac = []; keep = replicate (length all) true; warnings = warnings })
unfolding lookup_mac
first_pass-IsResolved all warnings = record {
  resolved = λ i j e e' hi hj at_i at_j opp. absurd (omega arith);
  seen = λ i e less at_i. absurd (omega arith);
  below = λ key j found. cc;
}

-- Two kept edges are not opposite.
kept_apart :
    (all : List Edge) (st : Pass) (e e' : Edge)
    → IsResolved all (length all) st
    → Has e (kept_edges all st.keep)
    → Has e' (kept_edges all st.keep)
    → ¬ Opposite e e'
kept_apart all st e e' r h k opp =
    let (i, at_i, mark) = kept_edges-marked all st.keep e h in
    let (j, at_j, mark') = kept_edges-marked all st.keep e' k in
    elim (r.resolved i j e e' (IsAt-bound all i e at_i) (IsAt-bound all j e' at_j) at_i at_j opp) [
      | inl cleared ↦ let no : true ≡ false = some-injective (sym mark ∙ cleared) in cc
      | inr cleared ↦ let no : true ≡ false = some-injective (sym mark' ∙ cleared) in cc
    ]

-- If each neighbor has at most one edge in each direction and the directions are resolved, then no
-- neighbor is kept in both directions.
pub resolve_direction_conflicts-apart :
    (r r' : Resolution) (e e' : Edge)
    → OneEach r.edges
    → resolve_direction_conflicts r ≡ ok r'
    → Has e r'.edges
    → Has e' r'.edges
    → ¬ Opposite e e'
unfolding resolve_direction_conflicts
resolve_direction_conflicts-apart r r' e e' each h has has' =
    let (st, pass, made) = bind-eq-ok (conflict_pass r.edges 0 r.edges _) _ h in
    let (m, resolved, size) =
      conflict_pass-IsResolved r.edges 0 r.edges _ st each
        (λ k. ap (get_elem? r.edges) (omega arith)) pass (first_pass-IsGood r.edges r.warnings)
        (first_pass-IsResolved r.edges r.warnings) in
    let same_edges : kept_edges r.edges st.keep ≡ r'.edges =
      ap (λ (x : Resolution). x.edges) (ok-injective made) in
    let all_resolved : IsResolved r.edges (length r.edges) st =
      subst (λ (n : ℕ). IsResolved r.edges n st) (omega arith) resolved in
    kept_apart r.edges st e e' all_resolved (subst (Has e) (sym same_edges) has)
      (subst (Has e') (sym same_edges) has')

-- Three edges of one neighbor: two in one direction, and a third in the other direction from a source
-- of a higher priority than that of the first.
pub record Doubled (a b c : Edge) : Type 0 where
  pub first : key_of a ≡ key_of b
  pub second : key_of b ≡ key_of c
  pub along : same_direction a.direction b.direction ≡ true
  pub against : same_direction a.direction c.direction ≡ false
  pub stronger : priority_of a < priority_of c

-- A resolution whose edges are exactly `a`, `b` and `c`, all of one neighbor, where `a` and `b` lead
-- one way and `c` the other way from a source of a higher priority than that of `a`, is resolved to
-- `b` and `c`, whatever its warnings are: the neighbor stays in both directions.
pub resolve_direction_conflicts_doubled :
    (a b c : Edge) (warnings : List TopologyWarning)
    → Doubled a b c
    → (r : Resolution) × (resolve_direction_conflicts
          (record { edges = a ∷ b ∷ c ∷ []; warnings = warnings })
        ≡ ok r)
      × (r.edges ≡ b ∷ c ∷ [])
unfolding resolve_direction_conflicts conflict_pass lookup_mac judge
resolve_direction_conflicts_doubled a b c warnings d =
    let ab : same (key_of a) (key_of b) ≡ true = (same_iff (key_of a) (key_of b)).1 d.first in
    let ac : same (key_of a) (key_of c) ≡ true =
      (same_iff (key_of a) (key_of c)).1 (d.first ∙ d.second) in
    let no_tie : (priority_of a == priority_of c) ≡ false = ground (arith, d.stronger) in
    let no_win : ltb (priority_of c) (priority_of a) ≡ false = ground (arith, d.stronger) in
    (
      record {
        edges = b ∷ c ∷ [];
        warnings = warnings ++ (TopologyWarning.overrides_edge c.neighbor.mac c a ∷ []);
      },
      rw (ab, d.along, ac, d.against, no_tie, no_win) refl,
      refl,
    )
