-- ===== src/Device/Topology/Conflicts/Apart.antt =====
-- Of two opposite edges one is cleared: what a step of the loop does for it.
use mathlib.Core.Path.{subst}
use unifi_stubd.Prelude.{some-injective}
use unifi_stubd.Prelude.{
  ℕ, zero, suc, ◌<◌, ◌≡◌, ◌⊎◌, refl, sym, ap, ◌∙◌, arith, Bool, true, false, ◌&&◌, ◌==◌, ltb, List,
  [], ◌∷◌, some, inl, inr, get_elem?, set, length, get_elem?-set_self, ok, err, ok-injective,
  Bool-cases, then_branch, else_branch,
}
use unifi_stubd.Prelude.Text.{Bytes, same}
use unifi_stubd.Device.Topology.{Direction, Edge}
use unifi_stubd.Device.Topology.Conflicts.{
  Pass, same_direction, lookup_mac, key_of, priority_of, judge,
}
use unifi_stubd.Device.Topology.Conflicts.Kept.{Opposite, IsAt, IsAt-bound, same_direction_sym}

-- A neighbor has at most one edge in each direction.
abbrev pub OneEach : List Edge → Type 0
OneEach all =
    (i j : ℕ) (e e' : Edge)
    → IsAt all i e
    → IsAt all j e'
    → key_of e ≡ key_of e'
    → same_direction e.direction e'.direction ≡ true
    → i ≡ j

abbrev pub Cleared : List Bool → ℕ → Type 0
Cleared keep i = get_elem? keep i ≡ some false

-- Before the edge `n`: of two opposite edges one is cleared, and the map knows each neighbor.
pub record IsResolved (all : List Edge) (n : ℕ) (st : Pass) : Type 0 where
  pub resolved :
      (i j : ℕ) (e e' : Edge)
      → i < n
      → j < n
      → IsAt all i e
      → IsAt all j e'
      → Opposite e e'
      → Cleared st.keep i ⊎ Cleared st.keep j
  pub seen :
      (i : ℕ) (e : Edge)
      → i < n
      → IsAt all i e
      → (j : ℕ) × (lookup_mac (key_of e) st.by_mac ≡ some j)
  pub below : (key : Bytes) (j : ℕ) → lookup_mac key st.by_mac ≡ some j → j < n

-- Clearing marks keeps cleared marks.
pub Cleared-set : (keep : List Bool) (k i : ℕ) → Cleared keep i → Cleared (set keep k false) i
Cleared-set [] k i h = h
Cleared-set (b ∷ keep) zero zero h = refl
Cleared-set (b ∷ keep) zero (suc i) h = h
Cleared-set (b ∷ keep) (suc k) zero h = h
Cleared-set (b ∷ keep) (suc k) (suc i) h = Cleared-set keep k i h

pub third_direction :
    (a b c : Direction)
    → same_direction a c ≡ false
    → same_direction b c ≡ false
    → same_direction a b ≡ true
third_direction Direction.upstream Direction.upstream c h k = refl
third_direction Direction.upstream Direction.downstream Direction.upstream h k = cc
third_direction Direction.upstream Direction.downstream Direction.downstream h k = cc
third_direction Direction.downstream Direction.upstream Direction.upstream h k = cc
third_direction Direction.downstream Direction.upstream Direction.downstream h k = cc
third_direction Direction.downstream Direction.downstream c h k = refl

clear_at :
    (all : List Edge) (keep : List Bool) (i : ℕ) (e : Edge)
    → IsAt all i e
    → length keep ≡ length all
    → Cleared (set keep i false) i
clear_at all keep i e at_i size =
    get_elem?-set_self keep i false (omega (arith, IsAt-bound all i e at_i))

-- What judging two opposite edges leaves.
pub record Judged (all : List Edge) (j i : ℕ) (edge : Edge) (st st' : Pass) : Type 0 where
  pub one : Cleared st'.keep j ⊎ Cleared st'.keep i
  pub monotone : (k : ℕ) → Cleared st.keep k → Cleared st'.keep k
  pub known :
      (key : Bytes) (k : ℕ)
      → lookup_mac key st.by_mac ≡ some k
      → (lookup_mac key st'.by_mac ≡ some k) ⊎ (lookup_mac key st'.by_mac ≡ some i)
  pub fresh :
      (key : Bytes) (k : ℕ)
      → lookup_mac key st'.by_mac ≡ some k
      → (lookup_mac key st.by_mac ≡ some k) ⊎ (i ≡ k)

pub lookup_mac-put_inv :
    (key k : Bytes) (i j : ℕ) (m : List (Bytes × ℕ))
    → lookup_mac k ((key, i) ∷ m) ≡ some j
    → (lookup_mac k m ≡ some j) ⊎ (i ≡ j)
unfolding lookup_mac
lookup_mac-put_inv key k i j m h = elim (Bool-cases (same key k)) [
  | inl new ↦ inr (some-injective (then_branch _ (some i) _ new h))
  | inr old ↦ inl (else_branch _ (some i) _ old h)
]

pub lookup_mac-put :
    (key k : Bytes) (i j : ℕ) (m : List (Bytes × ℕ))
    → lookup_mac k m ≡ some j
    → (lookup_mac k ((key, i) ∷ m) ≡ some j) ⊎ (lookup_mac k ((key, i) ∷ m) ≡ some i)
unfolding lookup_mac
lookup_mac-put key k i j m h = elim (Bool-cases (same key k)) [
  | inl new ↦ inr (rw new)
  | inr old ↦ inl (rw old h)
]

pub judge-Judged :
    (all : List Edge) (j : ℕ) (previous : Edge) (i : ℕ) (edge : Edge) (st st' : Pass)
    → IsAt all j previous
    → IsAt all i edge
    → length st.keep ≡ length all
    → judge j previous i edge st ≡ ok st'
    → Judged all j i edge st st'
unfolding judge
judge-Judged all j previous i edge st st' at_j at_i size h =
    elim (Bool-cases (priority_of previous == priority_of edge && ltb 1 (priority_of previous))) [
      | inl both ↦ let no : err _ ≡ ok st' = then_branch _ _ _ both h in cc
      | inr no_error ↦
          let h1 = else_branch _ _ _ no_error h in
          elim (Bool-cases (priority_of previous == priority_of edge)) [
            | inl tie ↦
                subst (Judged all j i edge st) (ok-injective (then_branch _ _ _ tie h1)) (record {
                  one = inl (
                      Cleared-set (set st.keep j false) i j
                        (clear_at all st.keep j previous at_j size));
                  monotone =
                      λ k c. Cleared-set (set st.keep j false) i k (Cleared-set st.keep j k c);
                  known = λ key k found. inl found;
                  fresh = λ key k found. inl found;
                })
            | inr no_tie ↦
                let h2 = else_branch _ _ _ no_tie h1 in
                elim (Bool-cases (ltb (priority_of edge) (priority_of previous))) [
                  | inl weaker ↦
                      subst (Judged all j i edge st) (ok-injective (then_branch _ _ _ weaker h2))
                        (record {
                          one = inr (clear_at all st.keep i edge at_i size);
                          monotone = λ k c. Cleared-set st.keep i k c;
                          known = λ key k found. inl found;
                          fresh = λ key k found. inl found;
                        })
                  | inr stronger ↦
                      subst (Judged all j i edge st) (ok-injective (else_branch _ _ _ stronger h2))
                        (record {
                          one = inl (clear_at all st.keep j previous at_j size);
                          monotone = λ k c. Cleared-set st.keep j k c;
                          known =
                              λ key k found. lookup_mac-put (key_of edge) key i k st.by_mac found;
                          fresh = λ key k found.
                              lookup_mac-put_inv (key_of edge) key i k st.by_mac found;
                        })
                ]
          ]
    ]

same_direction_refl : (d : Direction) → same_direction d d ≡ true
same_direction_refl Direction.upstream = refl
same_direction_refl Direction.downstream = refl

pub split_bound : (i n : ℕ) → i < suc n → (i < n) ⊎ (i ≡ n)
split_bound i n h = elim (Bool-cases (ltb i n)) [
  | inl less ↦ inl (ground arith)
  | inr more ↦ inr (ground arith)
]

-- One more edge: what is left to show is that it is apart from each earlier opposite edge.
pub extended :
    (all : List Edge) (n : ℕ) (edge : Edge) (st st' : Pass)
    → IsAt all n edge
    → IsResolved all n st
    → ((k : ℕ) → Cleared st.keep k → Cleared st'.keep k)
    → ((i : ℕ) (e : Edge)
        → i < n
        → IsAt all i e
        → Opposite e edge
        → Cleared st'.keep i ⊎ Cleared st'.keep n)
    → (i j : ℕ) (e e' : Edge) → i < suc n
    → j < suc n
    → IsAt all i e
    → IsAt all j e'
    → Opposite e e'
    → Cleared st'.keep i ⊎ Cleared st'.keep j
extended all n edge st st' at_n r mono new i j e e' hi hj at_i at_j opp =
    elim (split_bound i n hi) [
      | inl less_i ↦ elim (split_bound j n hj) [
        | inl less_j ↦ elim (r.resolved i j e e' less_i less_j at_i at_j opp) [
          | inl c ↦ inl (mono i c)
          | inr c ↦ inr (mono j c)
        ]
        | inr at_end ↦
            let edge' = some-injective (sym at_j ∙ ap (get_elem? all) at_end ∙ at_n) in
            subst (λ (m : ℕ). Cleared st'.keep i ⊎ Cleared st'.keep m) (sym at_end)
              (new i e less_i at_i (subst (Opposite e) edge' opp))
      ]
      | inr at_end ↦
          let edge' = some-injective (sym at_i ∙ ap (get_elem? all) at_end ∙ at_n) in
          elim (split_bound j n hj) [
            | inl less_j ↦
                let back = new j e' less_j at_j (
                  subst (Opposite e') edge' (record {
                    one_neighbor = sym opp.one_neighbor;
                    directions = same_direction_sym e.direction e'.direction opp.directions;
                  })) in
                elim back [ inl c ↦ inr c | inr c ↦ inl (subst (Cleared st'.keep) (sym at_end) c) ]
            | inr at_end' ↦
                let same_edge =
                  some-injective (sym at_i ∙ ap (get_elem? all) (at_end ∙ sym at_end') ∙ at_j) in
                let no : same_direction e.direction e.direction ≡ false =
                  subst (λ (x : Edge). same_direction e.direction x.direction ≡ false)
                    (sym same_edge) opp.directions in
                let yes_same = same_direction_refl e.direction in cc
          ]
    ]
