-- ===== src/Observe/Apply/Observed.antt =====
-- What the ports are after a snapshot is laid over them.
use mathlib.Core.Path.{subst}
use unifi_stubd.Prelude.{
  ℕ, zero, suc, ◌-◌, ◌+◌, ◌≤◌, ◌<◌, ◌≡◌, ◌⊎◌, refl, sym, ap, ◌∙◌, inl, inr, arith, true, false,
  List, [], ◌∷◌, some, map, length, tests,
}
use unifi_stubd.Prelude.Int.{ℤ, pos, negsuc, pos_part}
use unifi_stubd.Prelude.Maps.{is_empty_map}
use unifi_stubd.Device.{Port}
use unifi_stubd.Observe.{Snapshot}
use unifi_stubd.Observe.Members.{sorted_device_names}
use unifi_stubd.Observe.Overlay.{clear_observed_port_state}
use unifi_stubd.Observe.Apply.{
  change_at, in_range, has_index, without_macs, observed_uplink, access_indexes,
  valid_pinned_port_set, assigned, clear_unused, apply_device_macs, uplink_port_index, uplink_index,
  apply_at, apply_snapshot,
}
use unifi_stubd.Observe.Apply.Tracked.{restored, AllLearned, UpReported, Tracked}
use unifi_stubd.Prelude.{by_branch}
use unifi_stubd.Observe.Apply.Assigned.{assign_members-Tracked}
use unifi_stubd.Observe.Apply.Shown.{with_counters_kept, up-with_counters, enabled_some}

-- Each port has the index of its place.
abbrev pub Numbered : ℕ → List Port → Type 0
Numbered i [] = Unit
Numbered i (p ∷ ps) = (p.index ≡ suc i) × Numbered (suc i) ps

-- A port differs from the one before in its name, interface, media, link, counters and addresses only;
-- its addresses were learned on members that get a port and are not behind the uplink; and it is up
-- only if the source has reported the uplink or a member as up.
pub record IsObserved (s : Snapshot) (o p : Port) : Type 0 where
  pub kept : restored o p ≡ o
  pub learned : AllLearned s p.macs
  pub reported : p.up ≡ true → UpReported s

abbrev pub AllObserved : Snapshot → List Port → List Port → Type 0
AllObserved s [] [] = Unit
AllObserved s [] (p ∷ ps) = ⊥
AllObserved s (o ∷ os) [] = ⊥
AllObserved s (o ∷ os) (p ∷ ps) = IsObserved s o p × AllObserved s os ps

cleared_kept : (o p : Port) → restored o (clear_observed_port_state p) ≡ restored o p
unfolding clear_observed_port_state
cleared_kept o p = refl

module _ (s : Snapshot) where
  cleared-IsObserved :
      (o p : Port) → restored o p ≡ o → IsObserved s o (clear_observed_port_state p)
  unfolding clear_observed_port_state
  cleared-IsObserved o p kept = record {
    kept = cleared_kept o p ∙ kept;
    learned = tt;
    reported = λ h. cc;
  }

  clear_unused-AllObserved :
      (used : List ℕ) (i : ℕ) (os ps : List Port)
      → Tracked s used i os ps
      → AllObserved s os (clear_unused used ps)
  unfolding clear_unused
  clear_unused-AllObserved used i [] [] tr = tt
  clear_unused-AllObserved used i [] (p ∷ ps) tr = absurd tr
  clear_unused-AllObserved used i (o ∷ os) [] tr = absurd tr
  clear_unused-AllObserved used i (o ∷ os) (p ∷ ps) (a, rest) =
      let same : p.index ≡ suc i = ap (λ (q : Port). q.index) a.kept ∙ a.place in
      (
        by_branch (IsObserved s o) (has_index p.index used) p (clear_observed_port_state p)
            (λ hit. record {
              kept = a.kept;
              learned = a.learned;
              reported = λ up. a.shown (subst (λ (n : ℕ). has_index n used ≡ true) same hit) up;
            })
            (λ miss. cleared-IsObserved o p a.kept),
        clear_unused-AllObserved used (suc i) os ps rest,
      )

  alone : (t i : ℕ) → t < i → has_index i (t ∷ []) ≡ true → ⊥
  alone t i less h = grind tests

  -- The other ports before a member is assigned.
  others :
      (t i : ℕ) (ports : List Port)
      → t < suc i
      → Numbered i ports
      → Tracked s (t ∷ []) i ports (map without_macs ports)
  others t i [] less num = tt
  others t i (p ∷ ports) less (here, num) = (
    record {
      kept = refl;
      place = here;
      learned = tt;
      shown = λ h up. absurd (alone t (suc i) less h);
    },
    others t (suc i) ports (omega arith) num,
  )

  not_target : (t k i : ℕ) → t ≡ suc (suc k + i) → has_index (suc i) (t ∷ []) ≡ true → ⊥
  not_target t k i e h = grind tests

  start-Tracked :
      (t k i : ℕ) (ports : List Port)
      → t ≡ suc (k + i)
      → Numbered i ports
      → Tracked s (t ∷ []) i ports (map without_macs (change_at k (observed_uplink s) ports))
  start-Tracked t k i [] e num = tt
  start-Tracked t zero i (p ∷ ports) e (here, num) = (
    record {
      kept = with_counters_kept s.stats p _;
      place = here;
      learned = tt;
      shown = λ h up. inl (enabled_some s.up (sym (up-with_counters s.stats _) ∙ up));
    },
    others t (suc i) ports (omega arith) num,
  )
  start-Tracked t (suc k) i (p ∷ ports) e (here, num) = (
    record {
      kept = refl;
      place = here;
      learned = tt;
      shown = λ h up. absurd (not_target t k i e h);
    },
    start-Tracked t k (suc i) ports (omega arith) num,
  )

uplink_port_index_bounds :
    (i : ℕ) (ports : List Port)
    → Numbered i ports
    → (uplink_port_index ports ≡ 1)
      ⊎ ((i < uplink_port_index ports) × (uplink_port_index ports ≤ i + length ports))
unfolding uplink_port_index
uplink_port_index_bounds i [] num = inl refl
uplink_port_index_bounds i (p ∷ ports) (here, num) =
    by_branch (λ (n : ℕ). (n ≡ 1) ⊎ ((i < n) × (n ≤ i + suc (length ports)))) p.uplink p.index
      (uplink_port_index ports) (λ found. inr (omega (arith, here), omega (arith, here)))
      (λ other. elim (uplink_port_index_bounds (suc i) ports num) [
        | inl one ↦ inl one
        | inr (low, high) ↦ inr (omega (arith, low), omega (arith, high))
      ])

in_range_bounds :
    (index : ℤ) (n : ℕ) → in_range index n ≡ true → (0 < pos_part index) × (pos_part index ≤ n)
in_range_bounds (pos k) n h = grind tests
in_range_bounds (negsuc k) n h = grind tests

-- The uplink is one of the ports.
uplink_index_bounds :
    (s : Snapshot) (p : Port) (ports : List Port)
    → Numbered 0 (p ∷ ports)
    → (0 < uplink_index s (p ∷ ports)) × (uplink_index s (p ∷ ports) ≤ suc (length ports))
uplink_index_bounds s p ports num =
    by_branch (λ (n : ℕ). (0 < n) × (n ≤ suc (length ports)))
      (in_range s.uplink_port_index (length (p ∷ ports))) (pos_part s.uplink_port_index)
      (uplink_port_index (p ∷ ports))
      (λ given. in_range_bounds s.uplink_port_index (suc (length ports)) given)
      (λ searched. elim (uplink_port_index_bounds 0 (p ∷ ports) num) [
        | inl one ↦ (omega (arith, one), omega (arith, one))
        | inr (low, high) ↦ (omega (arith, low), omega (arith, high))
      ])

apply_at-some :
    (s : Snapshot) (index : ℕ) (ports : List Port)
    → 0 < index
    → index ≤ length ports
    → is_empty_map s.device_macs ≡ false
    → apply_at s index ports
      ≡ some (apply_device_macs s index (change_at (index - 1) (observed_uplink s) ports))
apply_at-some s index ports low high learned = grind tests

apply_device_macs-AllObserved :
    (s : Snapshot) (index : ℕ) (ports : List Port)
    → 0 < index
    → Numbered 0 ports
    → AllObserved s ports
        (apply_device_macs s index (change_at (index - 1) (observed_uplink s) ports))
unfolding apply_device_macs
apply_device_macs-AllObserved s index ports low num =
    let out = change_at (index - 1) (observed_uplink s) ports in
    let st = assigned s index out in
    clear_unused-AllObserved s st.used 0 ports st.ports (
      assign_members-Tracked s index (sorted_device_names s.device_macs s.interface s.bridge) ports
        (record {
          ports = map without_macs out;
          free = access_indexes index (valid_pinned_port_set s.member_port_map (length out)) out;
          used = index ∷ [];
        })
        low (start-Tracked s index (index - 1) 0 ports (omega (arith, low)) num))

-- Over ports that are numbered in order, `Apply` does not panic on a snapshot with learned addresses,
-- and gives as many ports, each of which differs from the one before only in its name, interface,
-- media, link, counters and addresses; has only addresses that were learned on a member that gets a
-- port and are not behind the uplink; and is up only if the source reported the uplink or a member up.
pub apply_snapshot-AllObserved :
    (ports : List Port) (s : Snapshot)
    → Numbered 0 ports
    → is_empty_map s.device_macs ≡ false
    → (out : List Port) × (apply_snapshot ports s ≡ some out) × AllObserved s ports out
unfolding apply_snapshot
apply_snapshot-AllObserved [] s num learned = ([], refl, tt)
apply_snapshot-AllObserved (p ∷ ports) s num learned =
    let index = uplink_index s (p ∷ ports) in
    let (low, high) = uplink_index_bounds s p ports num in
    (
      apply_device_macs s index (change_at (index - 1) (observed_uplink s) (p ∷ ports)),
      apply_at-some s index (p ∷ ports) low high learned,
      apply_device_macs-AllObserved s index (p ∷ ports) low num,
    )
