-- ===== src/Observe/Apply/Assigned.antt =====
-- What the assignment of the members of a bridge keeps of the ports.
use mathlib.Core.Path.{subst}
use unifi_stubd.Prelude.{true-false}
use unifi_stubd.Prelude.{by_branch}
use unifi_stubd.Prelude.{
  ℕ, ◌-◌, ◌<◌, ◌≡◌, refl, sym, ap, ◌∙◌, inl, inr, arith, Bool, true, false, ◌||◌, ◌&&◌, not, List,
  [], ◌∷◌, length, if◌then◌else◌, tests,
}
use unifi_stubd.Prelude.Text.{Bytes, is_empty, trim_space}
use unifi_stubd.Prelude.Maps.{lookup}
use unifi_stubd.Device.{MacTableEntry, Port}
use unifi_stubd.Observe.{Snapshot}
use unifi_stubd.Observe.Classify.{member_role}
use unifi_stubd.Observe.Members.{number_or_zero}
use unifi_stubd.Observe.Macs.{
  RemoteMacs, normalized_mac_key, is_remote, local_entries, filter_remote_mac_entries, is_left_out,
  leads_upstream, entries_of,
}
use unifi_stubd.Observe.Apply.{
  place_uplink, place_access, Assignment, uplink_member, access_member, remote_of, chosen_index,
  or_uplink, place, no_entries, assign_member, assign_members,
}
use unifi_stubd.Observe.Apply.Tracked.{In, AllLearned, Tracked, change_at-Tracked}
use unifi_stubd.Observe.Apply.Shown.{uplink_member-Shows, access_member-Shows}

or_false : (a b : Bool) → (a || b) ≡ false → b ≡ false
or_false true b h = cc
or_false false b h = h

nothing_remote : (b : Bool) → (b && false) ≡ false
nothing_remote true = refl
nothing_remote false = refl

local_of_empty : (es : List MacTableEntry) → local_entries [] es ≡ es
unfolding is_remote
local_of_empty [] = refl
local_of_empty (e ∷ es) =
    by_branch (λ (xs : List MacTableEntry). xs ≡ e ∷ es) (is_remote [] e) (local_entries [] es)
      (e ∷ local_entries [] es)
      (λ far.
        absurd (true-false (sym far ∙ nothing_remote (not (is_empty (normalized_mac_key e.mac))))))
      (λ near. ap (◌∷◌ e) (local_of_empty es))

pub filter_remote_mac_entries_lem :
    (es : List MacTableEntry) (remote : RemoteMacs)
    → filter_remote_mac_entries es remote ≡ local_entries remote es
unfolding filter_remote_mac_entries
filter_remote_mac_entries_lem es [] = sym (local_of_empty es)
filter_remote_mac_entries_lem es (k ∷ ks) = refl

or_uplink_pos : (count uplink index : ℕ) → 0 < uplink → 0 < or_uplink count uplink index
or_uplink_pos count uplink index low = grind tests

module _ (s : Snapshot) where
  learned_from :
      (name : Bytes) (all es : List MacTableEntry)
      → all ≡ entries_of (lookup name s.device_macs)
      → ((e : MacTableEntry) → In e es → In e all)
      → is_left_out (member_role s.member_roles name) ≡ false
      → leads_upstream s.member_roles s.interface name ≡ false
      → AllLearned s (local_entries (remote_of s) es)
  learned_from name all [] here incl kept side = tt
  learned_from name all (e ∷ es) here incl kept side =
      let rest = learned_from name all es here (λ x m. incl x (inr m)) kept side in
      by_branch (AllLearned s) (is_remote (remote_of s) e) (local_entries (remote_of s) es)
        (e ∷ local_entries (remote_of s) es) (λ far. rest)
        (λ near. ((name, subst (In e) here (incl e (inl refl)), kept, side, near), rest))

  filtered_learned :
      (name : Bytes)
      → is_left_out (member_role s.member_roles name) ≡ false
      → leads_upstream s.member_roles s.interface name ≡ false
      → AllLearned s
          (filter_remote_mac_entries (entries_of (lookup name s.device_macs)) (remote_of s))
  filtered_learned name kept side =
      let all = entries_of (lookup name s.device_macs) in
      subst (AllLearned s) (sym (filter_remote_mac_entries_lem all (remote_of s)))
        (learned_from name all all refl (λ e m. m) kept side)

  abbrev pub TrackedBy : List Port → Assignment → Type 0
  TrackedBy os st = Tracked s st.used 0 os st.ports

  place-Tracked :
      (uplink : ℕ) (name : Bytes) (entries : List MacTableEntry) (os : List Port) (st : Assignment)
      (choice : ℕ × List ℕ)
      → 0 < uplink
      → AllLearned s entries
      → TrackedBy os st
      → TrackedBy os (place s uplink name entries st choice)
  place-Tracked uplink name entries os st (chosen, free) low learned tr =
      let index = or_uplink (length st.ports) uplink chosen in
      let positive = or_uplink_pos (length st.ports) uplink chosen low in
      change_at-Tracked s (access_member s uplink name entries index) index (index - 1) 0 st.used os
        st.ports (access_member-Shows s uplink name entries index learned) (omega (arith, positive))
        tr

  assign_member-Tracked :
      (uplink : ℕ) (name : Bytes) (os : List Port) (st : Assignment)
      → 0 < uplink
      → TrackedBy os st
      → TrackedBy os (assign_member s (remote_of s) uplink name st)
  unfolding assign_member
  assign_member-Tracked uplink name os st low tr =
      let entries = entries_of (lookup name s.device_macs) in
      let kept = filter_remote_mac_entries entries (remote_of s) in
      let placed = place_access s uplink name kept st in
      let access = if no_entries kept then st else placed in
      let side = leads_upstream s.member_roles s.interface name in
      let upstream = place_uplink s uplink name st in
      by_branch (TrackedBy os) (no_entries entries || is_left_out (member_role s.member_roles name))
        st (if side then upstream else access) (λ skip. tr)
        (λ shown.
          by_branch (TrackedBy os) side upstream access
            (λ up.
              change_at-Tracked s (uplink_member s name) uplink (uplink - 1) 0 st.used os st.ports
                (uplink_member-Shows s name) (omega (arith, low)) tr)
            (λ down.
              by_branch (TrackedBy os) (no_entries kept) st placed (λ alone. tr)
                (λ left.
                  place-Tracked uplink name kept os st
                    (chosen_index (length st.ports) uplink
                      (number_or_zero (lookup (trim_space name) s.member_port_map)) st.free)
                    low
                    (filtered_learned name
                      (or_false (no_entries entries) (is_left_out (member_role s.member_roles name))
                        shown)
                      down)
                    tr)))

  pub assign_members-Tracked :
      (uplink : ℕ) (names : List Bytes) (os : List Port) (st : Assignment)
      → 0 < uplink
      → TrackedBy os st
      → TrackedBy os (assign_members s (remote_of s) uplink names st)
  unfolding assign_members
  assign_members-Tracked uplink [] os st low tr = tr
  assign_members-Tracked uplink (name ∷ names) os st low tr =
      assign_members-Tracked uplink names os (assign_member s (remote_of s) uplink name st) low
        (assign_member-Tracked uplink name os st low tr)
