-- ===== src/Config/Migrate/Keeps.antt =====
-- A migration leaves the settings that it does not know alone.
use mathlib.Core.Path.{subst}
use unifi_stubd.Prelude.{
  ◌≡◌, refl, sym, ◌∙◌, true, false, not, ◌&&◌, Option, none, some, inl, inr, List, [], ◌∷◌, ok, err,
  bind-eq-ok, ok-injective, Bool-cases, then_branch, else_branch,
}
use unifi_stubd.Prelude.Text.{Bytes, codes, same, same_iff, is_empty, trim_space}
use unifi_stubd.Config.Yaml.{
  Node, Entries, Yaml, scalar, mapping, opaque, end, entry, node_value, is_key, mapping_pair,
  rename_key, set_value, remove_mapping_pair, append_mapping_pair,
}
use unifi_stubd.Config.Migrate.{
  Action, Migration, Step, changed_to, scalar_texts, scalar_target, scalar_alias,
  migrate_scalar_alias, mode_value, migrate_operation_mode, bridge_key, into_bridge, bridge_target,
  with_bridge, bridge_alias, migrate_bridge_alias, same_node, node_target, node_alias,
  migrate_node_alias, migrate_root,
}

-- A key that is not looked for.
other_key :
    (k : Node) (key q : Bytes) → same key q ≡ false → is_key k key ≡ true → is_key k q ≡ false
other_key k key q apart h =
    let text = (same_iff (node_value k) key).0 h in
    subst (λ (v : Bytes). same v q ≡ false) (sym text) apart

module _ (q : Bytes) where
  rename_key-keeps :
      (key target : Bytes) (es : Entries)
      → same key q ≡ false
      → same target q ≡ false
      → mapping_pair q (rename_key key target es) ≡ mapping_pair q es
  unfolding mapping_pair rename_key
  rename_key-keeps key target end h t = refl
  rename_key-keeps key target (entry k v es) h t = elim (Bool-cases (is_key k key)) [
    | inl found ↦ rw (found, t, other_key k key q h found) refl
    | inr other ↦ rw (other, rename_key-keeps key target es h t) refl
  ]

  set_value-keeps :
      (key : Bytes) (value : Node) (es : Entries)
      → same key q ≡ false
      → mapping_pair q (set_value key value es) ≡ mapping_pair q es
  unfolding mapping_pair set_value
  set_value-keeps key value end h = refl
  set_value-keeps key value (entry k v es) h = elim (Bool-cases (is_key k key)) [
    | inl found ↦ rw (found, other_key k key q h found) refl
    | inr other ↦ rw (other, set_value-keeps key value es h) refl
  ]

  remove_mapping_pair-keeps :
      (key : Bytes) (es : Entries)
      → same key q ≡ false
      → mapping_pair q (remove_mapping_pair key es) ≡ mapping_pair q es
  unfolding mapping_pair remove_mapping_pair
  remove_mapping_pair-keeps key end h = refl
  remove_mapping_pair-keeps key (entry k v es) h = elim (Bool-cases (is_key k key)) [
    | inl found ↦ rw (found, other_key k key q h found) refl
    | inr other ↦ rw (other, remove_mapping_pair-keeps key es h) refl
  ]

  append_mapping_pair-keeps :
      (key : Bytes) (value : Node) (es : Entries)
      → same key q ≡ false
      → mapping_pair q (append_mapping_pair key value es) ≡ mapping_pair q es
  unfolding mapping_pair append_mapping_pair
  append_mapping_pair-keeps key value end h = rw h refl
  append_mapping_pair-keeps key value (entry k v es) h =
      rw (append_mapping_pair-keeps key value es h) refl

  -- The setting is as it was.
  abbrev Keeps : Migration → Migration → Type 0
  Keeps m m' = mapping_pair q m'.root ≡ mapping_pair q m.root

  -- A step that succeeds changes the entries to others that keep the setting.
  Keeps-ok :
      (m m' : Migration) (es : Entries) (action : Action)
      → mapping_pair q es ≡ mapping_pair q m.root
      → ◌≡◌ {A = Step} (ok (changed_to m es action)) (ok m')
      → Keeps m m'
  Keeps-ok m m' es action h e = subst (Keeps m) (ok-injective e) h

  Keeps-same : (m m' : Migration) → ◌≡◌ {A = Step} (ok m) (ok m') → Keeps m m'
  Keeps-same m m' e = subst (Keeps m) (ok-injective e) refl

  module _ (alias target : Bytes) (h : same alias q ≡ false) (t : same target q ≡ false) where
    scalar_texts-Keeps :
        (m m' : Migration) (alias_text : Bytes) (alias_value : Node) (target_text : Bytes)
        → scalar_texts alias target m alias_text alias_value target_text ≡ ok m'
        → Keeps m m'
    scalar_texts-Keeps m m' alias_text alias_value target_text e =
        elim (Bool-cases (is_empty target_text && not (is_empty alias_text))) [
          | inl blank ↦
              Keeps-ok m m' _ _
                (remove_mapping_pair-keeps alias (set_value target alias_value m.root) h
                  ∙ set_value-keeps target alias_value m.root t)
                (then_branch _ _ _ blank e)
          | inr given ↦
              let e1 = else_branch _ _ _ given e in
              elim (Bool-cases (same target_text alias_text)) [
                | inl equal ↦
                    Keeps-ok m m' _ _ (remove_mapping_pair-keeps alias m.root h)
                      (then_branch _ _ _ equal e1)
                | inr different ↦ let no : err _ ≡ ok m' = else_branch _ _ _ different e1 in cc
              ]
        ]

    scalar_target-Keeps :
        (m m' : Migration) (alias_text : Bytes) (alias_value : Node) (found : Option Node)
        → scalar_target alias target m alias_text alias_value found ≡ ok m'
        → Keeps m m'
    scalar_target-Keeps m m' alias_text alias_value none e =
        Keeps-ok m m' _ _ (rename_key-keeps alias target m.root h t) e
    scalar_target-Keeps m m' alias_text alias_value (some (scalar text)) e =
        scalar_texts-Keeps m m' alias_text alias_value (trim_space text) e
    scalar_target-Keeps m m' alias_text alias_value (some (mapping es)) e = cc
    scalar_target-Keeps m m' alias_text alias_value (some (opaque text)) e = cc

    scalar_alias-Keeps :
        (m m' : Migration) (found : Option Node)
        → scalar_alias alias target m found ≡ ok m'
        → Keeps m m'
    scalar_alias-Keeps m m' none e = Keeps-same m m' e
    scalar_alias-Keeps m m' (some (scalar text)) e =
        scalar_target-Keeps m m' (trim_space text) (scalar text) (mapping_pair target m.root) e
    scalar_alias-Keeps m m' (some (mapping es)) e = cc
    scalar_alias-Keeps m m' (some (opaque text)) e = cc

    node_alias-Keeps :
        (yaml : Yaml) (m m' : Migration) (alias_found target_found : Option Node)
        → mapping_pair target m.root ≡ target_found
        → node_alias yaml alias target m alias_found ≡ ok m'
        → Keeps m m'
    node_alias-Keeps yaml m m' none found f e = Keeps-same m m' e
    node_alias-Keeps yaml m m' (some a) none f e =
        Keeps-ok m m' _ _ (rename_key-keeps alias target m.root h t) (rw f at e)
    node_alias-Keeps yaml m m' (some a) (some b) f e =
        let e1 : node_target yaml alias target m a (some b) ≡ ok m' = rw f at e in
        elim (Bool-cases (same_node yaml a b)) [
          | inl equal ↦
              Keeps-ok m m' _ _ (remove_mapping_pair-keeps alias m.root h)
                (then_branch _ _ _ equal e1)
          | inr different ↦ let no : err _ ≡ ok m' = else_branch _ _ _ different e1 in cc
        ]

  module _ (alias target : Bytes) (h : same alias q ≡ false) (b : same bridge_key q ≡ false) where
    into_bridge-Keeps :
        (m m' : Migration) (bridge : Entries) (action : Action)
        → ◌≡◌ {A = Step} (ok (into_bridge alias m bridge action)) (ok m')
        → Keeps m m'
    into_bridge-Keeps m m' bridge action e =
        Keeps-ok m m' _ _
          (remove_mapping_pair-keeps alias (set_value bridge_key (mapping bridge) m.root) h
            ∙ set_value-keeps bridge_key (mapping bridge) m.root b)
          e

    bridge_target-Keeps :
        (m m' : Migration) (alias_text : Bytes) (alias_value : Node) (bridge : Entries)
        (found : Option Node)
        → bridge_target alias target m alias_text alias_value bridge found ≡ ok m'
        → Keeps m m'
    bridge_target-Keeps m m' alias_text alias_value bridge none e = into_bridge-Keeps m m' _ _ e
    bridge_target-Keeps m m' alias_text alias_value bridge (some (scalar text)) e =
        elim (Bool-cases (is_empty (trim_space text))) [
          | inl blank ↦ into_bridge-Keeps m m' _ _ (then_branch _ _ _ blank e)
          | inr given ↦
              let e1 = else_branch _ _ _ given e in
              elim (Bool-cases (same (trim_space text) alias_text)) [
                | inl equal ↦ into_bridge-Keeps m m' bridge _ (then_branch _ _ _ equal e1)
                | inr different ↦ let no : err _ ≡ ok m' = else_branch _ _ _ different e1 in cc
              ]
        ]
    bridge_target-Keeps m m' alias_text alias_value bridge (some (mapping es)) e = cc
    bridge_target-Keeps m m' alias_text alias_value bridge (some (opaque text)) e = cc

    with_bridge-Keeps :
        (m m' : Migration) (alias_text : Bytes) (alias_value : Node) (found : Option Node)
        → with_bridge alias target m alias_text alias_value found ≡ ok m'
        → Keeps m m'
    with_bridge-Keeps m m' alias_text alias_value none e =
        bridge_target-Keeps
          (record m { root = append_mapping_pair bridge_key (mapping end) m.root }) m' alias_text
          alias_value end none e
        ∙ append_mapping_pair-keeps bridge_key (mapping end) m.root b
    with_bridge-Keeps m m' alias_text alias_value (some (scalar text)) e = cc
    with_bridge-Keeps m m' alias_text alias_value (some (opaque text)) e = cc
    with_bridge-Keeps m m' alias_text alias_value (some (mapping bridge)) e =
        bridge_target-Keeps m m' alias_text alias_value bridge (mapping_pair target bridge) e

    bridge_alias-Keeps :
        (m m' : Migration) (found : Option Node)
        → bridge_alias alias target m found ≡ ok m'
        → Keeps m m'
    bridge_alias-Keeps m m' none e = Keeps-same m m' e
    bridge_alias-Keeps m m' (some (scalar text)) e =
        elim (Bool-cases (is_empty (trim_space text))) [
          | inl blank ↦ Keeps-same m m' (then_branch _ _ _ blank e)
          | inr given ↦
              with_bridge-Keeps m m' (trim_space text) (scalar text)
                (mapping_pair bridge_key m.root) (else_branch _ _ _ given e)
        ]
    bridge_alias-Keeps m m' (some (mapping es)) e = cc
    bridge_alias-Keeps m m' (some (opaque text)) e = cc

  mode_value-Keeps :
      (m : Migration) (found : Option Node)
      → same (codes "operation_mode") q ≡ false
      → Keeps m (mode_value m found)
  mode_value-Keeps m none h = refl
  mode_value-Keeps m (some (scalar text)) h =
      elim (Bool-cases (same (trim_space text) (codes "observe"))) [
        | inl old ↦
            rw old
              (set_value-keeps (codes "operation_mode") (scalar (codes "bridge-observe")) m.root h)
        | inr other ↦ rw other refl
      ]
  mode_value-Keeps m (some (mapping es)) h = refl
  mode_value-Keeps m (some (opaque text)) h = refl

-- The names of the settings that a migration reads or writes.
abbrev pub migrated_keys : List Bytes
migrated_keys =
    codes "controller"
    ∷ codes "inform_url"
    ∷ codes "controller_url"
    ∷ codes "operation_mode"
    ∷ codes "observe_bridge"
    ∷ codes "observe_interface"
    ∷ bridge_key
    ∷ codes "port_map"
    ∷ codes "port_mappings"
    ∷ []

abbrev pub LacksKey : Bytes → List Bytes → Type 0
LacksKey q [] = Unit
LacksKey q (key ∷ keys) = (same key q ≡ false) × LacksKey q keys

-- A migration that succeeds leaves every setting alone that is not one of the nine which it reads or
-- writes: a look-up finds the value that it found before, or still finds none.
pub migrate_root-Keeps :
    (yaml : Yaml) (root : Entries) (m : Migration) (q : Bytes)
    → LacksKey q migrated_keys
    → migrate_root yaml root ≡ ok m
    → mapping_pair q m.root ≡ mapping_pair q root
unfolding migrate_root migrate_scalar_alias migrate_operation_mode migrate_bridge_alias
    migrate_node_alias
migrate_root-Keeps yaml root m q
      (controller, (inform, (url, (mode, (bridge, (interface, (observe, (map, (mappings, _)))))))))
      e =
    let start : Migration = record { root = root; changed = false; actions = [] } in
    let (m1, e1, r1) =
      bind-eq-ok (migrate_scalar_alias (codes "controller") (codes "controller_url") start) _ e in
    let (m2, e2, r2) =
      bind-eq-ok (migrate_scalar_alias (codes "inform_url") (codes "controller_url") m1) _ r1 in
    let m3 = migrate_operation_mode m2 in
    let (m4, e4, r4) =
      bind-eq-ok (migrate_bridge_alias (codes "observe_bridge") (codes "bridge") m3) _ r2 in
    let (m5, e5, r5) =
      bind-eq-ok (migrate_bridge_alias (codes "observe_interface") (codes "uplink_interface") m4) _
        r4 in
    node_alias-Keeps q (codes "port_map") (codes "port_mappings") map mappings yaml m5 m _ _ refl r5
    ∙ bridge_alias-Keeps q (codes "observe_interface") (codes "uplink_interface") interface observe
        m4 m5 _ e5
    ∙ bridge_alias-Keeps q (codes "observe_bridge") (codes "bridge") bridge observe m3 m4 _ e4
    ∙ mode_value-Keeps q m2 _ mode
    ∙ scalar_alias-Keeps q (codes "inform_url") (codes "controller_url") inform url m1 m2 _ e2
    ∙ scalar_alias-Keeps q (codes "controller") (codes "controller_url") controller url start m1 _
        e1
