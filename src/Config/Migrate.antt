-- ===== src/Config/Migrate.antt =====
-- internal/config/migrate.go: old names of settings are replaced. An action is data, without its text.
-- `cloneNode` gives an equal node.
pub mod Keeps
use unifi_stubd.Prelude.{
  ◌≡◌, Bool, true, false, not, ◌&&◌, Option, none, some, List, [], ◌∷◌, ◌++◌, Result, ok, err,
  ◌>>=◌, if◌then◌else◌,
}
use unifi_stubd.Prelude.Text.{Bytes, codes, same, is_empty, trim_space}
use unifi_stubd.Config.Yaml.{
  Node, Entries, Yaml, scalar, mapping, opaque, end, mapping_pair, rename_key, set_value,
  remove_mapping_pair, append_mapping_pair,
}

pub data Action : Type 0 where
  moved : Bytes → Bytes → Action
  removed : Bytes → Action

pub data MigrateError : Type 0 where
  bad_document : MigrateError
  not_scalar : Bytes → MigrateError
  not_mapping : Bytes → MigrateError
  different : Bytes → Bytes → MigrateError
  encode_failed : MigrateError
  invalid_result : MigrateError

-- The entries of the root, and `Changed` and `Actions` of `MigrationResult`.
pub record Migration : Type 0 where
  pub root : Entries
  pub changed : Bool
  pub actions : List Action

abbrev pub Step : Type 0
Step = Result MigrateError Migration

abbrev pub changed_to : Migration → Entries → Action → Migration
changed_to m es action = record { root = es; changed = true; actions = m.actions ++ action ∷ [] }

-- The `switch` of `migrateScalarAlias`.
abbrev pub scalar_texts : Bytes → Bytes → Migration → Bytes → Node → Bytes → Step
scalar_texts alias target m alias_text alias_value target_text =
    if is_empty target_text && not (is_empty alias_text)
    then ok (
        changed_to m (remove_mapping_pair alias (set_value target alias_value m.root))
          (Action.moved alias target))
    else if same target_text alias_text
    then ok (changed_to m (remove_mapping_pair alias m.root) (Action.removed alias))
    else err (MigrateError.different alias target)

abbrev pub scalar_target : Bytes → Bytes → Migration → Bytes → Node → Option Node → Step
scalar_target alias target m alias_text alias_value none =
    ok (changed_to m (rename_key alias target m.root) (Action.moved alias target))
scalar_target alias target m alias_text alias_value (some (scalar text)) =
    scalar_texts alias target m alias_text alias_value (trim_space text)
scalar_target alias target m alias_text alias_value (some (mapping es)) =
    err (MigrateError.not_scalar target)
scalar_target alias target m alias_text alias_value (some (opaque text)) =
    err (MigrateError.not_scalar target)

abbrev pub scalar_alias : Bytes → Bytes → Migration → Option Node → Step
scalar_alias alias target m none = ok m
scalar_alias alias target m (some (scalar text)) =
    scalar_target alias target m (trim_space text) (scalar text) (mapping_pair target m.root)
scalar_alias alias target m (some (mapping es)) = err (MigrateError.not_scalar alias)
scalar_alias alias target m (some (opaque text)) = err (MigrateError.not_scalar alias)

-- `migrateScalarAlias`.
unfoldable pub migrate_scalar_alias : Bytes → Bytes → Migration → Step
migrate_scalar_alias alias target m = scalar_alias alias target m (mapping_pair alias m.root)

abbrev pub mode_value : Migration → Option Node → Migration
mode_value m none = m
mode_value m (some (scalar text)) =
    if same (trim_space text) (codes "observe")
    then changed_to m (set_value (codes "operation_mode") (scalar (codes "bridge-observe")) m.root)
        (Action.moved (codes "observe") (codes "bridge-observe"))
    else m
mode_value m (some (mapping es)) = m
mode_value m (some (opaque text)) = m

-- `migrateOperationMode`.
unfoldable pub migrate_operation_mode : Migration → Migration
migrate_operation_mode m = mode_value m (mapping_pair (codes "operation_mode") m.root)

abbrev pub bridge_key : Bytes
bridge_key = codes "bridge_observe"

-- The value moves into the mapping of the bridge, and the old pair goes.
abbrev pub into_bridge : Bytes → Migration → Entries → Action → Migration
into_bridge alias m bridge action =
    changed_to m (remove_mapping_pair alias (set_value bridge_key (mapping bridge) m.root)) action

abbrev pub bridge_target : Bytes → Bytes → Migration → Bytes → Node → Entries → Option Node → Step
bridge_target alias target m alias_text alias_value bridge none = ok (
    into_bridge alias m (append_mapping_pair target alias_value bridge) (Action.moved alias target))
bridge_target alias target m alias_text alias_value bridge (some (scalar text)) =
    let target_text = trim_space text in
    if is_empty target_text
    then ok (into_bridge alias m (set_value target alias_value bridge) (Action.moved alias target))
    else if same target_text alias_text
    then ok (into_bridge alias m bridge (Action.removed alias))
    else err (MigrateError.different alias target)
bridge_target alias target m alias_text alias_value bridge (some (mapping es)) =
    err (MigrateError.not_scalar target)
bridge_target alias target m alias_text alias_value bridge (some (opaque text)) =
    err (MigrateError.not_scalar target)

-- `bridgeObserveNode`: the mapping of the bridge, which is added if it is missing.
abbrev pub with_bridge : Bytes → Bytes → Migration → Bytes → Node → Option Node → Step
with_bridge alias target m alias_text alias_value none =
    bridge_target alias target
      (record m { root = append_mapping_pair bridge_key (mapping end) m.root }) alias_text
      alias_value end none
with_bridge alias target m alias_text alias_value (some (scalar text)) =
    err (MigrateError.not_mapping bridge_key)
with_bridge alias target m alias_text alias_value (some (opaque text)) =
    err (MigrateError.not_mapping bridge_key)
with_bridge alias target m alias_text alias_value (some (mapping bridge)) =
    bridge_target alias target m alias_text alias_value bridge (mapping_pair target bridge)

abbrev pub bridge_alias : Bytes → Bytes → Migration → Option Node → Step
bridge_alias alias target m none = ok m
bridge_alias alias target m (some (scalar text)) =
    let alias_text = trim_space text in
    if is_empty alias_text
    then ok m
    else with_bridge alias target m alias_text (scalar text) (mapping_pair bridge_key m.root)
bridge_alias alias target m (some (mapping es)) = err (MigrateError.not_scalar alias)
bridge_alias alias target m (some (opaque text)) = err (MigrateError.not_scalar alias)

-- `migrateBridgeAlias`.
unfoldable pub migrate_bridge_alias : Bytes → Bytes → Migration → Step
migrate_bridge_alias alias target m = bridge_alias alias target m (mapping_pair alias m.root)

abbrev pub same_bytes : Option Bytes → Option Bytes → Bool
same_bytes none b = false
same_bytes (some a) none = false
same_bytes (some a) (some b) = same a b

abbrev pub root_of : Node → Option Entries
root_of (mapping es) = some es
root_of (scalar text) = none
root_of (opaque text) = none

module _ (yaml : Yaml) where
  -- `sameNode`.
  abbrev pub same_node : Node → Node → Bool
  same_node left right = same_bytes (yaml.marshal left) (yaml.marshal right)

  abbrev pub node_target : Bytes → Bytes → Migration → Node → Option Node → Step
  node_target alias target m alias_value none =
      ok (changed_to m (rename_key alias target m.root) (Action.moved alias target))
  node_target alias target m alias_value (some target_value) =
      if same_node alias_value target_value
      then ok (changed_to m (remove_mapping_pair alias m.root) (Action.removed alias))
      else err (MigrateError.different alias target)

  abbrev pub node_alias : Bytes → Bytes → Migration → Option Node → Step
  node_alias alias target m none = ok m
  node_alias alias target m (some alias_value) =
      node_target alias target m alias_value (mapping_pair target m.root)

  -- `migrateNodeAlias`.
  unfoldable pub migrate_node_alias : Bytes → Bytes → Migration → Step
  migrate_node_alias alias target m = node_alias alias target m (mapping_pair alias m.root)

  -- The steps of `MigrateData`, in their order.
  unfoldable pub migrate_root : Entries → Step
  migrate_root root = do
    controller ←
        migrate_scalar_alias (codes "controller") (codes "controller_url")
          (record { root = root; changed = false; actions = [] })
    inform ← migrate_scalar_alias (codes "inform_url") (codes "controller_url") controller
    bridge ←
        migrate_bridge_alias (codes "observe_bridge") (codes "bridge")
          (migrate_operation_mode inform)
    interface ← migrate_bridge_alias (codes "observe_interface") (codes "uplink_interface") bridge
    migrate_node_alias (codes "port_map") (codes "port_mappings") interface

  abbrev pub encoded : Migration → Option Bytes → Result MigrateError (Bytes × List Action)
  encoded m none = err MigrateError.encode_failed
  encoded m (some out) =
      if not (yaml.accepts out) then err MigrateError.invalid_result else ok (out, m.actions)

  abbrev pub written : Bytes → Migration → Result MigrateError (Bytes × List Action)
  written bytes m =
      if not m.changed then ok (bytes, m.actions) else encoded m (yaml.encode (mapping m.root))

  abbrev pub migrated : Bytes → Option Entries → Result MigrateError (Bytes × List Action)
  migrated bytes none = err MigrateError.bad_document
  migrated bytes (some root) = migrate_root root >>= written bytes

  abbrev pub parsed_root : Option Node → Option Entries
  parsed_root none = none
  parsed_root (some n) = root_of n

  -- `MigrateData`.
  unfoldable pub migrate_data : Bytes → Result MigrateError (Bytes × List Action)
  migrate_data bytes = migrated bytes (parsed_root (yaml.parse bytes))
