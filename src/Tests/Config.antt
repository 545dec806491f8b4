-- ===== src/Tests/Config.antt =====
-- Runs of the migration of a configuration.
use unifi_stubd.Prelude.{◌≡◌, refl, true, Option, none, some, [], ◌∷◌, ok}
use Prim.Native.String.{String}
use unifi_stubd.Prelude.Text.{Bytes, codes, same, trim_space}
use unifi_stubd.Config.Yaml.{
  Node, Entries, Yaml, scalar, mapping, opaque, end, entry, mapping_pair, rename_key, set_value,
  remove_mapping_pair, append_mapping_pair,
}
use unifi_stubd.Config.Migrate.{
  Action, Migration, migrate_scalar_alias, migrate_operation_mode, migrate_bridge_alias,
  migrate_node_alias, migrate_root,
}
use unifi_stubd.Config.Migrate.Keeps.{LacksKey, migrated_keys, migrate_root-Keeps}

abbrev plain_text : Node → Option Bytes
plain_text (scalar text) = some text
plain_text (mapping es) = none
plain_text (opaque text) = some text

-- A package that reads nothing.
abbrev package_stub : Yaml
package_stub = record {
  parse = λ s. none;
  encode = λ n. none;
  marshal = plain_text;
  accepts = λ s. true;
}

abbrev setting : String → String → Entries → Entries
setting key value = entry (scalar (codes key)) (scalar (codes value))

abbrev old_config : Entries
old_config = setting "inform_url" "http://c:8080" (
    setting "name" "switch"
      (setting "operation_mode" "observe" (setting "observe_bridge" "br0" end)))

abbrev new_config : Entries
new_config = setting "controller_url" "http://c:8080" (
    setting "name" "switch" (
      setting "operation_mode" "bridge-observe"
        (entry (scalar (codes "bridge_observe")) (mapping (setting "bridge" "br0" end)) end)))

abbrev new_migration : Migration
new_migration = record {
  root = new_config;
  changed = true;
  actions =
      Action.moved (codes "inform_url") (codes "controller_url")
      ∷ Action.moved (codes "observe") (codes "bridge-observe")
      ∷ Action.moved (codes "observe_bridge") (codes "bridge")
      ∷ [];
}

old_migrated : migrate_root package_stub old_config ≡ ok new_migration
unfolding migrate_root migrate_scalar_alias migrate_operation_mode migrate_bridge_alias
    migrate_node_alias mapping_pair rename_key set_value remove_mapping_pair append_mapping_pair
    same trim_space
old_migrated = refl

name_apart : LacksKey (codes "name") migrated_keys
unfolding same
name_apart = (refl, (refl, (refl, (refl, (refl, (refl, (refl, (refl, (refl, tt)))))))))

migrate_root-Keeps_example :
    mapping_pair (codes "name") new_config ≡ mapping_pair (codes "name") old_config
migrate_root-Keeps_example =
    migrate_root-Keeps package_stub old_config new_migration (codes "name") name_apart old_migrated
