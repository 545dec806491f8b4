-- ===== src/Config/Yaml.antt =====
-- gopkg.in/yaml.v3: the nodes that internal/config/migrate.go walks through, without their positions,
-- styles and comments. A mapping holds its keys and values in pairs. A node that an alias shares with
-- its anchor is a node of its own here, so a change of the one is not seen in the other.
use unifi_stubd.Prelude.{Bool, Option, none, some, [], if◌then◌else◌}
use unifi_stubd.Prelude.Text.{Bytes, same}

-- `opaque` stands for a node of another kind, by its marshalled text.
mutual
  pub data Node : Type 0 where
    scalar : Bytes → Node
    mapping : Entries → Node
    opaque : Bytes → Node

  pub data Entries : Type 0 where
    end : Entries
    entry : Node → Node → Entries → Entries

-- What the code takes from the package, and `Decode` of internal/config, which validates a file.
pub record Yaml : Type 0 where
  pub parse : Bytes → Option Node
  pub encode : Node → Option Bytes
  pub marshal : Node → Option Bytes
  pub accepts : Bytes → Bool

-- `Value` of a node.
abbrev pub node_value : Node → Bytes
node_value (scalar text) = text
node_value (mapping es) = []
node_value (opaque text) = []

abbrev pub is_key : Node → Bytes → Bool
is_key k key = same (node_value k) key

-- `mappingPair`: the value of the first pair with a key.
unfoldable pub mapping_pair : Bytes → Entries → Option Node
mapping_pair key end = none
mapping_pair key (entry k v es) =
    let rest = mapping_pair key es in if is_key k key then some v else rest

-- The first key with a text is given another.
unfoldable pub rename_key : Bytes → Bytes → Entries → Entries
rename_key key target end = end
rename_key key target (entry k v es) =
    let rest = rename_key key target es in
    if is_key k key then entry (scalar target) v es else entry k v rest

-- The value of the first pair with a key is replaced.
unfoldable pub set_value : Bytes → Node → Entries → Entries
set_value key value end = end
set_value key value (entry k v es) =
    let rest = set_value key value es in if is_key k key then entry k value es else entry k v rest

-- `removeMappingPair` at the first pair with a key.
unfoldable pub remove_mapping_pair : Bytes → Entries → Entries
remove_mapping_pair key end = end
remove_mapping_pair key (entry k v es) =
    let rest = remove_mapping_pair key es in if is_key k key then es else entry k v rest

-- `appendMappingPair`.
unfoldable pub append_mapping_pair : Bytes → Node → Entries → Entries
append_mapping_pair key value end = entry (scalar key) value end
append_mapping_pair key value (entry k v es) = entry k v (append_mapping_pair key value es)
