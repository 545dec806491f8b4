-- ===== src/Adoption/Blocks.antt =====
-- internal/adoption/content_blocks.go and blocks.go: the lists of blocks that a controller asks for.
pub mod Last
use unifi_stubd.Prelude.{
  ℕ, Bool, true, false, not, ◌&&◌, ◌||◌, Option, none, some, List, [], ◌∷◌, ◌++◌, length, ltb,
  if◌then◌else◌, Result, ok, err, reject, ◌>>◌, ◌>>=◌,
}
use unifi_stubd.Prelude.Text.{Bytes, codes, same, is_empty}
use unifi_stubd.Prelude.Text.Utf8.{runes, any_control}
use unifi_stubd.Adoption.Json.{Json, text_value, member}

abbrev pub max_controller_block_count : ℕ
max_controller_block_count = 256

abbrev pub max_controller_block_name : ℕ
max_controller_block_name = 128

pub data BlockError : Type 0 where
  too_many_blocks : BlockError
  name_too_long : BlockError
  invalid_utf8 : BlockError
  control_character : BlockError

pub record ContentBlockItem : Type 0 where
  pub string_id : Bytes
  pub object_id : Bytes

-- `validateContentBlockID`.
unfoldable pub validate_content_block_id : Bytes → Result BlockError (Unit {0})
validate_content_block_id id = do
  reject (ltb max_controller_block_name (length id)) BlockError.name_too_long
  elim (runes id) [
    | none ↦ err BlockError.invalid_utf8
    | some rs ↦ reject (any_control rs) BlockError.control_character
  ]

-- The identifier of an item and whether it stands as a string.
unfoldable pub item_id : ContentBlockItem → Bytes × Bool
item_id i = if is_empty i.string_id then (i.object_id, false) else (i.string_id, true)

-- The map `isString`, with the order in which its keys came.
unfoldable pub mark : Bytes → Bool → List (Bytes × Bool) → List (Bytes × Bool)
mark id value [] = (id, value) ∷ []
mark id value ((k, b) ∷ ms) =
    let rest = mark id value ms in if same k id then (k, value) ∷ ms else (k, b) ∷ rest

-- The first loop of `jsonContentBlockStringIDs`.
unfoldable pub marks : List (Bytes × Bool) → List ContentBlockItem → List (Bytes × Bool)
marks ms [] = ms
marks ms (i ∷ is) = let id = item_id i in marks (if is_empty id.0 then ms else mark id.0 id.1 ms) is

-- And the second one.
unfoldable pub marked : List (Bytes × Bool) → List Bytes
marked [] = []
marked ((id, b) ∷ ms) = let rest = marked ms in if b then id ∷ rest else rest

-- `containsBlock`.
unfoldable pub contains_block : List Bytes → Bytes → Bool
contains_block [] name = false
contains_block (v ∷ vs) name = same v name || contains_block vs name

-- The loop of `jsonContentBlockIDs`; what has been seen is what has been taken, in reverse.
unfoldable pub inventory : List Bytes → List ContentBlockItem → List Bytes
inventory seen [] = []
inventory seen (i ∷ is) =
    let id = (item_id i).0 in
    let skipped = is_empty id || contains_block seen id in
    let rest = inventory (if skipped then seen else id ∷ seen) is in
    if skipped then rest else id ∷ rest

module _ (json : Json) where
  -- One element of the array, which may leave no item.
  unfoldable pub object_item : Option Bytes → Result BlockError (List ContentBlockItem)
  object_item none = ok []
  object_item (some id) =
      if is_empty id
      then ok []
      else do validate_content_block_id id; ok (record { string_id = []; object_id = id } ∷ [])

  unfoldable pub content_block_item : Bytes → Result BlockError (List ContentBlockItem)
  content_block_item raw = elim (text_value json raw) [
    | some id ↦ do validate_content_block_id id; ok (record { string_id = id; object_id = [] } ∷ [])
    | none ↦ elim (json.object_value raw) [
      | none ↦ ok []
      | some none ↦ ok []
      | some (some ms) ↦ object_item (text_value json (member (codes "id") ms))
    ]
  ]

  unfoldable pub content_block_items : List Bytes → Result BlockError (List ContentBlockItem)
  content_block_items [] = ok []
  content_block_items (raw ∷ raws) = do
    here ← content_block_item raw
    rest ← content_block_items raws
    ok (here ++ rest)

  -- `jsonContentBlockItems`.
  unfoldable pub json_content_block_items : Bytes → Result BlockError (List ContentBlockItem)
  json_content_block_items raw =
      if is_empty raw || same raw (codes "null") then ok [] else elim (json.array_value raw) [
        | none ↦ ok []
        | some none ↦ ok []
        | some (some encoded) ↦ do
          reject (ltb max_controller_block_count (length encoded)) BlockError.too_many_blocks
          content_block_items encoded
      ]

  -- `jsonContentBlockStringIDs`.
  unfoldable pub json_content_block_string_ids : Bytes → Result BlockError (List Bytes)
  json_content_block_string_ids raw = do
    items ← json_content_block_items raw
    ok (marked (marks [] items))

  -- `jsonContentBlockIDs`.
  unfoldable pub json_content_block_ids : Bytes → Result BlockError (List Bytes)
  json_content_block_ids raw = do items ← json_content_block_items raw; ok (inventory [] items)
