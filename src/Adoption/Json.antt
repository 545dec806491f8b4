-- ===== src/Adoption/Json.antt =====
-- internal/adoption/json.go and the first half of response.go: the bounds on a controller's JSON and
-- the reading of single values. The decoder of encoding/json is a parameter.
use unifi_stubd.Prelude.{
  ℕ, ◌+◌, ◌-◌, ◌*◌, Bool, true, false, ◌||◌, Option, none, some, List, [], ◌∷◌, length, ltb, ◌==◌,
  if◌then◌else◌, Result, ok, err, reject, ◌>>◌,
}
use unifi_stubd.Prelude.Int.{ℤ, pos}
use unifi_stubd.Prelude.Text.{Bytes, codes, same, is_empty, trim_space}

-- The tokens of `Decoder.Token`, as far as their bounds depend on them.
pub data Token : Type 0 where
  opening : Token
  closing : Token
  other : Token

-- The value that a text begins with: an object by its members, as far as they can be read, and
-- whether it is read to its end.
pub data Top : Type 0 where
  no_object : Top
  object : List (Bytes × Bytes) → Bool → Top

-- What the program uses of encoding/json. `tokens` gives the tokens up to the end or an error, and
-- whether it is the end. `Unmarshal` of `null` leaves a Go value as it is, so the decoders return
-- `none` for an error and `some none` for `null`. The maps of objects hold each key once.
pub record Json : Type 0 where
  pub tokens : Bytes → List Token × Bool
  pub top : Bytes → Option Top
  pub string_value : Bytes → Option (Option Bytes)
  pub bool_value : Bytes → Option (Option Bool)
  pub int_value : Bytes → Option (Option ℤ)
  pub array_value : Bytes → Option (Option (List Bytes))
  pub object_value : Bytes → Option (Option (List (Bytes × Bytes)))

pub data JsonError : Type 0 where
  too_many_bytes : JsonError
  too_many_tokens : JsonError
  too_deep : JsonError
  syntax : JsonError
  multiple_values : JsonError
  empty_input : JsonError
  duplicate_key : JsonError

-- `errors.As(err, &limitErr)`.
abbrev pub is_limit : JsonError → Bool
is_limit JsonError.too_many_bytes = true
is_limit JsonError.too_many_tokens = true
is_limit JsonError.too_deep = true
is_limit _ = false

abbrev pub max_controller_json_bytes : ℕ
max_controller_json_bytes = 4 * 1024 * 1024

abbrev pub max_controller_json_depth : ℕ
max_controller_json_depth = 64

abbrev pub max_controller_json_tokens : ℕ
max_controller_json_tokens = 65536

abbrev pub next_depth : Token → ℕ → ℕ
next_depth Token.opening depth = depth + 1
next_depth Token.closing depth = depth - 1
next_depth Token.other depth = depth

-- Whether a token completes the root.
abbrev pub completes : Token → ℕ → Bool
completes Token.opening depth = false
completes Token.closing depth = depth == 1
completes Token.other depth = depth == 0

-- The loop of `validateJSONLimits`: the depth, the number of tokens and whether the root is complete.
-- The decoder returns no closing delimiter at depth 0.
unfoldable pub limit_loop : Bool → ℕ → ℕ → Bool → List Token → Result JsonError (Unit {0})
limit_loop ended depth count complete [] =
    if ended then (if complete then ok tt else err JsonError.empty_input) else err JsonError.syntax
limit_loop ended depth count complete (t ∷ ts) =
    let rest = limit_loop ended (next_depth t depth) (count + 1) (completes t depth) ts in
    if complete
    then err JsonError.multiple_values
    else if ltb max_controller_json_tokens (count + 1)
    then err JsonError.too_many_tokens
    else if ltb max_controller_json_depth (next_depth t depth)
    then err JsonError.too_deep
    else rest

unfoldable pub has_key : Bytes → List (Bytes × Bytes) → Bool
has_key key [] = false
has_key key ((k, v) ∷ ms) = same k key || has_key key ms

-- A raw message of a map, which is empty for a key that is missing.
unfoldable pub member : Bytes → List (Bytes × Bytes) → Bytes
member key [] = []
member key ((k, v) ∷ ms) = if same k key then v else member key ms

-- The loop over the members of the top-level object, with the map so far.
unfoldable pub unique_members :
    List (Bytes × Bytes) → Bool → List (Bytes × Bytes) → Result JsonError (List (Bytes × Bytes))
unique_members raw complete [] = if complete then ok raw else err JsonError.syntax
unique_members raw complete ((k, v) ∷ ms) =
    let rest = unique_members ((k, v) ∷ raw) complete ms in
    if has_key k raw then err JsonError.duplicate_key else rest

module _ (json : Json) where
  -- `validateJSONLimits`.
  unfoldable pub validate_json_limits : Bytes → Result JsonError (Unit {0})
  validate_json_limits text = do
    reject (ltb max_controller_json_bytes (length text)) JsonError.too_many_bytes
    limit_loop (json.tokens text).1 0 0 false (json.tokens text).0

  abbrev unique_object : Option Top → Result JsonError (Option (List (Bytes × Bytes)))
  unique_object none = err JsonError.syntax
  unique_object (some Top.no_object) = ok none
  unique_object (some (Top.object ms complete)) = elim (unique_members [] complete ms) [
    | ok raw ↦ ok (some raw)
    | err e ↦ err e
  ]

  -- `decodeUniqueTopLevelObject`.
  unfoldable pub decode_unique_top_level_object :
      Bytes → Result JsonError (Option (List (Bytes × Bytes)))
  decode_unique_top_level_object text = unique_object (json.top text)

  -- A Go string that is decoded into: the empty one after `null`.
  unfoldable pub text_value : Bytes → Option Bytes
  text_value raw = elim (json.string_value raw) [
    | none ↦ none
    | some none ↦ some []
    | some (some s) ↦ some s
  ]

  -- `jsonString`.
  unfoldable pub json_string : Bytes → Bytes
  json_string raw =
      if is_empty raw then [] else elim (text_value raw) [ none ↦ [] | some s ↦ trim_space s ]

  -- `jsonInt`.
  unfoldable pub json_int : Bytes → ℤ
  json_int raw =
      if is_empty raw
      then pos 0
      else elim (json.int_value raw) [ none ↦ pos 0 | some none ↦ pos 0 | some (some n) ↦ n ]

  -- `jsonBool`.
  unfoldable pub json_bool : Bytes → Bool
  json_bool raw = elim (json.bool_value raw) [
    | none ↦ false
    | some none ↦ false
    | some (some b) ↦ b
  ]

  -- The loop of `topLevelJSONKeys` over the two fixed names.
  unfoldable pub present_keys : List Bytes → List (Bytes × Bytes) → List Bytes
  present_keys [] ms = []
  present_keys (k ∷ ks) ms =
      let rest = present_keys ks ms in if has_key k ms then k ∷ rest else rest

  -- `topLevelJSONKeys`.
  unfoldable pub top_level_json_keys : Bytes → List Bytes
  top_level_json_keys text = elim (json.object_value text) [
    | none ↦ []
    | some none ↦ []
    | some (some ms) ↦ present_keys (codes "ubntconf" ∷ codes "udapi" ∷ []) ms
  ]

  -- The metadata of a provisioning text that is not empty.
  unfoldable pub summarize_payload : Bytes → Result JsonError (ℕ × List Bytes)
  summarize_payload payload = elim (validate_json_limits payload) [
    | ok _ ↦ ok (length payload, top_level_json_keys payload)
    | err e ↦ if is_limit e then err e else ok (length payload, [])
  ]

  -- `summarizeSystemCFG`.
  unfoldable pub summarize_system_cfg : Bytes → Result JsonError (ℕ × List Bytes)
  summarize_system_cfg raw =
      if is_empty (trim_space raw) then ok (0, []) else elim (text_value (trim_space raw)) [
        | none ↦ summarize_payload (trim_space raw)
        | some text ↦ summarize_payload (trim_space text)
      ]
