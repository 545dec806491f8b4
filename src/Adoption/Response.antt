-- ===== src/Adoption/Response.antt =====
-- internal/adoption/response.go and safety.go: `ParseControllerResponseInfo`, which reduces a
-- controller's answer to a summary that is safe to apply.
pub mod Safe
use unifi_stubd.Prelude.{
  ℕ, Bool, true, false, ◌||◌, Option, none, some, List, [], ◌∷◌, if◌then◌else◌, Result, ok, err,
  reject, wrap_err, ◌>>◌, ◌>>=◌,
}
use unifi_stubd.Prelude.Int.{ℤ, pos}
use unifi_stubd.Prelude.Text.{Bytes, codes, same, is_empty}
use unifi_stubd.Adoption.State
use unifi_stubd.Adoption.Store.{Store, empty_store}
use unifi_stubd.Adoption.Validate.{Url, StoreError}
use unifi_stubd.Adoption.MgmtCfg.{parse_mgmt_cfg}
use unifi_stubd.Adoption.Json.{
  Json, JsonError, has_key, member, validate_json_limits, decode_unique_top_level_object,
  json_string, json_int, json_bool, summarize_system_cfg,
}
use unifi_stubd.Adoption.Blocks.{BlockError, json_content_block_ids, json_content_block_string_ids}
use unifi_stubd.Adoption.ServerTime.{json_string_int64_prefix}

-- The texts that explain a command which is not applied.
pub data Reason : Type 0 where
  no_reason : Reason
  system_cfg_metadata : Reason
  upgrade_status_only : Reason
  safety_policy : Reason

-- The handling of a reset.
pub data Disposition : Type 0 where
  none_yet : Disposition
  applied : Disposition
  already_factory : Disposition
  reset_failed : Disposition

pub record ControllerResponse : Type 0 where
  pub type_name : Bytes
  pub store : Store
  pub has_state_update : Bool
  pub has_mgmt_cfg : Bool
  pub has_system_cfg : Bool
  pub system_cfg_bytes : ℕ
  pub system_cfg_keys : List Bytes
  pub interval_seconds : ℤ
  pub include_blocks : List Bytes
  pub exclude_blocks : List Bytes
  pub udapi_blocks : List Bytes
  pub block_selection_set : Bool
  pub block_selection_limited : Bool
  pub immediate : Bool
  pub server_time_utc : ℤ
  pub server_time_set : Bool
  pub reset_requested : Bool
  pub reset_applied : Bool
  pub reset_reason : Bytes
  pub reset_disposition : Disposition
  pub ignored : Bool
  pub ignored_reason : Reason

-- `ControllerResponse{Type: name}`.
abbrev pub typed : Bytes → ControllerResponse
typed name = record {
  type_name = name;
  store = empty_store;
  has_state_update = false;
  has_mgmt_cfg = false;
  has_system_cfg = false;
  system_cfg_bytes = 0;
  system_cfg_keys = [];
  interval_seconds = pos 0;
  include_blocks = [];
  exclude_blocks = [];
  udapi_blocks = [];
  block_selection_set = false;
  block_selection_limited = false;
  immediate = false;
  server_time_utc = pos 0;
  server_time_set = false;
  reset_requested = false;
  reset_applied = false;
  reset_reason = [];
  reset_disposition = Disposition.none_yet;
  ignored = false;
  ignored_reason = Reason.no_reason;
}

pub data ResponseError : Type 0 where
  bad_json : JsonError → ResponseError
  not_an_object : ResponseError
  missing_type : ResponseError
  type_not_string : ResponseError
  unsupported_type : ResponseError
  bad_mgmt_cfg : StoreError → ResponseError

-- `knownControllerResponseType`.
unfoldable pub known_controller_response_type : Bytes → Bool
known_controller_response_type s =
    same s (codes "noop")
    || same s (codes "setparam")
    || same s (codes "setdefault")
    || same s (codes "reboot")
    || same s (codes "upgrade")
    || same s (codes "cmd")
    || same s (codes "geo_ip_update")

-- `isUnsafeControllerCommand`.
unfoldable pub is_unsafe_controller_command : Bytes → Bool
is_unsafe_controller_command s =
    same s (codes "reboot") || same s (codes "upgrade") || same s (codes "geo_ip_update")

abbrev pub connected_store : Store
connected_store = record empty_store { state = State.connected }

-- The list of blocks, and whether it exceeded its bounds.
abbrev pub limited : Result BlockError (List Bytes) → List Bytes × Bool
limited (ok ids) = (ids, false)
limited (err e) = ([], true)

-- A command that is kept as a status only.
abbrev pub ignored_command : Bytes → Reason → ControllerResponse
ignored_command name reason = record (typed name) { ignored = true; ignored_reason = reason }

-- The `switch` over the type from `setdefault` on.
unfoldable pub other_response : Bytes → Result ResponseError ControllerResponse
other_response name =
    if same name (codes "setdefault")
    then ok (record (typed name) {
      store = record empty_store { state = State.factory };
      has_state_update = true;
      reset_requested = true;
      reset_reason = codes "controller setdefault command";
    })
    else if same name (codes "cmd")
    then ok (ignored_command name Reason.safety_policy)
    else if is_unsafe_controller_command name
    then ok (ignored_command name Reason.safety_policy)
    else ok (typed name)

module _ (parse_url : Bytes → Option Url) where
  -- The part of `setparam` that reads `mgmt_cfg`.
  unfoldable pub with_mgmt_cfg :
      Bytes → ControllerResponse → Result ResponseError ControllerResponse
  with_mgmt_cfg text r = if is_empty text then ok r else do
    s ← wrap_err ResponseError.bad_mgmt_cfg (parse_mgmt_cfg parse_url text)
    ok (record r { has_mgmt_cfg = true; store = record s { state = State.connected } })

module _ (json : Json) where
  -- The part that reads `system_cfg`.
  unfoldable pub with_system_cfg :
      List (Bytes × Bytes) → ControllerResponse → Result ResponseError ControllerResponse
  with_system_cfg raw r =
      if has_key (codes "system_cfg") raw
      then (do
        summary ←
            wrap_err ResponseError.bad_json
              (summarize_system_cfg json (member (codes "system_cfg") raw))
        ok (record r {
          has_system_cfg = true;
          system_cfg_bytes = summary.0;
          system_cfg_keys = summary.1;
          ignored = true;
          ignored_reason = Reason.system_cfg_metadata;
        }))
      else ok r

  unfoldable pub noop_response : Bytes → List (Bytes × Bytes) → ControllerResponse
  noop_response name raw =
      let included =
        limited (json_content_block_string_ids json (member (codes "include_blocks") raw)) in
      let excluded =
        limited (json_content_block_string_ids json (member (codes "exclude_blocks") raw)) in
      let udapi = limited (json_content_block_ids json (member (codes "udapi_blocks") raw)) in
      let time = json_string_int64_prefix json (member (codes "server_time_in_utc") raw) in
      record (typed name) {
        store = connected_store;
        has_state_update = true;
        interval_seconds = json_int json (member (codes "interval") raw);
        server_time_utc = time.0;
        server_time_set = time.1;
        block_selection_set = true;
        include_blocks = included.0;
        exclude_blocks = excluded.0;
        udapi_blocks = udapi.0;
        block_selection_limited = included.1 || excluded.1 || udapi.1;
        immediate = json_bool json (member (codes "immediate") raw);
      }

module _ (parse_url : Bytes → Option Url) (json : Json) where
  unfoldable pub setparam_response :
      Bytes → List (Bytes × Bytes) → Result ResponseError ControllerResponse
  setparam_response name raw = do
    r ←
        with_mgmt_cfg parse_url (json_string json (member (codes "mgmt_cfg") raw))
          (record (typed name) { store = connected_store; has_state_update = true })
    with_system_cfg json raw r

  -- The `switch` over the type.
  unfoldable pub dispatch_response :
      Bytes → List (Bytes × Bytes) → Result ResponseError ControllerResponse
  dispatch_response name raw =
      if same name (codes "setparam")
      then setparam_response name raw
      else if same name (codes "upgrade")
      then ok (ignored_command name Reason.upgrade_status_only)
      else if same name (codes "noop")
      then ok (noop_response json name raw)
      else other_response name

  -- `json.Unmarshal(rawType, &responseType)`, where `null` leaves a nil pointer.
  unfoldable pub typed_response :
      Option (Option Bytes) → List (Bytes × Bytes) → Result ResponseError ControllerResponse
  typed_response none raw = err ResponseError.type_not_string
  typed_response (some none) raw = err ResponseError.type_not_string
  typed_response (some (some name)) raw =
      if known_controller_response_type name
      then dispatch_response name raw
      else err ResponseError.unsupported_type

  unfoldable pub object_response :
      Option (List (Bytes × Bytes)) → Result ResponseError ControllerResponse
  object_response none = err ResponseError.not_an_object
  object_response (some raw) =
      if has_key (codes "_type") raw
      then typed_response (json.string_value (member (codes "_type") raw)) raw
      else err ResponseError.missing_type

  -- `ParseControllerResponseInfo`.
  unfoldable pub parse_controller_response_info : Bytes → Result ResponseError ControllerResponse
  parse_controller_response_info text = do
    wrap_err ResponseError.bad_json (validate_json_limits json text)
    raw ← wrap_err ResponseError.bad_json (decode_unique_top_level_object json text)
    object_response raw
