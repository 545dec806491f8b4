-- ===== src/Tests/Answers.antt =====
-- Runs of the reading of a controller's answer, of its application and of its parts.
use unifi_stubd.Prelude.{
  ◌≡◌, refl, true, false, Option, none, some, List, [], ◌∷◌, ok, err, if◌then◌else◌,
}
use unifi_stubd.Prelude.Int.{negsuc}
use unifi_stubd.Prelude.Text.{Bytes, codes, same}
use unifi_stubd.Prelude.Text.Utf8.{runes}
use unifi_stubd.AtomicFile.{Faults, Disk}
use unifi_stubd.Adoption.Validate.{Url}
use unifi_stubd.Adoption.Env.{reading, load_env, factory_store}
use unifi_stubd.Adoption.Json.{
  Json, Token, Top, has_key, member, unique_members, limit_loop, validate_json_limits,
  decode_unique_top_level_object,
}
use unifi_stubd.Adoption.Blocks.{ContentBlockItem, validate_content_block_id, BlockError}
use unifi_stubd.Adoption.ServerTime.{digits, digits_value, int64_prefix, signed_prefix, saturated}
use unifi_stubd.Adoption.Response.{
  ControllerResponse, typed, known_controller_response_type, other_response, dispatch_response,
  typed_response, object_response, parse_controller_response_info,
}
use unifi_stubd.Adoption.Response.Safe.{IsSafe, parse_controller_response_info-IsSafe}
use unifi_stubd.Adoption.Update.{load_adoption_state, update_adoption_state}
use unifi_stubd.Adoption.Update.Agreement.{Settled, update_adoption_state-Settled}

abbrev pub no_url : Bytes → Option Url
no_url s = none

-- A decoder that knows the object {"_type":"setdefault"}.
abbrev pub decoder : Json
decoder = record {
  tokens = λ s. (Token.opening ∷ Token.other ∷ Token.other ∷ Token.closing ∷ [], true);
  top = λ s. some (Top.object ((codes "_type", codes "\"setdefault\"") ∷ []) true);
  string_value =
      λ s. if same s (codes "\"setdefault\"") then some (some (codes "setdefault")) else none;
  bool_value = λ s. none;
  int_value = λ s. none;
  array_value = λ s. none;
  object_value = λ s. none;
}

abbrev pub answer : Bytes
answer = codes "{\"_type\":\"setdefault\"}"

abbrev reset : ControllerResponse
reset = record (typed (codes "setdefault")) {
  store = factory_store;
  has_state_update = true;
  reset_requested = true;
  reset_reason = codes "controller setdefault command";
}

answer_read : parse_controller_response_info no_url decoder answer ≡ ok reset
unfolding parse_controller_response_info validate_json_limits limit_loop
    decode_unique_top_level_object unique_members has_key member object_response typed_response
    known_controller_response_type dispatch_response other_response same
answer_read = refl

parse_controller_response_info-IsSafe_example : IsSafe no_url reset
parse_controller_response_info-IsSafe_example =
    parse_controller_response_info-IsSafe no_url decoder answer reset answer_read

abbrev disk_full : Faults
disk_full = record { fails = λ c. true; written = 3 }

abbrev blank_disk : Disk
blank_disk = record { target = none; temp = none }

nothing_stored : load_adoption_state no_url (reading none) ≡ ok factory_store
unfolding load_adoption_state load_env
nothing_stored = refl

update_adoption_state-Settled_example : Settled no_url factory_store (
    update_adoption_state no_url disk_full
      (codes "/state")
      factory_store
      (some reset)
      false
      blank_disk)
update_adoption_state-Settled_example =
    update_adoption_state-Settled no_url disk_full (codes "/state") factory_store (some reset) false
      blank_disk nothing_stored

-- The block "a" as a string, then as an object.
abbrev items : List ContentBlockItem
items =
    record { string_id = codes "a"; object_id = [] }
    ∷ record { string_id = []; object_id = codes "a" }
    ∷ []

control_refused :
    validate_content_block_id (97 ∷ 0xc2 ∷ 0x85 ∷ []) ≡ err BlockError.control_character
unfolding validate_content_block_id runes
control_refused = refl

number_read : int64_prefix (codes "-12x") ≡ negsuc 11
unfolding int64_prefix signed_prefix digits digits_value saturated
number_read = refl
