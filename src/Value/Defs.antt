-- ===== src/Value/Defs.antt =====
-- `validate` and its two callers in runtime/value.rs.
use rust_plugin_sdk.Prelude.{
  ℕ, ◌+◌, String, ◌&&◌, not, Option, none, some, List, [], ◌∷◌, ltb, ◌==◌, ◌!=◌, nat_eq, string_eq,
  if◌then◌else◌,
}
use rust_plugin_sdk.Prelude.Int.{pos, int_eq}
use rust_plugin_sdk.Prelude.Text.{is_empty}
use rust_plugin_sdk.Protocol.{
  ConfigValue, ConfigList, ConfigMap, ConfigFunctionRef, unset, null_value, integer_value,
  bool_value, number_value, string_value, bytes_value, list_value, map_value, function_value,
  timestamp_value, duration_value, nil, cons, end, entry,
}
use rust_plugin_sdk.Error.{SdkError, Result, ok, err, ensure, ◌>>◌}
use rust_plugin_sdk.Value.Domain.{valid_timestamp, valid_duration, is_finite}

abbrev pub maximum_value_depth : ℕ
maximum_value_depth = 33

abbrev pub invalid : String → SdkError
invalid message = SdkError.invalid_argument message

-- The depth test at the head of `validate`.
abbrev pub at_depth : ℕ → Result (Unit {0}) → Result (Unit {0})
at_depth depth r =
    if ltb maximum_value_depth depth
    then err (invalid "ConfigValue nesting exceeds the supported limit")
    else r

-- A function handle is good in the session that owns it, and nowhere else.
abbrev pub validate_function : ConfigFunctionRef → Option String → Result (Unit {0})
validate_function function none =
    err (invalid "session-scoped configuration functions cannot be stored or logged")
validate_function function (some session_id) =
    if function.session_id == session_id && not (is_empty function.function_id)
    then ok tt
    else if function.session_id != session_id
    then err (SdkError.protocol "configuration function belongs to another plugin session")
    else err (invalid "configuration function ID must not be empty")

unfoldable mutual
  pub validate : ConfigValue → ℕ → Option String → Result (Unit {0})
  validate unset depth session = at_depth depth (err (invalid "ConfigValue kind is required"))
  validate (null_value value) depth session =
      at_depth depth
        (ensure (value == pos 0) (invalid "ConfigValue contains an unknown null value"))
  validate (bool_value _) depth session = at_depth depth (ok tt)
  validate (integer_value _) depth session = at_depth depth (ok tt)
  validate (string_value _) depth session = at_depth depth (ok tt)
  validate (bytes_value _) depth session = at_depth depth (ok tt)
  validate (number_value value) depth session =
      at_depth depth (ensure (is_finite value) (invalid "ConfigValue numbers must be finite"))
  validate (list_value list) depth session = at_depth depth (validate_list list (depth + 1) session)
  validate (map_value map) depth session = at_depth depth (validate_map map (depth + 1) session)
  validate (function_value function) depth session =
      at_depth depth (validate_function function session)
  validate (timestamp_value value) depth session = at_depth depth (
      ensure (valid_timestamp value)
        (invalid "ConfigValue timestamp is outside the protobuf Timestamp domain"))
  validate (duration_value value) depth session = at_depth depth (
      ensure (valid_duration value)
        (invalid "ConfigValue duration is outside the protobuf Duration domain"))

  pub validate_list : ConfigList → ℕ → Option String → Result (Unit {0})
  validate_list nil depth session = ok tt
  validate_list (cons value values) depth session =
      validate value depth session >> validate_list values depth session

  pub validate_map : ConfigMap → ℕ → Option String → Result (Unit {0})
  validate_map end depth session = ok tt
  validate_map (entry key value entries) depth session =
      validate value depth session >> validate_map entries depth session

unfoldable pub validate_serializable : ConfigValue → Result (Unit {0})
unfolding validate
validate_serializable value = validate value 0 none

unfoldable pub validate_session_values : List ConfigValue → String → Result (Unit {0})
unfolding validate
validate_session_values [] session_id = ok tt
validate_session_values (value ∷ values) session_id =
    validate value 0 (some session_id) >> validate_session_values values session_id
