-- ===== src/Host/Call/Defs.antt =====
-- `HostCallKind`, its `validate` and its `validate_response`.
use rust_plugin_sdk.Prelude.{
  String, Bool, Option, none, some, [], ◌∷◌, ◌||◌, not, any, ◌!=◌, string_eq, if◌then◌else◌,
  is_some,
}
use rust_plugin_sdk.Prelude.Text.{is_empty}
use rust_plugin_sdk.Protocol.{
  Call, CallResult, HostCallResponse, ConfigPath, ConfigPathSegment, ConfigFunctionRef, ConfigValue,
}
use rust_plugin_sdk.Error.{SdkError, Result, ok, err, ◌>>=◌, ◌>>◌, ok_or}
use rust_plugin_sdk.Validation
use rust_plugin_sdk.Validation.{is_some_and}
use rust_plugin_sdk.Value.{validate_session_values}

pub data HostCallKind : Type 0 where
  read_document list_directory get_directory_tree read_crdt : HostCallKind
  commit_documents get_config invoke_config_function : HostCallKind

abbrev pub has_unset_segment : ConfigPath → Bool
has_unset_segment path = any (λ (s : ConfigPathSegment). not (is_some s.kind)) path.segments

abbrev pub check_function : ConfigFunctionRef → String → Result (Unit {0})
check_function function session_id =
    if function.session_id != session_id || is_empty function.function_id
    then err (SdkError.invalid_argument "configuration function must belong to the active session")
    else ok tt

-- `HostCallKind::validate`.
unfoldable pub validate : Call → String → Result HostCallKind
validate (Call.read_document _) session_id = ok HostCallKind.read_document
validate (Call.list_directory _) session_id = ok HostCallKind.list_directory
validate (Call.get_directory_tree _) session_id = ok HostCallKind.get_directory_tree
validate (Call.read_crdt _) session_id = ok HostCallKind.read_crdt
validate (Call.commit_documents _) session_id = ok HostCallKind.commit_documents
validate (Call.get_config request) session_id =
    if is_some_and has_unset_segment request.path
    then err (SdkError.invalid_argument "configuration path segments must specify a key or index")
    else ok HostCallKind.get_config
validate (Call.invoke_config_function request) session_id = do
  function ←
      ok_or request.function
        (SdkError.invalid_argument "configuration function reference is required")
  check_function function session_id
  validate_session_values request.arguments session_id
  ok HostCallKind.invoke_config_function

abbrev pub another_kind : SdkError
another_kind = SdkError.protocol "host returned another response kind for HostCallRequest"

abbrev pub validate_configured : Option ConfigValue → String → Result (Unit {0})
validate_configured none session_id = ok tt
validate_configured (some configured) session_id =
    validate_session_values (configured ∷ []) session_id

abbrev pub validate_result : HostCallKind → Option CallResult → String → Result (Unit {0})
validate_result kind none session_id = err (SdkError.protocol "HostCallResponse result is required")
validate_result kind (some (CallResult.error error)) session_id = Validation.protocol_error error
validate_result HostCallKind.read_document (some (CallResult.read_document _)) session_id = ok tt
validate_result HostCallKind.list_directory (some (CallResult.list_directory _)) session_id = ok tt
validate_result HostCallKind.get_directory_tree (some (CallResult.get_directory_tree _))
      session_id =
    ok tt
validate_result HostCallKind.read_crdt (some (CallResult.read_crdt _)) session_id = ok tt
validate_result HostCallKind.commit_documents (some (CallResult.commit_documents _)) session_id =
    ok tt
validate_result HostCallKind.get_config (some (CallResult.get_config response)) session_id =
    validate_configured response.value session_id
validate_result HostCallKind.invoke_config_function
      (some (CallResult.invoke_config_function response)) session_id =
    validate_session_values response.results session_id
validate_result kind (some result) session_id = err another_kind

-- `HostCallKind::validate_response`.
unfoldable pub validate_response : HostCallKind → HostCallResponse → String → Result (Unit {0})
validate_response kind response session_id = validate_result kind response.result session_id
