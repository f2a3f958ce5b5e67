-- ===== src/Host/Call/Answers.antt =====
-- An accepted answer is one to its call.
use rust_plugin_sdk.Prelude.{String, ◌≡◌, refl, sym, Option, none, some, arith}
use rust_plugin_sdk.Protocol.{Call, CallResult, HostCallResponse}
use rust_plugin_sdk.Error.{ok}
use rust_plugin_sdk.Validation
use rust_plugin_sdk.Value.{validate_session_values}
use rust_plugin_sdk.Host.Call.Defs.{
  HostCallKind, validate, validate_result, validate_response, validate_configured,
}

-- The kind of a call.
abbrev pub kind_of : Call → HostCallKind
kind_of (Call.read_document _) = HostCallKind.read_document
kind_of (Call.list_directory _) = HostCallKind.list_directory
kind_of (Call.get_directory_tree _) = HostCallKind.get_directory_tree
kind_of (Call.read_crdt _) = HostCallKind.read_crdt
kind_of (Call.commit_documents _) = HostCallKind.commit_documents
kind_of (Call.get_config _) = HostCallKind.get_config
kind_of (Call.invoke_config_function _) = HostCallKind.invoke_config_function

-- A named error, or a result of the call's kind whose values may be used in the session.
abbrev pub Answers : HostCallKind → CallResult → String → Type 0
Answers kind (CallResult.error error) session_id = Validation.protocol_error error ≡ ok tt
Answers HostCallKind.read_document (CallResult.read_document _) session_id = Unit
Answers HostCallKind.list_directory (CallResult.list_directory _) session_id = Unit
Answers HostCallKind.get_directory_tree (CallResult.get_directory_tree _) session_id = Unit
Answers HostCallKind.read_crdt (CallResult.read_crdt _) session_id = Unit
Answers HostCallKind.commit_documents (CallResult.commit_documents _) session_id = Unit
Answers HostCallKind.get_config (CallResult.get_config response) session_id =
    validate_configured response.value session_id ≡ ok tt
Answers HostCallKind.invoke_config_function (CallResult.invoke_config_function response)
      session_id =
    validate_session_values response.results session_id ≡ ok tt
Answers kind result session_id = ⊥

kind_iff :
    (call : Call) (session_id : String) (kind : HostCallKind)
    → validate call session_id ≡ ok kind
    → kind_of call ≡ kind
unfolding validate
kind_iff (Call.read_document _) session_id kind e = ground arith
kind_iff (Call.list_directory _) session_id kind e = ground arith
kind_iff (Call.get_directory_tree _) session_id kind e = ground arith
kind_iff (Call.read_crdt _) session_id kind e = ground arith
kind_iff (Call.commit_documents _) session_id kind e = ground arith
kind_iff (Call.get_config request) session_id kind e = ground arith
kind_iff (Call.invoke_config_function request) session_id kind e = ground arith

result-Answers :
    (kind : HostCallKind) (result : CallResult) (session_id : String)
    → validate_result kind (some result) session_id ≡ ok tt
    → Answers kind result session_id
result-Answers HostCallKind.read_document (CallResult.error _) session_id e = e
result-Answers HostCallKind.read_document (CallResult.read_document _) session_id e = tt
result-Answers HostCallKind.read_document (CallResult.list_directory _) session_id e = ground arith
result-Answers HostCallKind.read_document (CallResult.get_directory_tree _) session_id e =
    ground arith
result-Answers HostCallKind.read_document (CallResult.read_crdt _) session_id e = ground arith
result-Answers HostCallKind.read_document (CallResult.commit_documents _) session_id e =
    ground arith
result-Answers HostCallKind.read_document (CallResult.get_config _) session_id e = ground arith
result-Answers HostCallKind.read_document (CallResult.invoke_config_function _) session_id e =
    ground arith
result-Answers HostCallKind.list_directory (CallResult.error _) session_id e = e
result-Answers HostCallKind.list_directory (CallResult.read_document _) session_id e = ground arith
result-Answers HostCallKind.list_directory (CallResult.list_directory _) session_id e = tt
result-Answers HostCallKind.list_directory (CallResult.get_directory_tree _) session_id e =
    ground arith
result-Answers HostCallKind.list_directory (CallResult.read_crdt _) session_id e = ground arith
result-Answers HostCallKind.list_directory (CallResult.commit_documents _) session_id e =
    ground arith
result-Answers HostCallKind.list_directory (CallResult.get_config _) session_id e = ground arith
result-Answers HostCallKind.list_directory (CallResult.invoke_config_function _) session_id e =
    ground arith
result-Answers HostCallKind.get_directory_tree (CallResult.error _) session_id e = e
result-Answers HostCallKind.get_directory_tree (CallResult.read_document _) session_id e =
    ground arith
result-Answers HostCallKind.get_directory_tree (CallResult.list_directory _) session_id e =
    ground arith
result-Answers HostCallKind.get_directory_tree (CallResult.get_directory_tree _) session_id e = tt
result-Answers HostCallKind.get_directory_tree (CallResult.read_crdt _) session_id e = ground arith
result-Answers HostCallKind.get_directory_tree (CallResult.commit_documents _) session_id e =
    ground arith
result-Answers HostCallKind.get_directory_tree (CallResult.get_config _) session_id e = ground arith
result-Answers HostCallKind.get_directory_tree (CallResult.invoke_config_function _) session_id e =
    ground arith
result-Answers HostCallKind.read_crdt (CallResult.error _) session_id e = e
result-Answers HostCallKind.read_crdt (CallResult.read_document _) session_id e = ground arith
result-Answers HostCallKind.read_crdt (CallResult.list_directory _) session_id e = ground arith
result-Answers HostCallKind.read_crdt (CallResult.get_directory_tree _) session_id e = ground arith
result-Answers HostCallKind.read_crdt (CallResult.read_crdt _) session_id e = tt
result-Answers HostCallKind.read_crdt (CallResult.commit_documents _) session_id e = ground arith
result-Answers HostCallKind.read_crdt (CallResult.get_config _) session_id e = ground arith
result-Answers HostCallKind.read_crdt (CallResult.invoke_config_function _) session_id e =
    ground arith
result-Answers HostCallKind.commit_documents (CallResult.error _) session_id e = e
result-Answers HostCallKind.commit_documents (CallResult.read_document _) session_id e =
    ground arith
result-Answers HostCallKind.commit_documents (CallResult.list_directory _) session_id e =
    ground arith
result-Answers HostCallKind.commit_documents (CallResult.get_directory_tree _) session_id e =
    ground arith
result-Answers HostCallKind.commit_documents (CallResult.read_crdt _) session_id e = ground arith
result-Answers HostCallKind.commit_documents (CallResult.commit_documents _) session_id e = tt
result-Answers HostCallKind.commit_documents (CallResult.get_config _) session_id e = ground arith
result-Answers HostCallKind.commit_documents (CallResult.invoke_config_function _) session_id e =
    ground arith
result-Answers HostCallKind.get_config (CallResult.error _) session_id e = e
result-Answers HostCallKind.get_config (CallResult.read_document _) session_id e = ground arith
result-Answers HostCallKind.get_config (CallResult.list_directory _) session_id e = ground arith
result-Answers HostCallKind.get_config (CallResult.get_directory_tree _) session_id e = ground arith
result-Answers HostCallKind.get_config (CallResult.read_crdt _) session_id e = ground arith
result-Answers HostCallKind.get_config (CallResult.commit_documents _) session_id e = ground arith
result-Answers HostCallKind.get_config (CallResult.get_config _) session_id e = e
result-Answers HostCallKind.get_config (CallResult.invoke_config_function _) session_id e =
    ground arith
result-Answers HostCallKind.invoke_config_function (CallResult.error _) session_id e = e
result-Answers HostCallKind.invoke_config_function (CallResult.read_document _) session_id e =
    ground arith
result-Answers HostCallKind.invoke_config_function (CallResult.list_directory _) session_id e =
    ground arith
result-Answers HostCallKind.invoke_config_function (CallResult.get_directory_tree _) session_id e =
    ground arith
result-Answers HostCallKind.invoke_config_function (CallResult.read_crdt _) session_id e =
    ground arith
result-Answers HostCallKind.invoke_config_function (CallResult.commit_documents _) session_id e =
    ground arith
result-Answers HostCallKind.invoke_config_function (CallResult.get_config _) session_id e =
    ground arith
result-Answers HostCallKind.invoke_config_function (CallResult.invoke_config_function _) session_id
      e =
    e

-- A response that is accepted for an accepted call is of the call's kind, its values being good in the
-- session, or is an error with a code and a message.
pub accepted-Answers :
    (call : Call) (response : HostCallResponse) (session_id : String) (kind : HostCallKind)
    → validate call session_id ≡ ok kind
    → validate_response kind response session_id ≡ ok tt
    → (result : CallResult) × (response.result ≡ some result)
      × Answers (kind_of call) result session_id
unfolding validate_response
accepted-Answers call response session_id kind valid accepted =
    rw (kind_iff call session_id kind valid) (from response.result refl accepted)
  where
    from :
        (o : Option CallResult)
        → o ≡ response.result
        → validate_result kind o session_id ≡ ok tt
        → (result : CallResult) × (response.result ≡ some result) × Answers kind result session_id
    from none e h = ground arith
    from (some result) e h = (result, sym e, result-Answers kind result session_id h)
