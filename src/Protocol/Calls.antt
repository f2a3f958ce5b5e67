-- ===== src/Protocol/Calls.antt =====
-- The host calls of proto/oll/plugin.proto. The document messages of proto/oll/document.proto are
-- passed on unread, as their encodings.
use rust_plugin_sdk.Prelude.{ℕ, List, Option}
use rust_plugin_sdk.Protocol.Common.{ProtocolError}
use rust_plugin_sdk.Protocol.Config.{
  GetConfigRequest, GetConfigResponse, InvokeConfigFunctionRequest, InvokeConfigFunctionResponse,
}

abbrev pub DocumentMessage : Type 0
DocumentMessage = List ℕ

pub data Call : Type 0 where
  read_document list_directory get_directory_tree read_crdt commit_documents :
      DocumentMessage → Call
  get_config : GetConfigRequest → Call
  invoke_config_function : InvokeConfigFunctionRequest → Call

pub data CallResult : Type 0 where
  read_document list_directory get_directory_tree read_crdt commit_documents :
      DocumentMessage → CallResult
  get_config : GetConfigResponse → CallResult
  invoke_config_function : InvokeConfigFunctionResponse → CallResult
  error : ProtocolError → CallResult

pub record HostCallRequest : Type 0 where
  pub call : Option Call

pub record HostCallResponse : Type 0 where
  pub result : Option CallResult
