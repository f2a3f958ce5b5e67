-- ===== src/Protocol/Envelope.antt =====
-- The envelope and its payloads, proto/oll/plugin.proto.
use rust_plugin_sdk.Prelude.{ℕ, String, Option, List}
use rust_plugin_sdk.Prelude.Int.{ℤ, pos}
use rust_plugin_sdk.Protocol.Common.{
  Timestamp, NodeIdentity, PluginId, PluginName, PluginJobId, PluginArtifactId, TraceContext,
  ProtocolError,
}
use rust_plugin_sdk.Protocol.Config.{ConfigValue}
use rust_plugin_sdk.Protocol.Calls.{HostCallRequest, HostCallResponse}

pub record HostHello : Type 0 where
  pub node : Option NodeIdentity
  pub maximum_call_depth : ℕ
  pub maximum_causal_depth : ℕ
  pub maximum_artifact_chunk_bytes : ℕ
  pub plugin_id : Option PluginId
  pub plugin_name : Option PluginName

pub record ActionDescriptor : Type 0 where
  pub name : String
  pub description : String

pub record PluginHello : Type 0 where
  pub plugin_id : Option PluginId
  pub plugin_name : Option PluginName
  pub actions : List ActionDescriptor
  pub plugin_version : String

pub record ActionInvocation : Type 0 where
  pub action : String
  pub arguments : List String

pub record StartJobRequest : Type 0 where
  pub job_id : Option PluginJobId
  pub deadline : Option Timestamp
  pub invocation : Option ActionInvocation

pub data JobState : Type 0 where
  unspecified running succeeded failed : JobState

abbrev pub job_state : JobState → ℤ
job_state JobState.unspecified = pos 0
job_state JobState.running = pos 1
job_state JobState.succeeded = pos 2
job_state JobState.failed = pos 3

pub record ArtifactDescriptor : Type 0 where
  pub artifact_id : Option PluginArtifactId
  pub file_name : String
  pub media_type : String
  pub size_bytes : ℕ
  pub sha256 : List ℕ

pub record JobUpdate : Type 0 where
  pub job_id : Option PluginJobId
  pub state : ℤ
  pub progress : Option ℕ
  pub status_message : Option String
  pub result : Option ConfigValue
  pub error : Option ProtocolError
  pub artifacts : List ArtifactDescriptor

pub record ArtifactTransferStart : Type 0 where
  pub job_id : Option PluginJobId
  pub artifact : Option ArtifactDescriptor
  pub chunk_count : ℕ

pub record ArtifactTransferChunk : Type 0 where
  pub artifact_id : Option PluginArtifactId
  pub chunk_index : ℕ
  pub chunk : List ℕ

pub record CancelJobRequest : Type 0 where
  pub job_id : Option PluginJobId
  pub reason : ℤ

pub record LogRecord : Type 0 where
  pub timestamp : Option Timestamp
  pub level : ℤ
  pub target : String
  pub message : String
  pub fields : List (String × ConfigValue)

pub record ShutdownRequest : Type 0 where
  pub reason : String
  pub grace_period_deadline : Option Timestamp

-- `plugin_envelope::Payload`. A message with one field is that field: the job ID of an acceptance, the
-- artifact ID of a transfer's answers, the nonce of a heartbeat.
pub data Payload : Type 0 where
  host_hello : HostHello → Payload
  plugin_hello : PluginHello → Payload
  ready shutdown_acknowledged : Payload
  start_job : StartJobRequest → Payload
  job_accepted cancel_job_acknowledged : Option PluginJobId → Payload
  job_update : JobUpdate → Payload
  host_call : HostCallRequest → Payload
  host_result : HostCallResponse → Payload
  log : LogRecord → Payload
  heartbeat : ℕ → Payload
  shutdown : ShutdownRequest → Payload
  protocol_error : ProtocolError → Payload
  artifact_start : ArtifactTransferStart → Payload
  artifact_accepted artifact_complete artifact_stored : Option PluginArtifactId → Payload
  artifact_chunk : ArtifactTransferChunk → Payload
  cancel_job : CancelJobRequest → Payload

pub record PluginEnvelope : Type 0 where
  pub message_id : ℕ
  pub reply_to : Option ℕ
  pub session_id : String
  pub plugin_instance_id : String
  pub trace : Option TraceContext
  pub payload : Option Payload
