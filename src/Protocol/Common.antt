-- ===== src/Protocol/Common.antt =====
-- proto/oll/common.proto, with the well-known types `Any`, `Timestamp` and `Duration`.
use rust_plugin_sdk.Prelude.{
  ℕ, String, ◌≡◌, ◌↔◌, Bool, true, ◌&&◌, Option, List, arith, Eq, ◌==◌, nat_eq, string_eq,
  option_eq,
}
use rust_plugin_sdk.Prelude.Int.{ℤ, pos}

pub record Timestamp : Type 0 where
  pub seconds : ℤ
  pub nanos : ℤ

pub record Duration : Type 0 where
  pub seconds : ℤ
  pub nanos : ℤ

pub record Any : Type 0 where
  pub type_url : String
  pub value : List ℕ

pub record NodeId : Type 0 where
  pub value : String

pub record NodeName : Type 0 where
  pub value : String

pub record NodeIdentity : Type 0 where
  pub node_id : Option NodeId
  pub node_name : Option NodeName

pub record PluginId : Type 0 where
  pub value : String

pub record PluginName : Type 0 where
  pub value : String

pub record PluginJobId : Type 0 where
  pub value : String

pub record PluginArtifactId : Type 0 where
  pub value : String

pub record TraceContext : Type 0 where
  pub correlation_id : String
  pub parent_call_id : Option ℕ
  pub call_depth : ℕ
  pub causal_depth : ℕ
  pub task_id : Option String
  pub task_group_id : Option String

pub data ErrorCode : Type 0 where
  unspecified invalid_argument not_found already_exists revision_conflict : ErrorCode
  call_depth_exceeded causal_depth_exceeded deadline_exceeded cancelled unavailable : ErrorCode
  protocol_mismatch failed_precondition internal payload_too_large unsupported : ErrorCode

-- `code as i32`.
abbrev pub error_code : ErrorCode → ℤ
error_code ErrorCode.unspecified = pos 0
error_code ErrorCode.invalid_argument = pos 1
error_code ErrorCode.not_found = pos 2
error_code ErrorCode.already_exists = pos 3
error_code ErrorCode.revision_conflict = pos 4
error_code ErrorCode.call_depth_exceeded = pos 5
error_code ErrorCode.causal_depth_exceeded = pos 6
error_code ErrorCode.deadline_exceeded = pos 7
error_code ErrorCode.cancelled = pos 8
error_code ErrorCode.unavailable = pos 9
error_code ErrorCode.protocol_mismatch = pos 10
error_code ErrorCode.failed_precondition = pos 11
error_code ErrorCode.internal = pos 12
error_code ErrorCode.payload_too_large = pos 13
error_code ErrorCode.unsupported = pos 14

pub data LogLevel : Type 0 where
  unspecified trace debug info warn error : LogLevel

abbrev pub log_level : LogLevel → ℤ
log_level LogLevel.unspecified = pos 0
log_level LogLevel.trace = pos 1
log_level LogLevel.debug = pos 2
log_level LogLevel.info = pos 3
log_level LogLevel.warn = pos 4
log_level LogLevel.error = pos 5

pub record ProtocolError : Type 0 where
  pub code : ℤ
  pub message : String
  pub retryable : Bool
  pub metadata : List (String × String)
  pub details : List Any

-- The derived `PartialEq` of a trace: all six fields.
abbrev pub trace_beq : TraceContext → TraceContext → Bool
trace_beq a b =
    a.correlation_id == b.correlation_id
    && (a.parent_call_id == b.parent_call_id
        && (a.call_depth == b.call_depth
            && (a.causal_depth == b.causal_depth
                && (a.task_id == b.task_id && a.task_group_id == b.task_group_id))))

pub trace_beq_iff : (a b : TraceContext) → (trace_beq a b ≡ true) ↔ (a ≡ b)
trace_beq_iff a b = ground (
  arith,
  string_eq.beq_iff a.correlation_id b.correlation_id,
  (option_eq {A = ℕ}).beq_iff a.parent_call_id b.parent_call_id,
  (option_eq {A = String}).beq_iff a.task_id b.task_id,
  (option_eq {A = String}).beq_iff a.task_group_id b.task_group_id,
)

instance abbrev pub trace_eq : Eq TraceContext
trace_eq = record { beq = trace_beq; beq_iff = trace_beq_iff }

abbrev pub artifact_id_beq : PluginArtifactId → PluginArtifactId → Bool
artifact_id_beq a b = a.value == b.value

pub artifact_id_beq_iff : (a b : PluginArtifactId) → (artifact_id_beq a b ≡ true) ↔ (a ≡ b)
artifact_id_beq_iff a b = ground (arith, string_eq.beq_iff a.value b.value)

instance abbrev pub artifact_id_eq : Eq PluginArtifactId
artifact_id_eq = record { beq = artifact_id_beq; beq_iff = artifact_id_beq_iff }
