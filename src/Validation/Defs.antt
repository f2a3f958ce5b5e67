-- ===== src/Validation/Defs.antt =====
-- The checks of runtime/validation.rs.
use Prim.Native.String.{◌++◌}
use rust_plugin_sdk.Prelude.{
  ℕ, String, Bool, true, false, ◌&&◌, ◌||◌, not, Option, none, some, ltb, ◌==◌, ◌!=◌, nat_eq,
  string_eq, if◌then◌else◌, length, all,
}
use rust_plugin_sdk.Prelude.Int.{ℤ, pos, int_eq}
use rust_plugin_sdk.Prelude.Text.{bytes, is_empty}
use rust_plugin_sdk.Protocol.{
  Timestamp, NodeIdentity, NodeId, NodeName, PluginId, PluginName, PluginJobId, TraceContext,
  ProtocolError, PluginEnvelope, HostHello, ShutdownRequest,
}
use rust_plugin_sdk.Error.{SdkError, Result, ok, err, ◌>>=◌, ok_or}
use rust_plugin_sdk.Value.Domain.{valid_timestamp}
use rust_plugin_sdk.Validation.Bytes.{split, valid_dns_label, maximum_plugin_id_bytes}

pub data UuidVersion : Type 0 where
  random another : UuidVersion

abbrev pub is_random : Option UuidVersion → Bool
is_random (some UuidVersion.random) = true
is_random (some UuidVersion.another) = false
is_random none = false

-- The `uuid` package: a `Uuid` is its 128 bits.
pub record UuidCrate : Type 0 where
  pub parse_str : String → Option ℕ
  pub get_version : ℕ → Option UuidVersion
  pub hyphenated : ℕ → String

abbrev pub is_some_and {ℓ} : {A : Type ℓ} → (A → Bool) → Option A → Bool
is_some_and p none = false
is_some_and p (some a) = p a

-- `Option::filter`.
abbrev pub keep_if {ℓ} : {A : Type ℓ} → (A → Bool) → Option A → Option A
keep_if p none = none
keep_if p (some a) = if p a then some a else none

unfoldable pub canonical_uuid_v4 : UuidCrate → String → Bool
canonical_uuid_v4 u value =
    is_some_and (λ id. is_random (u.get_version id) && u.hyphenated id == value) (u.parse_str value)

unfoldable pub plugin_id : String → Result (Unit {0})
plugin_id value =
    let labels = split b'.' (bytes value) in
    if ltb maximum_plugin_id_bytes (length (bytes value))
      || (ltb (length labels) 2 || not (all valid_dns_label labels))
    then err (SdkError.invalid_argument "plugin ID must be a lower-case dotted DNS name")
    else ok tt

-- The two halves of the test in `host_hello`.
abbrev pub valid_node : UuidCrate → NodeIdentity → Bool
valid_node u node =
    is_some_and (λ (id : NodeId). canonical_uuid_v4 u id.value) node.node_id
    && is_some_and (λ (name : NodeName). valid_dns_label (bytes name.value)) node.node_name

abbrev pub valid_plugin : String → HostHello → Bool
valid_plugin id hello =
    is_some_and (λ (value : PluginId). value.value == id) hello.plugin_id
    && is_some_and (λ (value : PluginName). valid_dns_label (bytes value.value)) hello.plugin_name

unfoldable pub host_hello : UuidCrate → String → HostHello → Result (Unit {0})
host_hello u id hello =
    if not (is_some_and (valid_node u) hello.node)
      || (not (valid_plugin id hello)
          || (hello.maximum_call_depth == 0
              || (hello.maximum_causal_depth == 0 || hello.maximum_artifact_chunk_bytes == 0)))
    then err (SdkError.protocol "HostHello does not describe the expected plugin instance")
    else ok tt

unfoldable pub trace : PluginEnvelope → ℕ → ℕ → Result TraceContext
trace envelope maximum_call_depth maximum_causal_depth = do
  t ←
      ok_or (keep_if (λ (t : TraceContext). not (is_empty t.correlation_id)) envelope.trace)
        (SdkError.protocol "host omitted correlation context")
  if ltb maximum_call_depth t.call_depth || ltb maximum_causal_depth t.causal_depth
      then err (SdkError.protocol "host envelope exceeds a negotiated trace depth limit")
      else ok t

unfoldable pub job_id : UuidCrate → Option PluginJobId → Result String
job_id u none = err (SdkError.protocol "job ID is required")
job_id u (some id) =
    if canonical_uuid_v4 u id.value
    then ok id.value
    else err (SdkError.protocol "job ID must be a canonical UUID v4")

unfoldable pub timestamp : Option Timestamp → String → Result Timestamp
timestamp value field =
    ok_or (keep_if valid_timestamp value)
      (SdkError.protocol (field ++ " must be a valid protobuf Timestamp"))

unfoldable pub optional_timestamp : Option Timestamp → String → Result (Unit {0})
optional_timestamp (some value) field = timestamp (some value) field >>= λ _. ok tt
optional_timestamp none field = ok tt

-- `JobCancellationReason::Unspecified` is 0.
unfoldable pub cancellation_reason : ℤ → Result (Unit {0})
cancellation_reason value =
    if value == pos 0
    then err (SdkError.protocol "CancelJobRequest reason must not be unspecified")
    else ok tt

unfoldable pub shutdown : ShutdownRequest → Result Timestamp
shutdown request =
    if is_empty request.reason
    then err (SdkError.protocol "ShutdownRequest reason must not be empty")
    else timestamp request.grace_period_deadline "ShutdownRequest grace-period deadline"

-- `ErrorCode::Unspecified` is 0.
unfoldable pub protocol_error : ProtocolError → Result (Unit {0})
protocol_error error =
    if error.code != pos 0 && not (is_empty error.message)
    then ok tt
    else err (SdkError.protocol "ProtocolError code and message must be specified")
