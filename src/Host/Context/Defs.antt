-- ===== src/Host/Context/Defs.antt =====
-- `ActionContext`, and what `host_call` does before its request and after it. The controller's byte is read
-- anew at each point where the code reads it, so that a cancellation may come in between.
use rust_plugin_sdk.Prelude.{ℕ, ◌+◌, String, Option, some, ltb, ◌==◌, nat_eq, if◌then◌else◌}
use rust_plugin_sdk.Protocol.{
  TraceContext, Timestamp, Payload, Call, CallResult, HostCallResponse, GetConfigResponse,
  InvokeConfigFunctionResponse,
}
use rust_plugin_sdk.Error.{SdkError, Result, ok, err, ◌>>=◌, ◌>>◌}
use rust_plugin_sdk.Cancellation.{Cancellation, ensure_active}
use rust_plugin_sdk.Host.Client.{HostClient, call_result}
use rust_plugin_sdk.Host.Call.{HostCallKind, validate, validate_response}
use rust_plugin_sdk.Host.Artifact.{u32_max}

pub record ActionContext : Type 0 where
  pub job_id : String
  pub deadline : Option Timestamp
  pub trace : TraceContext
  pub parent_call_id : ℕ

-- The trace of a nested call: one level deeper, under the message that started the job.
unfoldable pub call_trace : ActionContext → ℕ → Result TraceContext
call_trace c maximum_call_depth =
    if c.trace.call_depth == u32_max
    then err (SdkError.protocol "host-call depth overflowed")
    else if ltb maximum_call_depth (c.trace.call_depth + 1)
    then err (SdkError.protocol "host call exceeds the negotiated call-depth limit")
    else ok (record c.trace {
      parent_call_id = some c.parent_call_id;
      call_depth = c.trace.call_depth + 1;
    })

-- `host_call` up to its request: what is asked, and under which trace.
unfoldable pub prepare_call :
    ActionContext → Cancellation → HostClient → Call → Result (HostCallKind × TraceContext)
unfolding ensure_active validate call_trace
prepare_call c cancellation host call = do
  ensure_active cancellation
  kind ← validate call host.session_id
  trace ← call_trace c host.maximum_call_depth
  ok (kind, trace)

abbrev pub checked_answer : HostCallKind → String → Result Payload → Result HostCallResponse
checked_answer kind session_id received = do
  payload ← received
  response ← call_result payload
  validate_response kind response session_id
  ok response

-- The last step of `get_config` and of `invoke_config_function`.
unfoldable pub configured : HostCallResponse → Result GetConfigResponse
configured response = elim response.result [
  | some (CallResult.get_config value) ↦ ok value
  | _ ↦ err (SdkError.protocol "host returned another response kind for GetConfig")
]

unfoldable pub invoked : HostCallResponse → Result InvokeConfigFunctionResponse
invoked response = elim response.result [
  | some (CallResult.invoke_config_function value) ↦ ok value
  | _ ↦ err (SdkError.protocol "host returned another response kind for InvokeConfigFunction")
]
