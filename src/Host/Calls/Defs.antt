-- ===== src/Host/Calls/Defs.antt =====
-- `host_call`, `get_config` and `invoke_config_function`. What follows the answer to the request of a host
-- call does not wait, so that the select of `host_call` is that of its request.
use rust_plugin_sdk.Prelude.{Option, some, List}
use rust_plugin_sdk.Protocol.{
  Payload, Call, HostCallResponse, GetConfigResponse, InvokeConfigFunctionResponse, ConfigPath,
  ConfigFunctionRef, ConfigValue,
}
use rust_plugin_sdk.Error.{ok}
use rust_plugin_sdk.Async.{Async, ◌>>=◌, lift}
use rust_plugin_sdk.Host.Client.{HostClient}
use rust_plugin_sdk.Host.Context.{ActionContext, prepare_call, checked_answer, configured, invoked}
use rust_plugin_sdk.Host.Request.{RequestTurn, select_request}

abbrev pub asking : Call → Payload
asking call = Payload.host_call (record { call = some call })

unfoldable pub host_call : ActionContext → Call → RequestTurn → Async HostClient HostCallResponse
unfolding prepare_call
host_call c call turn h =
    let chain : Async HostClient HostCallResponse = do
      (kind, trace) ← lift (prepare_call c turn.begun h call)
      payload ← select_request trace (asking call) turn
      lift (checked_answer kind h.session_id (ok payload))
    in chain h

unfoldable pub get_config :
    ActionContext → Option ConfigPath → RequestTurn → Async HostClient GetConfigResponse
unfolding host_call configured
get_config c path turn = do
  response ← host_call c (Call.get_config (record { path = path })) turn
  lift (configured response)

unfoldable pub invoke_config_function :
    ActionContext
    → ConfigFunctionRef
    → List ConfigValue
    → RequestTurn
    → Async HostClient InvokeConfigFunctionResponse
unfolding host_call invoked
invoke_config_function c function arguments turn = do
  response ←
      host_call c
        (Call.invoke_config_function (record { function = some function; arguments = arguments }))
        turn
  lift (invoked response)
