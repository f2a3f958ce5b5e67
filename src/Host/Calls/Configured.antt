-- ===== src/Host/Calls/Configured.antt =====
-- The two configuration calls give what their host calls give.
use rust_plugin_sdk.Prelude.{String, ◌≡◌, ◌≢◌, refl, ap, ◌∙◌, Option, none, some, List, arith}
use rust_plugin_sdk.Protocol.{
  ProtocolError, Call, CallResult, HostCallResponse, ConfigPath, ConfigFunctionRef, ConfigValue,
  GetConfigResponse, InvokeConfigFunctionResponse,
}
use rust_plugin_sdk.Error.{Result, ok, err, panic}
use rust_plugin_sdk.Async.{proceed, lift, ended}
use rust_plugin_sdk.Host.Client.{HostClient}
use rust_plugin_sdk.Host.Call.{HostCallKind}
use rust_plugin_sdk.Host.Call.Answers.{Answers}
use rust_plugin_sdk.Host.Context.{ActionContext, configured, invoked}
use rust_plugin_sdk.Host.Request.{RequestTurn}
use rust_plugin_sdk.Host.Calls.Defs.{host_call, get_config, invoke_config_function}
use rust_plugin_sdk.Host.Calls.Answered.{host_call-Answers}

-- An outcome that is that of the host call, its response read as a value of one kind.
module _ {V : Type 0} (make : V → CallResult) where
  abbrev pub Reads : Option (Result HostCallResponse) → Option (Result V) → Type 0
  Reads none o = o ≡ none
  Reads (some (ok response)) o =
      (value : V) × (response.result ≡ some (make value)) × (o ≡ some (ok value))
  Reads (some (err e)) o = o ≡ some (err e)
  Reads (some (panic m)) o = o ≡ some (panic m)

  -- A response that is read without an error.
  abbrev IsRead : (HostCallResponse → Result V) → HostCallResponse → Type 0
  IsRead read response =
      (value : V) × (response.result ≡ some (make value)) × (read response ≡ ok value)

  step-Reads :
      (read : HostCallResponse → Result V) (o : Option (Result HostCallResponse)) (t : HostClient)
      → ((response : HostCallResponse) → o ≡ some (ok response) → IsRead read response)
      → Reads o (proceed o (λ response. lift (read response)) t).0
  step-Reads read none t good = refl
  step-Reads read (some (err e)) t good = refl
  step-Reads read (some (panic m)) t good = refl
  step-Reads read (some (ok response)) t good =
      let (value, given, fine) = good response refl in (value, given, ap some fine)

module _ (session_id : String) where
  config_result :
      (result : CallResult)
      → Answers HostCallKind.get_config result session_id
      → ((error : ProtocolError) → result ≢ CallResult.error error)
      → (value : GetConfigResponse) × (result ≡ CallResult.get_config value)
  config_result (CallResult.get_config value) answers fine = (value, refl)
  config_result (CallResult.error error) answers fine = absurd (fine error refl)
  config_result (CallResult.read_document _) answers fine = absurd answers
  config_result (CallResult.list_directory _) answers fine = absurd answers
  config_result (CallResult.get_directory_tree _) answers fine = absurd answers
  config_result (CallResult.read_crdt _) answers fine = absurd answers
  config_result (CallResult.commit_documents _) answers fine = absurd answers
  config_result (CallResult.invoke_config_function _) answers fine = absurd answers

  function_result :
      (result : CallResult)
      → Answers HostCallKind.invoke_config_function result session_id
      → ((error : ProtocolError) → result ≢ CallResult.error error)
      → (value : InvokeConfigFunctionResponse) × (result ≡ CallResult.invoke_config_function value)
  function_result (CallResult.invoke_config_function value) answers fine = (value, refl)
  function_result (CallResult.error error) answers fine = absurd (fine error refl)
  function_result (CallResult.read_document _) answers fine = absurd answers
  function_result (CallResult.list_directory _) answers fine = absurd answers
  function_result (CallResult.get_directory_tree _) answers fine = absurd answers
  function_result (CallResult.read_crdt _) answers fine = absurd answers
  function_result (CallResult.commit_documents _) answers fine = absurd answers
  function_result (CallResult.get_config _) answers fine = absurd answers

configured_at :
    (response : HostCallResponse) (value : GetConfigResponse)
    → response.result ≡ some (CallResult.get_config value)
    → configured response ≡ ok value
unfolding configured
configured_at response value present = ground (arith, present)

invoked_at :
    (response : HostCallResponse) (value : InvokeConfigFunctionResponse)
    → response.result ≡ some (CallResult.invoke_config_function value)
    → invoked response ≡ ok value
unfolding invoked
invoked_at response value present = ground (arith, present)

-- Both configuration calls come out exactly as their host calls do: with the value that the response
-- carries, which is always one of their own kind, or with the host call's error, or they wait as it does.
-- So neither ever reports a response of another kind.
pub config_calls-Reads :
    (c : ActionContext) (path : Option ConfigPath) (function : ConfigFunctionRef)
    (arguments : List ConfigValue) (turn : RequestTurn) (h : HostClient)
    → let reading = Call.get_config (record { path = path }) in
      let invoking =
        Call.invoke_config_function (record { function = some function; arguments = arguments }) in
      Reads CallResult.get_config (host_call c reading turn h).0 (get_config c path turn h).0
      × Reads CallResult.invoke_config_function
          (host_call c invoking turn h).0
          (invoke_config_function c function arguments turn h).0
unfolding get_config invoke_config_function
config_calls-Reads c path function arguments turn h =
    let reading = Call.get_config (record { path = path }) in
    let invoking =
      Call.invoke_config_function (record { function = some function; arguments = arguments }) in
    (
      step-Reads CallResult.get_config configured _ (host_call c reading turn h).1
          λ response returns.
            let v =
              host_call-Answers c reading turn h _ response
                (ended (host_call c reading turn) h returns) in
            let (value, is) = config_result h.session_id v.result v.answers v.fine in
            let given = v.present ∙ ap some is in
            (value, given, configured_at response value given),
      step-Reads CallResult.invoke_config_function invoked _ (host_call c invoking turn h).1
          λ response returns.
            let v =
              host_call-Answers c invoking turn h _ response
                (ended (host_call c invoking turn) h returns) in
            let (value, is) = function_result h.session_id v.result v.answers v.fine in
            let given = v.present ∙ ap some is in (value, given, invoked_at response value given),
    )
