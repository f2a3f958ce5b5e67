-- ===== src/Tests/Hosts.antt =====
-- Requests to the host and artifacts at concrete inputs.
use rust_plugin_sdk.Prelude.{none}
use rust_plugin_sdk.Prelude.{◌≤◌, ◌<◌, ◌≡◌, ◌↔◌, refl, some, []}
use rust_plugin_sdk.Protocol.{
  Payload, Call, CallResult, HostCallResponse, ArtifactDescriptor, PluginArtifactId,
}
use rust_plugin_sdk.Error.{SdkError, ok, err}
use rust_plugin_sdk.Sender
use rust_plugin_sdk.Sender.{send_registered}
use rust_plugin_sdk.Host.Client.{new_client, issue, route, receive, answer, register}
use rust_plugin_sdk.Host.Client.Routes.{IsRouting, new_client-IsRouting, request_is_answered}
use rust_plugin_sdk.Host.Call.{HostCallKind, validate, validate_response}
use rust_plugin_sdk.Cancellation.{active, ensure_active}
use rust_plugin_sdk.Protocol.{TraceContext}
use rust_plugin_sdk.Host.Client.{HostClient, call_result}
use rust_plugin_sdk.Protocol.{ConfigFunctionRef}
use rust_plugin_sdk.Host.Context.{ActionContext, prepare_call, call_trace}
use rust_plugin_sdk.Prelude.{◌+◌, ◌≢◌, arith, nat_eq}
use rust_plugin_sdk.Prelude.Map.{lookup}
use rust_plugin_sdk.Sender.{u64_max}
use rust_plugin_sdk.Sender.Effect.{transcript}
use rust_plugin_sdk.Host.Request.Dropped.{drop_sending_undoes}
use rust_plugin_sdk.Host.Request.{drop_sending, RequestTurn, Progress, request_host}
use rust_plugin_sdk.Host.Calls.{host_call, get_config, invoke_config_function}
use rust_plugin_sdk.Host.Calls.Answered.{Called, host_call-Answers}
use rust_plugin_sdk.Host.Calls.Configured.{Reads, config_calls-Reads}
use rust_plugin_sdk.Host.Artifact.{u32_max, ArtifactPlan, artifact_plan, validate_descriptor}
use rust_plugin_sdk.Host.Artifact.Plan.{Covers, artifact_plan-Covers}
use rust_plugin_sdk.Host.Artifact.Descriptor.{IsTransferable, validate_descriptor_iff}
use rust_plugin_sdk.Tests.Data.{first_id, two_uuids, root_trace, sender, client}

abbrev pinged : Payload
pinged = Payload.heartbeat 1

client-IsRouting : IsRouting client
client-IsRouting = new_client-IsRouting sender "session" 1024 8

request_issued : (issue root_trace pinged client).0 ≡ ok 1
unfolding issue send_registered register Sender.enqueue new_client Sender.new_sender
request_issued = refl

request_is_answered_example :
    let sent = (issue root_trace pinged client).1 in
    let routed = route 1 root_trace (Payload.heartbeat 2) sent in
    (routed.0 ≡ ok tt)
    × (receive 1 routed.1 ≡ some (answer (Payload.heartbeat 2)))
    × ((e : SdkError) × (route 1 root_trace (Payload.heartbeat 3) routed.1 ≡ (err e, routed.1)))
request_is_answered_example =
    request_is_answered root_trace pinged (Payload.heartbeat 2) (Payload.heartbeat 3) root_trace
      client 1 client-IsRouting request_issued

numbers_left : client.sender.next_message_id ≢ u64_max
unfolding new_client Sender.new_sender
numbers_left same = ground (arith, same)

drop_sending_undoes_example :
    (lookup 1 (drop_sending root_trace client).routing.pending ≡ lookup 1 client.routing.pending)
    × (transcript (drop_sending root_trace client).sender ≡ transcript client.sender)
    × ((drop_sending root_trace client).sender.next_message_id ≡ client.sender.next_message_id + 1)
drop_sending_undoes_example = drop_sending_undoes root_trace client 1 client-IsRouting numbers_left

abbrev reading : Call
reading = Call.read_document []

abbrev read : HostCallResponse
read = record { result = some (CallResult.read_document []) }

reading_valid : validate reading "session" ≡ ok HostCallKind.read_document
unfolding validate
reading_valid = refl

read_valid : validate_response HostCallKind.read_document read "session" ≡ ok tt
unfolding validate_response
read_valid = refl

abbrev three_chunks : ArtifactPlan
three_chunks = record { chunk_bytes = 1024; chunk_count = 3 }

planned : artifact_plan 3000 1024 ≡ ok three_chunks
unfolding artifact_plan
planned = refl

artifact_plan-Covers_example :
    Covers three_chunks 3000
    × (0 < three_chunks.chunk_bytes)
    × (three_chunks.chunk_bytes ≤ 1024)
    × (three_chunks.chunk_bytes ≤ 65536)
    × (three_chunks.chunk_count ≤ u32_max)
artifact_plan-Covers_example = artifact_plan-Covers 3000 1024 three_chunks planned

abbrev report : ArtifactDescriptor
report = record {
  artifact_id = some (record { value = first_id });
  file_name = "report.txt";
  media_type = "text/plain";
  size_bytes = 3;
  sha256 = [];
}

abbrev report_id : PluginArtifactId
report_id = record { value = first_id }

validate_descriptor_iff_example :
    (validate_descriptor two_uuids report ≡ ok report_id)
    ↔ IsTransferable two_uuids report report_id
validate_descriptor_iff_example = validate_descriptor_iff two_uuids report report_id

abbrev echo_context : ActionContext
echo_context = record { job_id = first_id; deadline = none; trace = root_trace; parent_call_id = 5 }

abbrev nested_trace : TraceContext
nested_trace = record root_trace { parent_call_id = some 5; call_depth = 1 }

call_prepared :
    prepare_call echo_context active client reading ≡ ok (HostCallKind.read_document, nested_trace)
unfolding prepare_call ensure_active validate call_trace new_client
call_prepared = refl

-- The host answers the first message.
abbrev answered : RequestTurn
answered = record {
  begun = active;
  ended = active;
  progress = Progress.waiting;
  others = λ h. (route 1 nested_trace (Payload.host_result read) h).1;
}

abbrev served : HostClient
served = (host_call echo_context reading answered client).1

call_returns : host_call echo_context reading answered client ≡ (some (ok read), served)
unfolding host_call prepare_call ensure_active validate call_trace new_client request_host issue
    receive route send_registered register Sender.enqueue Sender.new_sender answer call_result
    validate_response
call_returns = refl

host_call-Answers_example : Called echo_context reading answered client read served
host_call-Answers_example =
    host_call-Answers echo_context reading answered client served read call_returns

abbrev helper : ConfigFunctionRef
helper = record { session_id = "session"; function_id = "render" }

config_calls-Reads_example :
    Reads CallResult.get_config
      (host_call echo_context (Call.get_config (record { path = none })) answered client).0
      (get_config echo_context none answered client).0
    × Reads CallResult.invoke_config_function
        (host_call echo_context
          (Call.invoke_config_function (record { function = some helper; arguments = [] }))
          answered
          client).0
        (invoke_config_function echo_context helper [] answered client).0
config_calls-Reads_example = config_calls-Reads echo_context none helper [] answered client
