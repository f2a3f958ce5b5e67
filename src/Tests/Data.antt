-- ===== src/Tests/Data.antt =====
-- The data of the examples: one plugin instance, one channel that takes everything, one action.
use rust_plugin_sdk.Prelude.{
  String, true, none, some, List, [], ◌∷◌, ◌==◌, string_eq, nat_eq, if◌then◌else◌,
}
use rust_plugin_sdk.Prelude.Int.{pos}
use rust_plugin_sdk.Protocol.{TraceContext, StartJobRequest, CancelJobRequest}
use rust_plugin_sdk.Validation.{UuidCrate, UuidVersion}
use rust_plugin_sdk.Sender.{Wire, SessionIdentity, SessionSender, new_sender}
use rust_plugin_sdk.Host.Client.{HostClient, new_client}
use rust_plugin_sdk.Host.Context.{ActionContext}
use rust_plugin_sdk.Host.Output.{empty}
use rust_plugin_sdk.Plugin.{RegisteredAction, Handled, Poll, Output, succeeded}

abbrev pub first_id : String
first_id = "6f1c2f4e-8a53-4a0e-9d7f-0c9a6a1b2c3d"

abbrev pub second_id : String
second_id = "0b54d1a2-77c4-4f5b-8e21-5f6d7a8b9c0d"

-- A UUID package that knows two UUIDs.
abbrev pub two_uuids : UuidCrate
two_uuids = record {
  parse_str = λ s. if s == first_id then some 1 else if s == second_id then some 2 else none;
  get_version = λ id. some UuidVersion.random;
  hyphenated = λ id. if id == 1 then first_id else second_id;
}

abbrev pub root_trace : TraceContext
root_trace = record {
  correlation_id = "correlation";
  parent_call_id = none;
  call_depth = 0;
  causal_depth = 0;
  task_id = none;
  task_group_id = none;
}

abbrev pub open_wire : Wire
open_wire = record { accepts = λ outs. true; consumes = λ outs. true; sent = [] }

abbrev pub identity : SessionIdentity
identity = record { session_id = "session"; instance_id = "instance" }

abbrev pub sender : SessionSender
sender = new_sender open_wire identity

abbrev pub client : HostClient
client = new_client sender "session" 1024 8

abbrev pub done : Output
done = succeeded empty

abbrev pub echo : RegisteredAction
echo = record {
  description = "answers at once";
  handler = λ arguments. Handled.future (λ n. Poll.ready done);
}

abbrev pub actions : List (String × RegisteredAction)
actions = ("echo", echo) ∷ []

abbrev pub start_request : String → StartJobRequest
start_request id = record {
  job_id = some (record { value = id });
  deadline = none;
  invocation = some (record { action = "echo"; arguments = [] });
}

abbrev pub cancel_request : String → CancelJobRequest
cancel_request id = record { job_id = some (record { value = id }); reason = pos 1 }

abbrev pub context : ActionContext
context = record { job_id = first_id; deadline = none; trace = root_trace; parent_call_id = 2 }
