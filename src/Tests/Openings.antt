-- ===== src/Tests/Openings.antt =====
-- One session: its handshake, a shutdown, and the close of the stream.
use rust_plugin_sdk.Prelude.{ℕ, ◌≡◌, ◌↔◌, refl, none, some, List, [], ◌∷◌}
use rust_plugin_sdk.Prelude.Int.{pos}
use rust_plugin_sdk.Prelude.Text.{bytes}
use rust_plugin_sdk.Protocol.{Payload, PluginEnvelope, HostHello, Timestamp}
use rust_plugin_sdk.Error.{ok}
use rust_plugin_sdk.Validation
use rust_plugin_sdk.Validation.{canonical_uuid_v4, valid_dns_label}
use rust_plugin_sdk.Plugin.{Plugin}
use rust_plugin_sdk.Session.Serve.{Incoming, Event, Serving, serve, step, handle, dispatch}
use rust_plugin_sdk.Session.Handshake.{Opened, open_session, receive_initial, opened, plugin_hello}
use rust_plugin_sdk.Value.Domain.{valid_timestamp}
use rust_plugin_sdk.Sender
use rust_plugin_sdk.Sender.{enqueue, new_sender}
use rust_plugin_sdk.Sender.Order.{IsOrdered}
use rust_plugin_sdk.Host.Client.{new_client}
use rust_plugin_sdk.Host.Source.{IoCall, gives}
use rust_plugin_sdk.Session.Envelope.{validate_envelope}
use rust_plugin_sdk.Session.Jobs
use rust_plugin_sdk.Session.Jobs.{new_manager, send_all}
use rust_plugin_sdk.Session.Greeting.{receive, greet, greeting, start_session}
use rust_plugin_sdk.Session.Greeting.Greeted.{IsStarted, start_session-IsStarted}
use rust_plugin_sdk.Session.Closing.{after, wait_for_host_close}
use rust_plugin_sdk.Session.Closing.Closed.{IsSilent, wait_for_host_close_iff}
use rust_plugin_sdk.Session.Run.{Connection, Script, run_session}
use rust_plugin_sdk.Session.Run.Numbered.{session_keeps_order}
use rust_plugin_sdk.Session.Run.Whole.{EndsWell, run_session-EndsWell}
use rust_plugin_sdk.Tests.Data.{first_id, two_uuids, root_trace, open_wire, actions}

abbrev pub plugin : Plugin
plugin = record {
  plugin_id = "com.example";
  version = "1";
  actions = actions;
  maximum_concurrent_jobs = 4;
}

abbrev hello : HostHello
hello = record {
  node = some (record {
    node_id = some (record { value = first_id });
    node_name = some (record { value = "node" });
  });
  maximum_call_depth = 8;
  maximum_causal_depth = 8;
  maximum_artifact_chunk_bytes = 1024;
  plugin_id = some (record { value = "com.example" });
  plugin_name = some (record { value = "example" });
}

abbrev first : PluginEnvelope
first = record {
  message_id = 1;
  reply_to = none;
  session_id = "session";
  plugin_instance_id = "instance";
  trace = some root_trace;
  payload = some (Payload.host_hello hello);
}

abbrev session : Opened
session = opened open_wire first hello root_trace

session_opened : open_session two_uuids plugin open_wire (Incoming.received first) ≡ ok session
unfolding open_session receive_initial Validation.host_hello Validation.trace canonical_uuid_v4
    valid_dns_label bytes
session_opened = refl

abbrev second : PluginEnvelope
second = record {
  message_id = 2;
  reply_to = none;
  session_id = "session";
  plugin_instance_id = "instance";
  trace = some root_trace;
  payload = some Payload.ready;
}

abbrev first_message : Incoming
first_message = Incoming.received first

abbrev second_message : Incoming
second_message = Incoming.received second

abbrev shutdown_deadline : Timestamp
shutdown_deadline = record { seconds = pos 1700000000; nanos = pos 0 }

abbrev shutdown_message : PluginEnvelope
shutdown_message = record second {
  message_id = 3;
  payload = some (
      Payload.shutdown
        (record { reason = "update"; grace_period_deadline = some shutdown_deadline }));
}

-- The loop's variables after the handshake.
abbrev begun : Serving
begun = record {
  jobs = new_manager actions 4 (
      new_client (greet plugin session second_message (greeting session)).1.sender "session" 1024
        8);
  session = record session.session { last_host_message_id = 2 };
}

session_starts : start_session two_uuids plugin open_wire first_message second_message ≡ ok begun
unfolding start_session greet receive validate_envelope plugin_hello Sender.send enqueue new_sender
    new_client new_manager open_session receive_initial Validation.host_hello Validation.trace
    canonical_uuid_v4 valid_dns_label bytes
session_starts = refl

start_session-IsStarted_example : IsStarted plugin open_wire first_message second_message begun
start_session-IsStarted_example =
    start_session-IsStarted two_uuids plugin open_wire first_message second_message begun
      session_starts

abbrev pub events : List Event
events = Event.takes (Incoming.received shutdown_message) ∷ []

session_keeps_order_example : IsOrdered (serve two_uuids events begun).1.jobs.host.sender
session_keeps_order_example =
    session_keeps_order two_uuids plugin open_wire first_message second_message events begun refl
      session_starts

-- A clock for which every deadline lies at 5.
abbrev pub system_time : Timestamp → IoCall ℕ
system_time t = gives 5

wait_for_host_close_iff_example :
    (wait_for_host_close system_time shutdown_deadline 2 (after 9 first_message) ≡ ok tt) ↔ (
      (time : ℕ) × (system_time shutdown_deadline ≡ gives time)
      × IsSilent 2 time (after 9 first_message))
wait_for_host_close_iff_example =
    wait_for_host_close_iff system_time shutdown_deadline 2 (after 9 first_message)

abbrev pub connection : Connection
connection = record { channel = gives tt; stream = gives open_wire }

abbrev pub script : Script
script = record {
  first = first_message;
  second = second_message;
  events = events;
  now = 2;
  arrival = after 1 Incoming.closed;
}

pub script_runs : run_session two_uuids system_time plugin connection script ≡ some (ok tt)
unfolding run_session start_session greet receive validate_envelope plugin_hello Sender.send enqueue
    new_sender new_client new_manager open_session receive_initial Validation.host_hello
    Validation.trace canonical_uuid_v4 valid_dns_label bytes serve step handle dispatch
    Validation.shutdown Validation.timestamp valid_timestamp Jobs.shutdown send_all
    Sender.send_and_wait_for_consumption wait_for_host_close
script_runs = refl

run_session-EndsWell_example : EndsWell two_uuids system_time plugin connection script
run_session-EndsWell_example =
    run_session-EndsWell two_uuids system_time plugin script connection script_runs
