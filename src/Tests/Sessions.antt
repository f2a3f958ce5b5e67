-- ===== src/Tests/Sessions.antt =====
-- The session's theorems at one session.
use rust_plugin_sdk.Prelude.{ℕ, ◌≡◌, ◌↔◌, refl, none, some, List, [], ◌∷◌}
use rust_plugin_sdk.Protocol.{TraceContext, Payload, PluginEnvelope}
use rust_plugin_sdk.Error.{SdkError, ok, err}
use rust_plugin_sdk.Sender.Order.{IsOrdered, new_sender-IsOrdered}
use rust_plugin_sdk.Host.Client.{new_client}
use rust_plugin_sdk.Validation
use rust_plugin_sdk.Sender
use rust_plugin_sdk.Session.Jobs.{new_manager}
use rust_plugin_sdk.Session.Envelope.{
  SessionState, validate_envelope, IsNext, validate_envelope_iff,
}
use rust_plugin_sdk.Session.Serve.{Serving, Event, Incoming, serve}
use rust_plugin_sdk.Session.Steady.{Safe}
use rust_plugin_sdk.Session.Safety.{IsServing, serve_never_panics}
use rust_plugin_sdk.Tests.Data.{
  first_id, two_uuids, root_trace, identity, open_wire, client, actions, done, start_request,
}

abbrev opened : SessionState
opened = record {
  identity = identity;
  last_host_message_id = 2;
  maximum_call_depth = 8;
  maximum_causal_depth = 8;
}

abbrev host_message : ℕ → Payload → PluginEnvelope
host_message message_id payload = record {
  message_id = message_id;
  reply_to = none;
  session_id = "session";
  plugin_instance_id = "instance";
  trace = some root_trace;
  payload = some payload;
}

abbrev start_message : PluginEnvelope
start_message = host_message 3 (Payload.start_job (start_request first_id))

validate_envelope_iff_example :
    ((t : TraceContext)
      → (validate_envelope start_message opened
          ≡ (ok t, record opened { last_host_message_id = start_message.message_id }))
        ↔ IsNext start_message opened t)
    × (((t : TraceContext) → ¬ IsNext start_message opened t)
        → (e : SdkError) × (validate_envelope start_message opened ≡ (err e, opened)))
validate_envelope_iff_example = validate_envelope_iff start_message opened

abbrev events : List Event
events =
    Event.takes (Incoming.received start_message)
    ∷ Event.drops_request root_trace
    ∷ Event.drops_message
    ∷ Event.ends first_id done
    ∷ Event.joins
    ∷ Event.takes (Incoming.received (host_message 4 (Payload.heartbeat 7)))
    ∷ []

abbrev ready : Serving
ready = record { jobs = new_manager actions 1 client; session = opened }

serve_never_panics_example : Safe IsServing (serve two_uuids events ready)
serve_never_panics_example =
    serve_never_panics two_uuids actions 1 client opened events
      (tt, (tt, (tt, (tt, (tt, (tt, tt))))))

ready-IsOrdered : IsOrdered ready.jobs.host.sender
unfolding new_manager new_client
ready-IsOrdered = new_sender-IsOrdered open_wire identity refl

abbrev told : Serving
told = (serve two_uuids events ready).1
