-- ===== src/Session/Handshake.antt =====
-- The handshake of `run_session`, from the first host message to the host client.
use rust_plugin_sdk.Prelude.{
  String, not, ◌||◌, Option, some, List, [], ◌∷◌, is_some, ◌!=◌, nat_eq, option_eq,
}
use rust_plugin_sdk.Prelude.Text.{is_empty}
use rust_plugin_sdk.Protocol.{
  trace_eq, TraceContext, Payload, PluginEnvelope, HostHello, ActionDescriptor,
}
use rust_plugin_sdk.Error.{SdkError, Result, ok, err, ◌>>=◌, ◌>>◌, ensure, expect}
use rust_plugin_sdk.Validation
use rust_plugin_sdk.Validation.{UuidCrate}
use rust_plugin_sdk.Sender.{SessionSender, Wire, new_sender}
use rust_plugin_sdk.Plugin.{Plugin, RegisteredAction}
use rust_plugin_sdk.Session.Envelope.{SessionState}
use rust_plugin_sdk.Session.Serve.{Incoming}

unfoldable pub receive_initial : Incoming → Result PluginEnvelope
receive_initial (Incoming.broken error) = err (SdkError.runtime "receive initial HostHello" error)
receive_initial Incoming.closed = err (SdkError.transport "host closed the plugin stream")
receive_initial (Incoming.received envelope) =
    ensure (envelope.message_id != 0)
      (SdkError.protocol "host message IDs must be nonzero and strictly increasing")
    >> ok envelope

abbrev pub hello_of : Option Payload → Result HostHello
hello_of (some (Payload.host_hello hello)) = ok hello
hello_of _ = err (SdkError.protocol "HostHello must be the first host message")

-- What the first message settles.
pub record Opened : Type 0 where
  pub session : SessionState
  pub trace : TraceContext
  pub hello : HostHello
  pub sender : SessionSender

abbrev pub opened : Wire → PluginEnvelope → HostHello → TraceContext → Opened
opened wire first hello trace = record {
  session = record {
    identity = record { session_id = first.session_id; instance_id = first.plugin_instance_id };
    last_host_message_id = first.message_id;
    maximum_call_depth = hello.maximum_call_depth;
    maximum_causal_depth = hello.maximum_causal_depth;
  };
  trace = trace;
  hello = hello;
  sender =
      new_sender wire
        (record { session_id = first.session_id; instance_id = first.plugin_instance_id });
}

unfoldable pub open_session : UuidCrate → Plugin → Wire → Incoming → Result Opened
unfolding receive_initial
open_session u plugin wire incoming = do
  first ← receive_initial incoming
  ensure (not (is_empty first.session_id || is_empty first.plugin_instance_id))
      (SdkError.protocol "HostHello envelope omitted its session or instance identity")
  ensure (not (is_some first.reply_to))
      (SdkError.protocol "HostHello must not reply to another message")
  hello ← hello_of first.payload
  Validation.host_hello u plugin.plugin_id hello
  trace ← Validation.trace first hello.maximum_call_depth hello.maximum_causal_depth
  ok (opened wire first hello trace)

abbrev pub descriptors : List (String × RegisteredAction) → List ActionDescriptor
descriptors [] = []
descriptors ((name, action) ∷ actions) =
    record { name = name; description = action.description } ∷ descriptors actions

-- The PluginHello, with the name that the host has given to the plugin.
unfoldable pub plugin_hello : Plugin → HostHello → Result Payload
plugin_hello plugin hello = do
  effective_name ← expect hello.plugin_name "validated plugin name"
  ok (
      Payload.plugin_hello (record {
        plugin_id = some (record { value = plugin.plugin_id });
        plugin_name = some (record { value = effective_name.value });
        actions = descriptors plugin.actions;
        plugin_version = plugin.version;
      }))
