-- ===== src/Session/Greeting/Defs.antt =====
-- The exchange that follows the first host message: the PluginHello, the host's SessionReady, the
-- plugin's own, and the host client that is built.
use rust_plugin_sdk.Prelude.{
  Bool, true, false, not, ◌&&◌, Option, none, some, ◌==◌, option_eq, is_some,
}
use rust_plugin_sdk.Protocol.{trace_eq, TraceContext, Payload, PluginEnvelope}
use rust_plugin_sdk.Error
use rust_plugin_sdk.Error.{SdkError, Result, ok, err, panic, ensure}
use rust_plugin_sdk.Exec.{Exec, ◌>>=◌, ◌>>◌, pure, raise, lift, gets}
use rust_plugin_sdk.Validation.{UuidCrate}
use rust_plugin_sdk.Sender.{SessionSender, Wire, send}
use rust_plugin_sdk.Plugin.{Plugin}
use rust_plugin_sdk.Host.Client.{HostClient, new_client}
use rust_plugin_sdk.Session.Envelope.{SessionState, validate_envelope}
use rust_plugin_sdk.Session.Jobs.{new_manager}
use rust_plugin_sdk.Session.Serve.{Incoming, Serving}
use rust_plugin_sdk.Session.Handshake.{Opened, open_session, plugin_hello}

unfoldable pub receive : Incoming → Exec SessionState PluginEnvelope
unfolding validate_envelope
receive (Incoming.broken error) = raise (SdkError.runtime "receive handshake envelope" error)
receive Incoming.closed = raise (SdkError.transport "host closed the plugin stream")
receive (Incoming.received envelope) = do validate_envelope envelope; pure envelope

abbrev pub is_ready : Option Payload → Bool
is_ready (some Payload.ready) = true
is_ready _ = false

abbrev pub check_ready : TraceContext → PluginEnvelope → Result (Unit {0})
check_ready trace ready =
    ensure (not (is_some ready.reply_to) && (ready.trace == some trace && is_ready ready.payload))
      (SdkError.protocol "host SessionReady must follow PluginHello with the HostHello trace")

-- The variables of `run_session` that the exchange changes.
pub record Greeting : Type 0 where
  pub sender : SessionSender
  pub session : SessionState

module _ {A : Type 0} where
  abbrev pub with_sender : Exec SessionSender A → Exec Greeting A
  with_sender m g = let (r, s) = m g.sender in (r, record g { sender = s })

  abbrev pub with_session : Exec SessionState A → Exec Greeting A
  with_session m g = let (r, s) = m g.session in (r, record g { session = s })

unfoldable pub greet : Plugin → Opened → Incoming → Exec Greeting HostClient
unfolding plugin_hello receive send new_client
greet plugin o second = do
  hello ← lift (plugin_hello plugin o.hello)
  with_sender (send none o.trace hello)
  ready ← with_session (receive second)
  lift (check_ready o.trace ready)
  with_sender (send none o.trace Payload.ready)
  gets (λ g.
      new_client g.sender g.session.identity.session_id o.hello.maximum_artifact_chunk_bytes
        o.hello.maximum_call_depth)

abbrev pub greeting : Opened → Greeting
greeting o = record { sender = o.sender; session = o.session }

-- The variables of `serve` at its start.
abbrev pub serving : Plugin → Result HostClient × Greeting → Result Serving
serving plugin (r, g) = Error.◌>>=◌ r λ host. ok (record {
  jobs = new_manager plugin.actions plugin.maximum_concurrent_jobs host;
  session = g.session;
})

-- `run_session` up to `serve`, on the first two host messages.
unfoldable pub start_session : UuidCrate → Plugin → Wire → Incoming → Incoming → Result Serving
unfolding open_session greet
start_session u plugin wire first second =
    Error.◌>>=◌ (open_session u plugin wire first)
      λ o. serving plugin (greet plugin o second (greeting o))
