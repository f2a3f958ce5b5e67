-- ===== src/Session/Run/Numbered.antt =====
-- The handshake's own messages are numbered like all others.
use rust_plugin_sdk.Prelude.{◌≡◌, sym, subst, none, List, []}
use rust_plugin_sdk.Protocol.{Payload}
use rust_plugin_sdk.Error.{Result, ok, err, panic}
use rust_plugin_sdk.Exec
use rust_plugin_sdk.Exec.{Exec}
use rust_plugin_sdk.Validation.{UuidCrate}
use rust_plugin_sdk.Sender.{Wire, send}
use rust_plugin_sdk.Sender.Order.{IsOrdered, new_sender-IsOrdered, send-IsOrdered}
use rust_plugin_sdk.Plugin.{Plugin}
use rust_plugin_sdk.Host.Client.{new_client}
use rust_plugin_sdk.Session.Serve.{Incoming, Event, Serving, serve}
use rust_plugin_sdk.Session.Handshake.{Opened, plugin_hello}
use rust_plugin_sdk.Session.Jobs.{new_manager}
use rust_plugin_sdk.Session.Ordered.{serve_keeps_order}
use rust_plugin_sdk.Session.Greeting.{
  Greeting, receive, check_ready, greet, greeting, start_session,
}
use rust_plugin_sdk.Session.Greeting.Greeted.{IsStarted, start_session-IsStarted}

abbrev InOrder : Greeting → Type 0
InOrder g = IsOrdered g.sender

orderly_proceed :
    {A B : Type 0} (r : Result A) (f : A → Exec Greeting B) (g : Greeting)
    → InOrder g
    → ((a : A) → InOrder (f a g).1)
    → InOrder (Exec.proceed r f g).1
orderly_proceed (ok a) f g v next = next a
orderly_proceed (err e) f g v next = v
orderly_proceed (panic m) f g v next = v

greet-IsOrdered :
    (plugin : Plugin) (o : Opened) (second : Incoming) (g : Greeting)
    → InOrder g
    → InOrder (greet plugin o second g).1
unfolding greet
greet-IsOrdered plugin o second g v = orderly_proceed (plugin_hello plugin o.hello) _ g v λ hello.
    let said = send none o.trace hello g.sender in
    let v1 = send-IsOrdered none o.trace hello g.sender v in
    orderly_proceed said.0 _ (record g { sender = said.1 }) v1
      λ n.
        let heard = receive second g.session in
        let h : Greeting = record { sender = said.1; session = heard.1 } in
        orderly_proceed heard.0 _ h v1 λ ready.
          orderly_proceed (check_ready o.trace ready) _ h v1 λ _.
            let replied = send none o.trace Payload.ready said.1 in
            let v2 = send-IsOrdered none o.trace Payload.ready said.1 v1 in
            orderly_proceed replied.0 _ (record h { sender = replied.1 }) v2 λ m. v2

started-IsOrdered :
    (plugin : Plugin) (wire : Wire) (first second : Incoming) (s : Serving)
    → wire.sent ≡ []
    → IsStarted plugin wire first second s
    → IsOrdered s.jobs.host.sender
unfolding new_manager new_client
started-IsOrdered plugin wire first second s unused v =
    let o = v.settled in
    let fresh : IsOrdered o.sender =
      subst IsOrdered (sym v.untouched) (new_sender-IsOrdered wire o.session.identity unused) in
    let kept : IsOrdered v.end.sender =
      subst (λ r. IsOrdered r.1.sender) v.exchanged
        (greet-IsOrdered plugin o second (greeting o) fresh) in
    subst (λ x. IsOrdered x.jobs.host.sender) (sym v.starts)
      (subst (λ x. IsOrdered x.sender) (sym v.greeted.client) kept)

-- On an unused stream, all that the plugin sends in a session, from its PluginHello to its last message,
-- whatever happens and however the loop ends, is numbered by strictly increasing nonzero IDs that fit 64
-- bits, under the session's own identity.
pub session_keeps_order :
    (u : UuidCrate) (plugin : Plugin) (wire : Wire) (first second : Incoming) (events : List Event)
    (s : Serving)
    → wire.sent ≡ []
    → start_session u plugin wire first second ≡ ok s
    → IsOrdered (serve u events s).1.jobs.host.sender
session_keeps_order u plugin wire first second events s unused e = serve_keeps_order u events s (
    started-IsOrdered plugin wire first second s unused
      (start_session-IsStarted u plugin wire first second s e))
