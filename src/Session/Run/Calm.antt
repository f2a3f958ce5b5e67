-- ===== src/Session/Run/Calm.antt =====
-- No step of the handshake panics.
use rust_plugin_sdk.Prelude.{
  String, ◌≡◌, refl, inl, inr, Bool, true, false, not, ◌||◌, Option, none, arith, is_some, nat_eq,
}
use rust_plugin_sdk.Prelude.Text.{is_empty}
use rust_plugin_sdk.Protocol.{HostHello, Payload, TraceContext}
use rust_plugin_sdk.Error.{SdkError, Result, ok, err, panic, ensure, ◌>>=◌}
use rust_plugin_sdk.Exec
use rust_plugin_sdk.Exec.{Exec, lift, gets}
use rust_plugin_sdk.Validation
use rust_plugin_sdk.Validation.{UuidCrate}
use rust_plugin_sdk.Sender.{SessionSender, Wire, send}
use rust_plugin_sdk.Sender.Effect.{send-Delivers}
use rust_plugin_sdk.Plugin.{Plugin}
use rust_plugin_sdk.Host.Client.{HostClient}
use rust_plugin_sdk.Session.Envelope.{
  SessionState, validate_envelope, Verdict, verdict, trace-Checks,
}
use rust_plugin_sdk.Session.Jobs.Frames.{Checks}
use rust_plugin_sdk.Session.Serve.{Incoming}
use rust_plugin_sdk.Session.Handshake.{
  Opened, open_session, receive_initial, hello_of, opened, plugin_hello,
}
use rust_plugin_sdk.Session.Opening.{open_session-IsOpened}
use rust_plugin_sdk.Session.Greeting.{
  Greeting, receive, check_ready, greet, greeting, serving, start_session,
}

abbrev pub IsCalm : {A : Type 0} → Result A → Type 0
IsCalm r = (m : String) → ¬ (r ≡ panic m)

IsCalm-of : {A : Type 0} (r : Result A) → Checks r → IsCalm r
IsCalm-of r (inl (a, e)) m p = ground (arith, e, p)
IsCalm-of r (inr (x, e)) m p = ground (arith, e, p)

IsCalm-bind :
    {A B : Type 0} (r : Result A) (f : A → Result B)
    → IsCalm r
    → ((a : A) → r ≡ ok a → IsCalm (f a))
    → IsCalm (r >>= f)
IsCalm-bind (ok a) f first next = next a refl
IsCalm-bind (err e) f first next = λ m p. ground (arith, p)
IsCalm-bind (panic m) f first next = λ n p. absurd (first m refl)

IsCalm-ensure : (b : Bool) (e : SdkError) → IsCalm (ensure b e)
IsCalm-ensure true e m p = ground (arith, p)
IsCalm-ensure false e m p = ground (arith, p)

IsCalm-ok : {A : Type 0} (a : A) → IsCalm (ok a)
IsCalm-ok a m p = ground (arith, p)

host_hello-IsCalm :
    (u : UuidCrate) (id : String) (hello : HostHello) → IsCalm (Validation.host_hello u id hello)
unfolding Validation.host_hello
host_hello-IsCalm u id hello m p = ground (arith, p)

IsCalm-proceed :
    {S A B : Type 0} (r : Result A) (f : A → Exec S B) (s : S)
    → IsCalm r
    → ((a : A) → r ≡ ok a → IsCalm (f a s).0)
    → IsCalm (Exec.proceed r f s).0
IsCalm-proceed (ok a) f s first next = next a refl
IsCalm-proceed (err e) f s first next = λ m p. ground (arith, p)
IsCalm-proceed (panic m) f s first next = λ n p. absurd (first m refl)

receive_initial-IsCalm : (incoming : Incoming) → IsCalm (receive_initial incoming)
unfolding receive_initial
receive_initial-IsCalm (Incoming.broken error) m = ground arith
receive_initial-IsCalm Incoming.closed m = ground arith
receive_initial-IsCalm (Incoming.received envelope) m = ground arith

hello_of-IsCalm : (o : Option Payload) → IsCalm (hello_of o)
hello_of-IsCalm o m = ground arith

send-IsCalm :
    (trace : TraceContext) (payload : Payload) (s : SessionSender)
    → IsCalm (send none trace payload s).0
send-IsCalm trace payload s m p = elim (send-Delivers none trace payload s) [
  | inl (e, _) ↦ ground (arith, e, p)
  | inr (x, e, _) ↦ ground (arith, e, p)
]

judged-IsCalm :
    {A : Type 0} (s : SessionState) (r : Result TraceContext × SessionState)
    (f : TraceContext → Exec SessionState A)
    → Verdict s r
    → ((t : TraceContext) (x : SessionState) → IsCalm (f t x).0)
    → IsCalm (Exec.proceed r.0 f r.1).0
judged-IsCalm s r f (inl (t, e)) next =
    IsCalm-proceed r.0 f r.1 (λ m p. ground (arith, e, p)) λ a h. next a r.1
judged-IsCalm s r f (inr (x, e)) next = rw e (λ m p. ground (arith, p))

receive-IsCalm : (incoming : Incoming) (s : SessionState) → IsCalm (receive incoming s).0
unfolding receive
receive-IsCalm (Incoming.broken error) s = λ m p. ground (arith, p)
receive-IsCalm Incoming.closed s = λ m p. ground (arith, p)
receive-IsCalm (Incoming.received envelope) s =
    judged-IsCalm s (validate_envelope envelope s) _ (verdict envelope s)
      λ t x m p. ground (arith, p)

open_session-IsCalm :
    (u : UuidCrate) (plugin : Plugin) (wire : Wire) (incoming : Incoming)
    → IsCalm (open_session u plugin wire incoming)
unfolding open_session
open_session-IsCalm u plugin wire incoming =
    IsCalm-bind (receive_initial incoming) _ (receive_initial-IsCalm incoming) λ first _.
      let named = not (is_empty first.session_id || is_empty first.plugin_instance_id) in
      let alone = not (is_some first.reply_to) in
      IsCalm-bind
        (ensure named
          (SdkError.protocol "HostHello envelope omitted its session or instance identity"))
        _ (IsCalm-ensure named _)
        λ _ _.
          IsCalm-bind
            (ensure alone (SdkError.protocol "HostHello must not reply to another message")) _
            (IsCalm-ensure alone _)
            λ _ _. IsCalm-bind (hello_of first.payload) _ (hello_of-IsCalm first.payload) λ hello _.
              IsCalm-bind (Validation.host_hello u plugin.plugin_id hello) _
                (host_hello-IsCalm u plugin.plugin_id hello)
                λ _ _.
                  let limits =
                    Validation.trace first hello.maximum_call_depth hello.maximum_causal_depth in
                  IsCalm-bind limits _
                    (IsCalm-of limits
                      (trace-Checks first hello.maximum_call_depth hello.maximum_causal_depth))
                    λ t _. IsCalm-ok (opened wire first hello t)

greet-IsCalm :
    (plugin : Plugin) (o : Opened) (second : Incoming) (g : Greeting)
    → IsCalm (plugin_hello plugin o.hello)
    → IsCalm (greet plugin o second g).0
unfolding greet
greet-IsCalm plugin o second g introduced =
    IsCalm-proceed (plugin_hello plugin o.hello) _ g introduced λ hello _.
      let said = send none o.trace hello g.sender in
      IsCalm-proceed said.0 _ (record g { sender = said.1 }) (send-IsCalm o.trace hello g.sender)
        λ n _.
          let heard = receive second g.session in
          let h : Greeting = record { sender = said.1; session = heard.1 } in
          IsCalm-proceed heard.0 _ h (receive-IsCalm second g.session) λ ready _.
            IsCalm-proceed (check_ready o.trace ready) _ h (IsCalm-ensure _ _) λ _ _.
              let replied = send none o.trace Payload.ready said.1 in
              IsCalm-proceed replied.0 _ (record h { sender = replied.1 })
                (send-IsCalm o.trace Payload.ready said.1) λ m _. IsCalm-ok _

serving-IsCalm :
    (plugin : Plugin) (r : Result HostClient × Greeting) → IsCalm r.0 → IsCalm (serving plugin r)
serving-IsCalm plugin r calm = IsCalm-bind r.0 _ calm λ host _. IsCalm-ok _

-- The handshake never panics: the plugin's name, which the PluginHello expects to be there, was validated.
pub start_session-IsCalm :
    (u : UuidCrate) (plugin : Plugin) (wire : Wire) (first second : Incoming)
    → IsCalm (start_session u plugin wire first second)
unfolding start_session
start_session-IsCalm u plugin wire first second =
    IsCalm-bind (open_session u plugin wire first) _ (open_session-IsCalm u plugin wire first)
      λ o e.
        let (_, (payload, introduced)) = open_session-IsOpened u plugin wire first o e in
        serving-IsCalm plugin (greet plugin o second (greeting o))
          (greet-IsCalm plugin o second (greeting o) (λ m p. ground (arith, introduced, p)))
