-- ===== src/Session/Greeting/Greeted.antt =====
-- What a session that has come to its loop has exchanged.
use rust_plugin_sdk.Prelude.{
  ℕ, ◌≡◌, refl, ap, subst, ◌∙◌, inl, inr, none, some, [], ◌∷◌, ◌++◌, append_assoc, arith, option_eq,
}
use rust_plugin_sdk.Protocol.{trace_eq, TraceContext, Payload, PluginEnvelope}
use rust_plugin_sdk.Error.{Result, ok, err, panic, >>=-ok}
use rust_plugin_sdk.Exec.{pure, lift, returned, proceed-ok}
use rust_plugin_sdk.Validation.{UuidCrate}
use rust_plugin_sdk.Sender.{SessionSender, Wire, new_sender, send}
use rust_plugin_sdk.Sender.Effect.{message, transcript, send-Delivers}
use rust_plugin_sdk.Plugin.{Plugin}
use rust_plugin_sdk.Host.Client.{HostClient, new_client}
use rust_plugin_sdk.Session.Envelope.{
  SessionState, validate_envelope, IsNext, accept_sound, accept_complete,
}
use rust_plugin_sdk.Session.Jobs.{new_manager}
use rust_plugin_sdk.Session.Serve.{Incoming, Serving}
use rust_plugin_sdk.Session.Handshake.{Opened, open_session, plugin_hello}
use rust_plugin_sdk.Session.Opening.{IsOpened, open_session-IsOpened, sender_of_opened}
use rust_plugin_sdk.Session.Greeting.Defs.{
  Greeting, receive, check_ready, with_sender, with_session, greet, greeting, serving,
  start_session,
}

-- The host's second message: a SessionReady that is no reply, is next in the session, and carries the
-- trace of the first.
pub record IsReady (o : Opened) (second : Incoming) (envelope : PluginEnvelope) : Type 0 where
  pub came : second ≡ Incoming.received envelope
  pub next : IsNext envelope o.session o.trace
  pub alone : envelope.reply_to ≡ none
  pub ready : envelope.payload ≡ some Payload.ready

ready_checked :
    (trace : TraceContext) (e : PluginEnvelope)
    → check_ready trace e ≡ ok tt
    → (e.trace ≡ some trace) × (e.reply_to ≡ none) × (e.payload ≡ some Payload.ready)
ready_checked trace e h =
    ground (arith, h, (option_eq {A = TraceContext}).beq_iff e.trace (some trace))

received :
    (second : Incoming) (s : SessionState) (e : PluginEnvelope)
    → (receive second s).0 ≡ ok e
    → (second ≡ Incoming.received e)
      × ((t : TraceContext) × IsNext e s t
          × ((receive second s).1 ≡ record s { last_host_message_id = e.message_id }))
unfolding receive
received (Incoming.broken error) s e h = ground (arith, h)
received Incoming.closed s e h = ground (arith, h)
received (Incoming.received x) s e h =
    let (t, judged, rest) =
      proceed-ok (validate_envelope x s).0 (λ _. pure x) (validate_envelope x s).1 h in
    let next = accept_sound x s t judged in
    let same : x ≡ e = ground (arith, ap (λ r. r.0) rest, h) in
    subst
      (λ y.
        (Incoming.received x ≡ Incoming.received y)
        × ((t : TraceContext) × IsNext y s t
            × ((receive (Incoming.received x) s).1
                ≡ record s { last_host_message_id = y.message_id })))
      same (refl, (t, next, ap (λ r. r.1) rest ∙ ap (λ r. r.1) (accept_complete x s t next)))

sent_out :
    (trace : TraceContext) (payload : Payload) (s : SessionSender) (n : ℕ)
    → (send none trace payload s).0 ≡ ok n
    → transcript (send none trace payload s).1 ≡ transcript s ++ message none trace payload ∷ []
sent_out trace payload s n h = elim (send-Delivers none trace payload s) [
  | inl (_, out) ↦ out
  | inr (x, failed, _) ↦ ground (arith, h, failed)
]

-- The whole exchange: what each side has said, and what the host client is built from.
pub record Greeted (plugin : Plugin) (o : Opened) (second : Incoming) (host : HostClient)
    (g : Greeting) : Type 0 where
  pub envelope : PluginEnvelope
  pub ready : IsReady o second envelope
  pub hello : Payload
  pub introduced : plugin_hello plugin o.hello ≡ ok hello
  pub said :
      transcript g.sender
      ≡ transcript o.sender ++ message none o.trace hello ∷ message none o.trace Payload.ready ∷ []
  pub noted : g.session ≡ record o.session { last_host_message_id = envelope.message_id }
  pub client :
      host
      ≡ new_client g.sender g.session.identity.session_id o.hello.maximum_artifact_chunk_bytes
          o.hello.maximum_call_depth

same_trace :
    (e : PluginEnvelope) (s : SessionState) (t u : TraceContext)
    → IsNext e s t
    → e.trace ≡ some u
    → IsNext e s u
same_trace e s t u next traced =
    let same : t ≡ u = ground (arith, next.traced, traced) in subst (IsNext e s) same next

greet-Greeted :
    (plugin : Plugin) (o : Opened) (second : Incoming) (host : HostClient) (t : Greeting)
    → greet plugin o second (greeting o) ≡ (ok host, t)
    → Greeted plugin o second host t
unfolding greet
greet-Greeted plugin o second host t e =
    let g = greeting o in
    let (hello, introduced, e1) = returned (lift (plugin_hello plugin o.hello)) _ g e in
    let (n, sent, e2) = returned (with_sender (send none o.trace hello)) _ g e1 in
    let s1 = (send none o.trace hello o.sender).1 in
    let g1 : Greeting = record { sender = s1; session = o.session } in
    let (envelope, came, e3) = returned (with_session (receive second)) _ g1 e2 in
    let (first, (t', next, noted)) = received second o.session envelope came in
    let g2 : Greeting = record { sender = s1; session = (receive second o.session).1 } in
    let (_, checked, e4) = returned (lift (check_ready o.trace envelope)) _ g2 e3 in
    let (traced, alone, ready) = ready_checked o.trace envelope checked in
    let (m, replied, e5) = returned (with_sender (send none o.trace Payload.ready)) _ g2 e4 in
    let s2 = (send none o.trace Payload.ready s1).1 in
    let g3 : Greeting = record { sender = s2; session = (receive second o.session).1 } in
    let same : g3 ≡ t = ap (λ r. r.1) e5 in
    let client = ap (λ r. r.0) e5 in
    let both = message none o.trace Payload.ready in
    let said =
      sent_out o.trace Payload.ready s1 m replied
      ∙ (ap (λ x. x ++ both ∷ []) (sent_out o.trace hello o.sender n sent)
          ∙ append_assoc (transcript o.sender) (message none o.trace hello ∷ []) (both ∷ [])) in
    subst (Greeted plugin o second host) same (record {
      envelope = envelope;
      ready = record {
        came = first;
        next = same_trace envelope o.session t' o.trace next traced;
        alone = alone;
        ready = ready;
      };
      hello = hello;
      introduced = introduced;
      said = said;
      noted = noted;
      client = ground (arith, client);
    })

-- What the loop starts from: the first two messages were a HostHello and a SessionReady in the trace of
-- it, the plugin has said exactly its PluginHello and its own SessionReady, and no job is there.
pub record IsStarted (plugin : Plugin) (wire : Wire) (first second : Incoming) (s : Serving)
    : Type 0 where
  pub settled : Opened
  pub opened : IsOpened plugin first settled
  pub untouched : settled.sender ≡ new_sender wire settled.session.identity
  pub host : HostClient
  pub end : Greeting
  pub exchanged : greet plugin settled second (greeting settled) ≡ (ok host, end)
  pub greeted : Greeted plugin settled second host end
  pub starts : s ≡ record {
    jobs = new_manager plugin.actions plugin.maximum_concurrent_jobs host;
    session = end.session;
  }

started :
    (plugin : Plugin) (wire : Wire) (first second : Incoming) (s : Serving) (o : Opened)
    (r : Result HostClient × Greeting)
    → greet plugin o second (greeting o) ≡ r
    → serving plugin r ≡ ok s
    → IsOpened plugin first o
    → o.sender ≡ new_sender wire o.session.identity
    → IsStarted plugin wire first second s
started plugin wire first second s o (ok host, g) e h opened sender = record {
  settled = o;
  opened = opened;
  untouched = sender;
  host = host;
  end = g;
  exchanged = e;
  greeted = greet-Greeted plugin o second host g e;
  starts = ground (arith, h);
}
started plugin wire first second s o (err x, g) e h opened sender = ground (arith, h)
started plugin wire first second s o (panic m, g) e h opened sender = ground (arith, h)

-- The session comes to its loop only after the whole handshake: a numbered HostHello for this plugin that is
-- no reply, whose message gives the session its identity, its newest host message and its limits, the
-- PluginHello that answers it as the first message, then a SessionReady of the host, which is no reply, is
-- next in that session and has the trace of the HostHello, and a SessionReady as the second message.
-- The job manager is then a new one, with the plugin's actions and its bound, and the host client has the
-- session's ID and the limits of the HostHello.
pub start_session-IsStarted :
    (u : UuidCrate) (plugin : Plugin) (wire : Wire) (first second : Incoming) (s : Serving)
    → start_session u plugin wire first second ≡ ok s
    → IsStarted plugin wire first second s
unfolding start_session
start_session-IsStarted u plugin wire first second s e =
    let (o, opened, e1) = >>=-ok (open_session u plugin wire first) _ e in
    started plugin wire first second s o (greet plugin o second (greeting o)) refl e1
      (open_session-IsOpened u plugin wire first o opened).0
      (sender_of_opened u plugin wire first o opened)
