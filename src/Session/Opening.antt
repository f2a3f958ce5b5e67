-- ===== src/Session/Opening.antt =====
-- What a session that was opened is known to have.
use rust_plugin_sdk.Prelude.{
  ℕ, ◌≤◌, ◌!=◌, ap, subst, String, ◌<◌, ◌≡◌, ◌≢◌, refl, Bool, true, false, not, ◌||◌, Option, none,
  some, arith, is_some, string_eq, nat_eq,
}
use rust_plugin_sdk.Prelude.Text.{is_empty}
use rust_plugin_sdk.Protocol.{
  Payload, PluginEnvelope, HostHello, PluginId, PluginName, TraceContext,
}
use rust_plugin_sdk.Error.{SdkError, ok, ensure, >>=-ok}
use rust_plugin_sdk.Validation
use rust_plugin_sdk.Validation.{UuidCrate}
use rust_plugin_sdk.Sender.{Wire, new_sender}
use rust_plugin_sdk.Plugin.{Plugin}
use rust_plugin_sdk.Session.Envelope.{trace_sound}
use rust_plugin_sdk.Session.Serve.{Incoming}
use rust_plugin_sdk.Session.Handshake.{
  Opened, open_session, receive_initial, hello_of, opened, plugin_hello,
}

-- The first message was a numbered HostHello that is no reply, named the session, and introduced a host that
-- expects this plugin; its trace, within the limits that it gives, is that of the handshake; and the state
-- of the session is what it says.
pub record IsOpened (plugin : Plugin) (incoming : Incoming) (o : Opened) : Type 0 where
  pub first : PluginEnvelope
  pub came : incoming ≡ Incoming.received first
  pub alone : first.reply_to ≡ none
  pub introduces : first.payload ≡ some (Payload.host_hello o.hello)
  pub traced : first.trace ≡ some o.trace
  pub within :
      (o.trace.call_depth ≤ o.hello.maximum_call_depth)
      × (o.trace.causal_depth ≤ o.hello.maximum_causal_depth)
  pub state : o.session ≡ record {
    identity = record { session_id = first.session_id; instance_id = first.plugin_instance_id };
    last_host_message_id = first.message_id;
    maximum_call_depth = o.hello.maximum_call_depth;
    maximum_causal_depth = o.hello.maximum_causal_depth;
  }
  pub numbered : o.session.last_host_message_id ≢ 0
  pub session_named : o.session.identity.session_id ≢ ""
  pub instance_named : o.session.identity.instance_id ≢ ""
  pub expected : o.hello.plugin_id ≡ some (record { value = plugin.plugin_id })
  pub nested : 0 < o.session.maximum_call_depth
  pub caused : 0 < o.session.maximum_causal_depth
  pub chunked : 0 < o.hello.maximum_artifact_chunk_bytes

hello_expected :
    (u : UuidCrate) (id : String) (hello : HostHello) (name : Option PluginName)
    (plugin_id : Option PluginId)
    → hello.plugin_name ≡ name
    → hello.plugin_id ≡ plugin_id
    → Validation.host_hello u id hello ≡ ok tt
    → (plugin_id ≡ some (record { value = id }))
      × (is_some name ≡ true)
      × (0 < hello.maximum_call_depth)
      × (0 < hello.maximum_causal_depth)
      × (0 < hello.maximum_artifact_chunk_bytes)
unfolding Validation.host_hello
hello_expected u id hello none none a b h = ground (arith, a, b, h)
hello_expected u id hello (some n) none a b h = ground (arith, a, b, h)
hello_expected u id hello none (some p) a b h = ground (arith, a, b, h)
hello_expected u id hello (some n) (some p) a b h =
    ground (arith, a, b, h, string_eq.beq_iff p.value id)

ensured : (b : Bool) (e : SdkError) → ensure b e ≡ ok tt → b ≡ true
ensured true e h = refl
ensured false e h = ground arith

numbered :
    (incoming : Incoming) (first : PluginEnvelope)
    → receive_initial incoming ≡ ok first
    → (incoming ≡ Incoming.received first) × (first.message_id ≢ 0)
unfolding receive_initial
numbered (Incoming.received envelope) first h =
    let (_, nonzero, same) = >>=-ok (ensure (envelope.message_id != 0) _) _ h in
    let one : envelope ≡ first = ground (arith, same) in
    (ap Incoming.received one, ground (arith, ap (λ e. e.message_id) one, nonzero))
numbered Incoming.closed first h = ground (arith, h)
numbered (Incoming.broken error) first h = ground (arith, h)

hello_given :
    (payload : Option Payload) (hello : HostHello)
    → hello_of payload ≡ ok hello
    → payload ≡ some (Payload.host_hello hello)
hello_given (some (Payload.host_hello given)) hello h = ground (arith, h)
hello_given none hello h = ground (arith, h)
hello_given (some _) hello h = ground (arith, h)

not_reply : (o : Option ℕ) → not (is_some o) ≡ true → o ≡ none
not_reply none h = refl
not_reply (some n) h = ground (arith, h)

introduced :
    (plugin : Plugin) (hello : HostHello) (name : Option PluginName)
    → hello.plugin_name ≡ name
    → is_some name ≡ true
    → (payload : Payload) × (plugin_hello plugin hello ≡ ok payload)
unfolding plugin_hello
introduced plugin hello none e h = ground arith
introduced plugin hello (some name) e h = rw e (_, refl)

-- The steps of an opening that succeeds.
record Steps (u : UuidCrate) (plugin : Plugin) (wire : Wire) (incoming : Incoming) (o : Opened)
    : Type 0 where
  first : PluginEnvelope
  hello : HostHello
  trace : TraceContext
  received : receive_initial incoming ≡ ok first
  named : not (is_empty first.session_id || is_empty first.plugin_instance_id) ≡ true
  alone : not (is_some first.reply_to) ≡ true
  said : hello_of first.payload ≡ ok hello
  valid : Validation.host_hello u plugin.plugin_id hello ≡ ok tt
  traced : Validation.trace first hello.maximum_call_depth hello.maximum_causal_depth ≡ ok trace
  same : opened wire first hello trace ≡ o

opening :
    (u : UuidCrate) (plugin : Plugin) (wire : Wire) (incoming : Incoming) (o : Opened)
    → open_session u plugin wire incoming ≡ ok o
    → Steps u plugin wire incoming o
unfolding open_session
opening u plugin wire incoming o e =
    let (first, received, e1) = >>=-ok (receive_initial incoming) _ e in
    let (t1, named, e2) =
      >>=-ok
        (ensure (not (is_empty first.session_id || is_empty first.plugin_instance_id))
          (SdkError.protocol "HostHello envelope omitted its session or instance identity"))
        _ e1 in
    let (t2, alone, e3) =
      >>=-ok
        (ensure (not (is_some first.reply_to))
          (SdkError.protocol "HostHello must not reply to another message"))
        _ e2 in
    let (hello, said, e4) = >>=-ok (hello_of first.payload) _ e3 in
    let (t3, valid, e5) = >>=-ok (Validation.host_hello u plugin.plugin_id hello) _ e4 in
    let (trace, traced, e6) =
      >>=-ok (Validation.trace first hello.maximum_call_depth hello.maximum_causal_depth) _ e5 in
    record {
      first = first;
      hello = hello;
      trace = trace;
      received = received;
      named = ensured _ _ named;
      alone = ensured _ _ alone;
      said = said;
      valid = valid;
      traced = traced;
      same = ground arith;
    }

settled :
    (u : UuidCrate) (plugin : Plugin) (wire : Wire) (incoming : Incoming) (o : Opened)
    (v : Steps u plugin wire incoming o)
    → IsOpened plugin incoming (opened wire v.first v.hello v.trace)
      × ((payload : Payload) × (plugin_hello plugin v.hello ≡ ok payload))
settled u plugin wire incoming o v =
    let hello = v.hello in
    let (came, nonzero) = numbered incoming v.first v.received in
    let (expected, introduces, nested, caused, chunked) =
      hello_expected u plugin.plugin_id hello hello.plugin_name hello.plugin_id refl refl v.valid in
    let (traced, _, calls, causes) =
      trace_sound v.first hello.maximum_call_depth hello.maximum_causal_depth v.first.trace v.trace
        refl v.traced in
    (
      record {
        first = v.first;
        came = came;
        alone = not_reply v.first.reply_to v.alone;
        introduces = hello_given v.first.payload hello v.said;
        traced = traced;
        within = (calls, causes);
        state = refl;
        numbered = nonzero;
        session_named = ground (arith, string_eq.beq_iff v.first.session_id "", v.named);
        instance_named = ground (arith, string_eq.beq_iff v.first.plugin_instance_id "", v.named);
        expected = expected;
        nested = nested;
        caused = caused;
        chunked = chunked;
      },
      introduced plugin hello hello.plugin_name refl introduces,
    )

-- A session is opened only by a numbered first message that is no reply, names the session and the
-- instance, and is a HostHello to this plugin with limits above zero and a trace within them; the session's
-- state is what it says; and the PluginHello can then be made, with the name that the host has given.
pub open_session-IsOpened :
    (u : UuidCrate) (plugin : Plugin) (wire : Wire) (incoming : Incoming) (o : Opened)
    → open_session u plugin wire incoming ≡ ok o
    → IsOpened plugin incoming o
      × ((payload : Payload) × (plugin_hello plugin o.hello ≡ ok payload))
open_session-IsOpened u plugin wire incoming o e =
    let v = opening u plugin wire incoming o e in
    subst
      (λ x.
        IsOpened plugin incoming x
        × ((payload : Payload) × (plugin_hello plugin x.hello ≡ ok payload)))
      v.same (settled u plugin wire incoming o v)

-- Nothing has been sent yet.
pub sender_of_opened :
    (u : UuidCrate) (plugin : Plugin) (wire : Wire) (incoming : Incoming) (o : Opened)
    → open_session u plugin wire incoming ≡ ok o
    → o.sender ≡ new_sender wire o.session.identity
sender_of_opened u plugin wire incoming o e =
    let v = opening u plugin wire incoming o e in
    subst (λ x. x.sender ≡ new_sender wire x.session.identity) v.same refl
