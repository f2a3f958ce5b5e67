-- ===== src/Sender/Defs.antt =====
-- `SessionSender`, `enqueue` and the three ways to send.
use rust_plugin_sdk.Prelude.{
  ℕ, ◌+◌, ◌-◌, ◌^◌, String, Bool, true, false, Option, some, List, [], ◌∷◌, ◌++◌, ◌==◌, nat_eq,
  if◌then◌else◌,
}
use rust_plugin_sdk.Protocol.{TraceContext, Payload, PluginEnvelope}
use rust_plugin_sdk.Error.{SdkError, Result, ok, err, panic}
use rust_plugin_sdk.Exec.{Exec}

abbrev pub u64_max : ℕ
u64_max = 2 ^ 64 - 1

pub record SessionIdentity : Type 0 where
  pub session_id : String
  pub instance_id : String

-- `awaited` tells whether a sender waits for the consumption.
pub record OutboundEnvelope : Type 0 where
  pub envelope : PluginEnvelope
  pub awaited : Bool

-- `OutboundEnvelope::consume`, with the signal that it gives.
unfoldable pub consume : OutboundEnvelope → PluginEnvelope × Bool
consume out = (out.envelope, out.awaited)

-- The channel: what it took, oldest first, whether its receiver is still there, and whether the stream
-- consumes the newest envelope.
pub record Wire : Type 0 where
  pub accepts : List OutboundEnvelope → Bool
  pub consumes : List OutboundEnvelope → Bool
  pub sent : List OutboundEnvelope

pub record SessionSender : Type 0 where
  pub wire : Wire
  pub identity : SessionIdentity
  pub next_message_id : ℕ

unfoldable pub new_sender : Wire → SessionIdentity → SessionSender
new_sender wire identity = record { wire = wire; identity = identity; next_message_id = 1 }

-- The envelope that `enqueue` builds under the lock.
abbrev pub outbound : SessionSender → Option ℕ → TraceContext → Payload → Bool → OutboundEnvelope
outbound s reply_to trace payload consumed = record {
  envelope = record {
    message_id = s.next_message_id;
    reply_to = reply_to;
    session_id = s.identity.session_id;
    plugin_instance_id = s.identity.instance_id;
    trace = some trace;
    payload = some payload;
  };
  awaited = consumed;
}

abbrev pub push : Wire → OutboundEnvelope → Wire
push w out = record w { sent = w.sent ++ out ∷ [] }

abbrev pub exhausted : SdkError
exhausted = SdkError.protocol "plugin exhausted message IDs"

abbrev pub output_closed : SdkError
output_closed = SdkError.transport "plugin output stream closed"

-- `register` may change the state that it shares with its caller; what it returns is dropped, by
-- `release`, where the send fails.
module _ {S T : Type 0} (register : ℕ → Exec S T) (release : T → S → S) where
  -- The bounded send, once the ID is allocated and the request is registered.
  abbrev pub transmit : ℕ → OutboundEnvelope → Result T → Exec (SessionSender × S) (ℕ × T)
  transmit id out (err e) (s, env) = (err e, (s, env))
  transmit id out (panic m) (s, env) = (panic m, (s, env))
  transmit id out (ok t) (s, env) =
      if s.wire.accepts s.wire.sent
      then (ok (id, t), (record s { wire = push s.wire out }, env))
      else (err output_closed, (s, release t env))

  unfoldable pub enqueue :
      Option ℕ → TraceContext → Payload → Bool → Exec (SessionSender × S) (ℕ × T)
  enqueue reply_to trace payload consumed (s, env) =
      let id = s.next_message_id in
      if id == u64_max
      then (err exhausted, (s, env))
      else (let (registered, env') = register id env in
          transmit id (outbound s reply_to trace payload consumed) registered
            (record s { next_message_id = id + 1 }, env'))

  -- The future of `enqueue` is dropped while it waits for room in the channel.
  abbrev pub drop_registered : Result T → S → S
  drop_registered (err e) env = env
  drop_registered (panic m) env = env
  drop_registered (ok t) env = release t env

  unfoldable pub abandon : SessionSender × S → SessionSender × S
  abandon (s, env) =
      let id = s.next_message_id in
      if id == u64_max
      then (s, env)
      else (let (registered, env') = register id env in
          (record s { next_message_id = id + 1 }, drop_registered registered env'))

abbrev pub no_register : ℕ → Exec (Unit {0}) (Unit {0})
no_register id env = (ok tt, env)

abbrev pub keep : Unit {0} → Unit {0} → Unit {0}
keep t env = env

abbrev pub message_id_of : Result (ℕ × Unit {0}) → Result ℕ
message_id_of (ok (id, _)) = ok id
message_id_of (err e) = err e
message_id_of (panic m) = panic m

unfoldable pub send : Option ℕ → TraceContext → Payload → Exec SessionSender ℕ
unfolding enqueue
send reply_to trace payload s =
    let (r, (s', _)) = enqueue no_register keep reply_to trace payload false (s, tt) in
    (message_id_of r, s')

abbrev pub await_consumption : Result ℕ → Exec SessionSender ℕ
await_consumption (err e) s = (err e, s)
await_consumption (panic m) s = (panic m, s)
await_consumption (ok id) s =
    if s.wire.consumes s.wire.sent
    then (ok id, s)
    else (err (SdkError.runtime "wait for plugin output stream consumption" "channel closed"), s)

unfoldable pub send_and_wait_for_consumption :
    Option ℕ → TraceContext → Payload → Exec SessionSender ℕ
unfolding enqueue
send_and_wait_for_consumption reply_to trace payload s =
    let (r, (s', _)) = enqueue no_register keep reply_to trace payload true (s, tt) in
    await_consumption (message_id_of r) s'

unfoldable pub send_registered :
    {S T : Type 0}
    → Option ℕ
    → TraceContext
    → Payload
    → (ℕ → Exec S T)
    → (T → S → S)
    → Exec (SessionSender × S) (ℕ × T)
unfolding enqueue
send_registered reply_to trace payload register release =
    enqueue register release reply_to trace payload false
