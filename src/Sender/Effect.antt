-- ===== src/Sender/Effect.antt =====
-- What a send does, seen as a transcript: the messages without their numbers and identity.
use rust_plugin_sdk.Prelude.{
  ℕ, ◌≡◌, refl, ◌⊎◌, true, false, Option, some, List, [], ◌∷◌, ◌++◌, arith, nat_eq, ◌==◌,
  Bool-cases, inl, inr,
}
use rust_plugin_sdk.Protocol.{TraceContext, Payload}
use rust_plugin_sdk.Error.{SdkError, Result, ok, err, panic}
use rust_plugin_sdk.Exec.{Exec}
use rust_plugin_sdk.Sender.Defs.{
  SessionSender, OutboundEnvelope, send, send_and_wait_for_consumption, outbound, await_consumption,
  abandon, u64_max,
}

pub record Message : Type 0 where
  pub reply_to : Option ℕ
  pub trace : Option TraceContext
  pub payload : Option Payload

abbrev pub message : Option ℕ → TraceContext → Payload → Message
message reply_to trace payload = record {
  reply_to = reply_to;
  trace = some trace;
  payload = some payload;
}

abbrev pub transcript_of : List OutboundEnvelope → List Message
transcript_of [] = []
transcript_of (out ∷ outs) =
    record {
      reply_to = out.envelope.reply_to;
      trace = out.envelope.trace;
      payload = out.envelope.payload;
    }
    ∷ transcript_of outs

unfoldable pub transcript : SessionSender → List Message
transcript s = transcript_of s.wire.sent

pub transcript-snoc :
    (outs : List OutboundEnvelope) (out : OutboundEnvelope)
    → transcript_of (outs ++ out ∷ []) ≡ transcript_of outs ++ transcript_of (out ∷ [])
transcript-snoc [] out = refl
transcript-snoc (o ∷ outs) out = cc (transcript-snoc outs out)

-- The message went out under the sender's next number, or nothing did.
abbrev pub Delivers : SessionSender → Message → Result ℕ × SessionSender → Type 0
Delivers s m (r, s') =
    ((r ≡ ok s.next_message_id) × (transcript s' ≡ transcript s ++ m ∷ []))
    ⊎ ((e : SdkError) × (r ≡ err e) × (transcript s' ≡ transcript s))

-- A send that succeeds puts its message at the end of the transcript and returns its number; one that
-- fails leaves the transcript alone. It never panics.
pub send-Delivers :
    (reply_to : Option ℕ) (trace : TraceContext) (payload : Payload) (s : SessionSender)
    → Delivers s (message reply_to trace payload) (send reply_to trace payload s)
unfolding send transcript
send-Delivers reply_to trace payload s =
    ground (arith, transcript-snoc s.wire.sent (outbound s reply_to trace payload false))

await_ok :
    (r : Result ℕ) (s : SessionSender) (id : ℕ) → (await_consumption r s).0 ≡ ok id → r ≡ ok id
await_ok (err e) s id h = h
await_ok (panic m) s id h = h
await_ok (ok id') s id h = ground arith

-- The waiting send returns a number only once its message is in the channel and the stream has
-- consumed it.
pub send_and_wait_consumed :
    (reply_to : Option ℕ) (trace : TraceContext) (payload : Payload) (s : SessionSender) (id : ℕ)
    → (send_and_wait_for_consumption reply_to trace payload s).0 ≡ ok id
    → let s' = (send_and_wait_for_consumption reply_to trace payload s).1 in
      (transcript s' ≡ transcript s ++ message reply_to trace payload ∷ [])
      × (s'.wire.consumes s'.wire.sent ≡ true)
unfolding send_and_wait_for_consumption transcript
send_and_wait_consumed reply_to trace payload s id h =
    ground (arith, transcript-snoc s.wire.sent (outbound s reply_to trace payload true))

-- An `enqueue` that is dropped sends nothing.
pub abandon_quiet :
    {S T : Type 0} (register : ℕ → Exec S T) (release : T → S → S) (s : SessionSender) (env : S)
    → transcript (abandon register release (s, env)).0 ≡ transcript s
unfolding abandon transcript
abandon_quiet register release s env = elim (Bool-cases (s.next_message_id == u64_max)) [
  | inl full ↦ rw full refl
  | inr room ↦ rw room refl
]
