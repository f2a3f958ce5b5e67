-- ===== src/Session/Dispatching.antt =====
-- What an accepted message does to a consistent job manager, whatever its payload.
use rust_plugin_sdk.Prelude.{
  ℕ, refl, inl, inr, Option, none, some, Bool-cases, string_eq, ◌!=◌, nat_eq,
}
use rust_plugin_sdk.Protocol.{
  trace_eq, TraceContext, Payload, PluginEnvelope, ShutdownRequest, ProtocolError,
}
use rust_plugin_sdk.Error.{SdkError, Result}
use rust_plugin_sdk.Exec.{Exec, ◌>>=◌, pure, raise, lift}
use rust_plugin_sdk.Prelude.{◌&&◌, not}
use rust_plugin_sdk.Prelude.Int.{pos, int_eq}
use rust_plugin_sdk.Prelude.Text.{is_empty}
use rust_plugin_sdk.Validation
use rust_plugin_sdk.Validation.{UuidCrate}
use rust_plugin_sdk.Session.Jobs.{JobManager}
use rust_plugin_sdk.Session.Jobs.Frames.{Checks}
use rust_plugin_sdk.Session.Jobs.Starting.{ok_or-Checks}
use rust_plugin_sdk.Session.Jobs.Consistency.{IsConsistent}
use rust_plugin_sdk.Session.Serve.{respond, dispatch}
use rust_plugin_sdk.Session.Serve.{handle_payload, check_answer}
use rust_plugin_sdk.Session.Steady.{
  returns, fails, Safe-Checks, Safe-bind, Steady, Steady-start, Steady-cancel, Steady-shutdown,
  Steady-send_out, Steady-acknowledge_shutdown, Steady-route_answer,
}

Steady-raise : {A : Type 0} (e : SdkError) → Steady (raise {A = A} e)
Steady-raise e j v = fails e j refl

pub Steady-pure : {A : Type 0} (a : A) → Steady (pure a)
Steady-pure a j v = returns a j refl v

Steady-lift : {A : Type 0} (r : Result A) → Checks r → Steady (lift r)
Steady-lift r c j v = Safe-Checks IsConsistent r j c v

-- An operation, and what follows it.
pub Steady-bind :
    {A B : Type 0} (m : Exec JobManager A) (f : A → Exec JobManager B)
    → Steady m
    → ((a : A) → Steady (f a))
    → Steady (m >>= f)
Steady-bind m f a b j v = Safe-bind IsConsistent m f j (a j v) b

error-Checks : (e : ProtocolError) → Checks (Validation.protocol_error e)
unfolding Validation.protocol_error
error-Checks e = elim (Bool-cases (e.code != pos 0 && not (is_empty e.message))) [
  | inl named ↦ rw named (inl (tt, refl))
  | inr bad ↦ rw bad (inr (_, refl))
]

shutdown-Checks : (request : ShutdownRequest) → Checks (Validation.shutdown request)
unfolding Validation.shutdown Validation.timestamp
shutdown-Checks request = elim (Bool-cases (is_empty request.reason)) [
  | inl missing ↦ rw missing (inr (_, refl))
  | inr given ↦ rw given (ok_or-Checks _ _)
]

answer-Checks : (payload : Payload) → Checks (check_answer payload)
answer-Checks (Payload.host_hello h) = inl (tt, refl)
answer-Checks (Payload.plugin_hello h) = inl (tt, refl)
answer-Checks Payload.ready = inl (tt, refl)
answer-Checks Payload.shutdown_acknowledged = inl (tt, refl)
answer-Checks (Payload.start_job r) = inl (tt, refl)
answer-Checks (Payload.job_accepted i) = inl (tt, refl)
answer-Checks (Payload.cancel_job_acknowledged i) = inl (tt, refl)
answer-Checks (Payload.job_update x) = inl (tt, refl)
answer-Checks (Payload.host_call c) = inl (tt, refl)
answer-Checks (Payload.host_result c) = inl (tt, refl)
answer-Checks (Payload.log l) = inl (tt, refl)
answer-Checks (Payload.heartbeat n) = inl (tt, refl)
answer-Checks (Payload.shutdown r) = inl (tt, refl)
answer-Checks (Payload.protocol_error e) = error-Checks e
answer-Checks (Payload.artifact_start a) = inl (tt, refl)
answer-Checks (Payload.artifact_accepted a) = inl (tt, refl)
answer-Checks (Payload.artifact_complete a) = inl (tt, refl)
answer-Checks (Payload.artifact_stored a) = inl (tt, refl)
answer-Checks (Payload.artifact_chunk a) = inl (tt, refl)
answer-Checks (Payload.cancel_job r) = inl (tt, refl)

Steady-respond :
    (reply_to : ℕ) (trace : TraceContext) (o : Option Payload) → Steady (respond reply_to trace o)
unfolding respond
Steady-respond reply_to trace none = Steady-raise _
Steady-respond reply_to trace (some payload) =
    Steady-bind _ _ (Steady-lift _ (answer-Checks payload))
      λ _. Steady-bind _ _ (Steady-route_answer reply_to trace payload) (λ _. Steady-pure none)

Steady-dispatch :
    (u : UuidCrate) (message_id : ℕ) (trace : TraceContext) (o : Option Payload)
    → Steady (dispatch u message_id trace o)
unfolding dispatch
Steady-dispatch u message_id trace none = Steady-raise _
Steady-dispatch u message_id trace (some (Payload.host_hello h)) = Steady-raise _
Steady-dispatch u message_id trace (some (Payload.plugin_hello h)) = Steady-raise _
Steady-dispatch u message_id trace (some Payload.ready) = Steady-raise _
Steady-dispatch u message_id trace (some Payload.shutdown_acknowledged) = Steady-raise _
Steady-dispatch u message_id trace (some (Payload.start_job r)) =
    Steady-bind _ _ (Steady-start u message_id trace r) (λ _. Steady-pure none)
Steady-dispatch u message_id trace (some (Payload.job_accepted i)) = Steady-raise _
Steady-dispatch u message_id trace (some (Payload.cancel_job_acknowledged i)) = Steady-raise _
Steady-dispatch u message_id trace (some (Payload.job_update x)) = Steady-raise _
Steady-dispatch u message_id trace (some (Payload.host_call c)) = Steady-raise _
Steady-dispatch u message_id trace (some (Payload.host_result c)) = Steady-raise _
Steady-dispatch u message_id trace (some (Payload.log l)) = Steady-raise _
Steady-dispatch u message_id trace (some (Payload.heartbeat n)) =
    Steady-bind _ _ (Steady-send_out (some message_id) trace (Payload.heartbeat n))
      (λ _. Steady-pure none)
Steady-dispatch u message_id trace (some (Payload.shutdown r)) =
    Steady-bind _ _ (Steady-lift _ (shutdown-Checks r)) λ deadline.
      Steady-bind _ _ Steady-shutdown λ _.
        Steady-bind _ _ (Steady-acknowledge_shutdown message_id trace)
          (λ _. Steady-pure (some deadline))
Steady-dispatch u message_id trace (some (Payload.protocol_error e)) =
    Steady-bind _ _ (Steady-lift _ (error-Checks e)) (λ _. Steady-raise _)
Steady-dispatch u message_id trace (some (Payload.artifact_start a)) = Steady-raise _
Steady-dispatch u message_id trace (some (Payload.artifact_accepted a)) = Steady-raise _
Steady-dispatch u message_id trace (some (Payload.artifact_complete a)) = Steady-raise _
Steady-dispatch u message_id trace (some (Payload.artifact_stored a)) = Steady-raise _
Steady-dispatch u message_id trace (some (Payload.artifact_chunk a)) = Steady-raise _
Steady-dispatch u message_id trace (some (Payload.cancel_job r)) =
    Steady-bind _ _ (Steady-cancel u message_id trace r) (λ _. Steady-pure none)

pub Steady-handle_payload :
    (u : UuidCrate) (envelope : PluginEnvelope) (trace : TraceContext) (o : Option ℕ)
    → Steady (handle_payload u envelope trace o)
Steady-handle_payload u envelope trace (some reply_to) =
    Steady-respond reply_to trace envelope.payload
Steady-handle_payload u envelope trace none =
    Steady-dispatch u envelope.message_id trace envelope.payload
