-- ===== src/Session/Farewell.antt =====
-- The end of a session: what a shutdown request leaves behind.
use rust_plugin_sdk.Prelude.{
  ℕ, string_eq, nat_eq, ◌≡◌, refl, ap, true, Option, none, some, [], ◌∷◌, arith,
}
use rust_plugin_sdk.Protocol.{trace_eq, TraceContext, Payload, Timestamp}
use rust_plugin_sdk.Error.{SdkError, Result, ok, err, panic}
use rust_plugin_sdk.Exec.{◌>>◌, pure, raise, proceed}
use rust_plugin_sdk.Validation
use rust_plugin_sdk.Validation.{UuidCrate}
use rust_plugin_sdk.Sender.{SessionSender}
use rust_plugin_sdk.Session.Jobs
use rust_plugin_sdk.Session.Jobs.{
  JobManager, FinishedAction, Task, PendingCancellation, start, cancel, reject, admit, settle,
  settle_output, leave, send_out, send_all, send_cancellation_acknowledgement, take_cancellations,
  join_next, join_from,
}
use rust_plugin_sdk.Session.Serve.{dispatch, acknowledge_shutdown}
use rust_plugin_sdk.Session.Jobs.{end_task, has_active_jobs}
use rust_plugin_sdk.Prelude.{◌++◌, ◌∙◌}
use rust_plugin_sdk.Prelude.Map.{values}
use rust_plugin_sdk.Protocol.{ShutdownRequest}
use rust_plugin_sdk.Sender.Effect.{Message, transcript, message, send_and_wait_consumed}
use rust_plugin_sdk.Session.Jobs.{all_cancellations, sending}
use rust_plugin_sdk.Session.Jobs.Says.{said, ack_messages}
use rust_plugin_sdk.Session.Jobs.Closings.{shutdown_closes}

-- The jobs are gone, the pending cancellations are acknowledged, and then the shutdown is, with the
-- stream having consumed all of it.
pub record IsClosed (message_id : ℕ) (trace : TraceContext) (j k : JobManager) : Type 0 where
  pub told :
      said k
      ≡ (said j ++ ack_messages (all_cancellations (values j.active)))
        ++ message (some message_id) trace Payload.shutdown_acknowledged ∷ []
  pub inactive : k.active ≡ []
  pub stopped : k.tasks ≡ []
  pub joined : k.ended ≡ []
  pub consumed : k.host.sender.wire.consumes k.host.sender.wire.sent ≡ true

pub goes_on :
    {A : Type 0} (r : Result A) (j : JobManager) (d : Timestamp)
    → ¬ ((proceed r (λ _. pure none) j).0 ≡ ok (some d))
goes_on (ok a) j d e = ground arith
goes_on (err x) j d e = ground arith
goes_on (panic m) j d e = ground arith

fails_on :
    (r : Result (Unit {0})) (x : SdkError) (j : JobManager) (d : Timestamp)
    → ¬ ((proceed r (λ _. raise x) j).0 ≡ ok (some d))
fails_on (ok a) x j d e = ground arith
fails_on (err y) x j d e = ground arith
fails_on (panic m) x j d e = ground arith

module _ (message_id : ℕ) (trace : TraceContext) (deadline d : Timestamp) (j k : JobManager) where
  abbrev farewell : Message
  farewell = message (some message_id) trace Payload.shutdown_acknowledged

  abbrev ShutDown : Type 0
  ShutDown =
      (said k ≡ said j ++ ack_messages (all_cancellations (values j.active)))
      × (k.active ≡ [])
      × (k.tasks ≡ [])
      × (k.ended ≡ [])

  -- The acknowledgement of the shutdown has come back from the sender.
  consumed :
      (r : Result ℕ) (s : SessionSender)
      → ((id : ℕ)
          → r ≡ ok id
          → (transcript s ≡ said k ++ farewell ∷ []) × (s.wire.consumes s.wire.sent ≡ true))
      → ShutDown
      → let end =
          proceed r
            (λ _. pure (some deadline))
            (record k { host = record k.host { sender = s } }) in
        end.0 ≡ ok (some d) → (deadline ≡ d) × IsClosed message_id trace j end.1
  consumed (ok id) s h (told, inactive, stopped, joined) e = (
    ground arith,
    record {
      told = (h id refl).0 ∙ ap (λ ms. ms ++ farewell ∷ []) told;
      inactive = inactive;
      stopped = stopped;
      joined = joined;
      consumed = (h id refl).1;
    },
  )
  consumed (err x) s h c e = ground arith
  consumed (panic m) s h c e = ground arith

  -- The jobs were shut down, into `k`.
  acknowledged :
      (r : Result (Unit {0}))
      → (r ≡ ok tt → ShutDown)
      → let end =
          proceed r (λ _. acknowledge_shutdown message_id trace >> pure (some deadline)) k in
        end.0 ≡ ok (some d) → (deadline ≡ d) × IsClosed message_id trace j end.1
  acknowledged (ok a) closed e =
      consumed _ _
        (λ id done.
          send_and_wait_consumed (some message_id) trace Payload.shutdown_acknowledged k.host.sender
            id done)
        (closed refl) e
  acknowledged (err x) closed e = ground arith
  acknowledged (panic m) closed e = ground arith

says_farewell :
    (message_id : ℕ) (trace : TraceContext) (r : Result Timestamp) (j : JobManager) (d : Timestamp)
    → let end =
        proceed r
          (λ deadline.
            Jobs.shutdown >> (acknowledge_shutdown message_id trace >> pure (some deadline)))
          j in
      end.0 ≡ ok (some d) → (r ≡ ok d) × IsClosed message_id trace j end.1
says_farewell message_id trace (ok deadline) j d e =
    let (same, closed) =
      acknowledged message_id trace deadline d j (Jobs.shutdown j).1 (Jobs.shutdown j).0
        (shutdown_closes j) e in
    (ap ok same, closed)
says_farewell message_id trace (err x) j d e = ground arith
says_farewell message_id trace (panic m) j d e = ground arith

-- The loop returns a deadline only for a valid shutdown request, its own: then every job has been
-- stopped and left the table, each pending cancellation has been acknowledged, and after them, as the
-- last message, the shutdown, which the stream has consumed.
pub ends_with_shutdown :
    (u : UuidCrate) (message_id : ℕ) (trace : TraceContext) (o : Option Payload) (j : JobManager)
    (d : Timestamp)
    → (dispatch u message_id trace o j).0 ≡ ok (some d)
    → (request : ShutdownRequest) × (o ≡ some (Payload.shutdown request))
      × (Validation.shutdown request ≡ ok d)
      × IsClosed message_id trace j (dispatch u message_id trace o j).1
unfolding dispatch
ends_with_shutdown u message_id trace none j d e = ground arith
ends_with_shutdown u message_id trace (some (Payload.host_hello h)) j d e = ground arith
ends_with_shutdown u message_id trace (some (Payload.plugin_hello h)) j d e = ground arith
ends_with_shutdown u message_id trace (some Payload.ready) j d e = ground arith
ends_with_shutdown u message_id trace (some Payload.shutdown_acknowledged) j d e = ground arith
ends_with_shutdown u message_id trace (some (Payload.start_job r)) j d e = absurd (goes_on _ _ d e)
ends_with_shutdown u message_id trace (some (Payload.job_accepted i)) j d e = ground arith
ends_with_shutdown u message_id trace (some (Payload.cancel_job_acknowledged i)) j d e =
    ground arith
ends_with_shutdown u message_id trace (some (Payload.job_update x)) j d e = ground arith
ends_with_shutdown u message_id trace (some (Payload.host_call c)) j d e = ground arith
ends_with_shutdown u message_id trace (some (Payload.host_result c)) j d e = ground arith
ends_with_shutdown u message_id trace (some (Payload.log l)) j d e = ground arith
ends_with_shutdown u message_id trace (some (Payload.heartbeat n)) j d e = absurd (goes_on _ _ d e)
ends_with_shutdown u message_id trace (some (Payload.shutdown r)) j d e =
    (let (good, closed) = says_farewell message_id trace (Validation.shutdown r) j d e in
      (r, refl, good, closed))
ends_with_shutdown u message_id trace (some (Payload.protocol_error e)) j d h =
    absurd (fails_on (Validation.protocol_error e) (SdkError.host e) j d h)
ends_with_shutdown u message_id trace (some (Payload.artifact_start a)) j d e = ground arith
ends_with_shutdown u message_id trace (some (Payload.artifact_accepted a)) j d e = ground arith
ends_with_shutdown u message_id trace (some (Payload.artifact_complete a)) j d e = ground arith
ends_with_shutdown u message_id trace (some (Payload.artifact_stored a)) j d e = ground arith
ends_with_shutdown u message_id trace (some (Payload.artifact_chunk a)) j d e = ground arith
ends_with_shutdown u message_id trace (some (Payload.cancel_job r)) j d e = absurd (goes_on _ _ d e)
