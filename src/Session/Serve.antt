-- ===== src/Session/Serve.antt =====
-- The loop of `serve`: one host message or one finished action at a time, with what the tasks do in
-- between.
use rust_plugin_sdk.Prelude.{
  ℕ, String, Bool, true, Option, none, some, List, [], ◌∷◌, any, ◌==◌, string_eq, if◌then◌else◌,
}
use rust_plugin_sdk.Protocol.{TraceContext, Payload, PluginEnvelope, Timestamp}
use rust_plugin_sdk.Error.{SdkError, Result, ok, err, panic}
use rust_plugin_sdk.Exec.{Exec, ◌>>=◌, ◌>>◌, pure, raise, lift}
use rust_plugin_sdk.Validation
use rust_plugin_sdk.Validation.{UuidCrate}
use rust_plugin_sdk.Sender.{send_and_wait_for_consumption}
use rust_plugin_sdk.Host.Client.{HostClient, route, issue}
use rust_plugin_sdk.Host.Request.{drop_sending}
use rust_plugin_sdk.Host.Transfer.{drop_send}
use rust_plugin_sdk.Plugin.{Output}
use rust_plugin_sdk.Session.Envelope.{SessionState, validate_envelope}
use rust_plugin_sdk.Session.Jobs
use rust_plugin_sdk.Session.Jobs.{
  JobManager, FinishedAction, Task, has_active_jobs, join_next, settle, start, end_task, sending,
  send_out,
}

-- What the incoming stream gives.
pub data Incoming : Type 0 where
  received : PluginEnvelope → Incoming
  closed : Incoming
  broken : String → Incoming

-- The variables of `serve`; the host client is the one that the job manager holds.
pub record Serving : Type 0 where
  pub jobs : JobManager
  pub session : SessionState

module _ {A : Type 0} where
  abbrev pub on_jobs : Exec JobManager A → Exec Serving A
  on_jobs m s = let (r, j) = m s.jobs in (r, record s { jobs = j })

  abbrev pub on_session : Exec SessionState A → Exec Serving A
  on_session m s = let (r, t) = m s.session in (r, record s { session = t })

abbrev pub hosting : JobManager → Result (Unit {0}) × HostClient → Result (Unit {0}) × JobManager
hosting j (r, h) = (r, record j { host = h })

-- `host.route(…)`.
abbrev pub route_answer : ℕ → TraceContext → Payload → Exec JobManager (Unit {0})
route_answer reply_to trace payload j = hosting j (route reply_to trace payload j.host)

abbrev pub check_answer : Payload → Result (Unit {0})
check_answer (Payload.protocol_error error) = Validation.protocol_error error
check_answer payload = ok tt

-- A message that replies to one of the plugin's.
unfoldable pub respond : ℕ → TraceContext → Option Payload → Exec JobManager (Option Timestamp)
respond reply_to trace none = raise (SdkError.protocol "response payload is required")
respond reply_to trace (some payload) = do
  lift (check_answer payload)
  route_answer reply_to trace payload
  pure none

abbrev pub acknowledge_shutdown : ℕ → TraceContext → Exec JobManager ℕ
acknowledge_shutdown message_id trace j = sending j (
    send_and_wait_for_consumption (some message_id) trace Payload.shutdown_acknowledged
      j.host.sender)

-- A message of the host's own. A deadline ends the loop.
unfoldable pub dispatch :
    UuidCrate → ℕ → TraceContext → Option Payload → Exec JobManager (Option Timestamp)
unfolding start Jobs.cancel Jobs.shutdown send_and_wait_for_consumption
dispatch u message_id trace (some (Payload.start_job request)) = do
  start u message_id trace request
  pure none
dispatch u message_id trace (some (Payload.cancel_job request)) = do
  Jobs.cancel u message_id trace request
  pure none
dispatch u message_id trace (some (Payload.heartbeat nonce)) = do
  send_out (some message_id) trace (Payload.heartbeat nonce)
  pure none
dispatch u message_id trace (some (Payload.shutdown request)) = do
  deadline ← lift (Validation.shutdown request)
  Jobs.shutdown
  acknowledge_shutdown message_id trace
  pure (some deadline)
dispatch u message_id trace (some (Payload.protocol_error error)) = do
  lift (Validation.protocol_error error)
  raise (SdkError.host error)
dispatch u message_id trace (some _) = raise (SdkError.protocol "unexpected host-initiated message")
dispatch u message_id trace none = raise (SdkError.protocol "payload is required")

abbrev pub handle_payload :
    UuidCrate → PluginEnvelope → TraceContext → Option ℕ → Exec JobManager (Option Timestamp)
handle_payload u envelope trace (some reply_to) = respond reply_to trace envelope.payload
handle_payload u envelope trace none = dispatch u envelope.message_id trace envelope.payload

unfoldable pub handle : UuidCrate → Incoming → Exec Serving (Option Timestamp)
unfolding validate_envelope respond dispatch
handle u (Incoming.received envelope) = do
  trace ← on_session (validate_envelope envelope)
  on_jobs (handle_payload u envelope trace envelope.reply_to)
handle u Incoming.closed = raise (SdkError.transport "host closed the plugin stream")
handle u (Incoming.broken error) = raise (SdkError.runtime "receive plugin runtime envelope" error)

-- What happens next: the loop joins a finished action or takes a message, or a task comes to its end,
-- makes a request of the host or sends a message, or drops the one or the other, at the end of its action,
-- while it waits for room in the channel.
pub data Event : Type 0 where
  joins : Event
  takes : Incoming → Event
  ends : String → Output → Event
  requests says : TraceContext → Payload → Event
  drops_request : TraceContext → Event
  drops_message : Event

-- The branch of the loop that joins, where `join_next` is ready.
abbrev pub settle_joined : Result FinishedAction → Exec JobManager (Option Timestamp)
settle_joined (ok finished) j = (settle finished >> pure none) j
settle_joined (err e) j = (err e, j)
settle_joined (panic m) j = (panic m, j)

abbrev pub join_ready :
    Option (Result FinishedAction × JobManager) → Exec JobManager (Option Timestamp)
join_ready none j = (ok none, j)
join_ready (some (r, k)) j = settle_joined r k

abbrev pub join_branch : Exec JobManager (Option Timestamp)
join_branch j = if has_active_jobs j then join_ready (join_next j) j else pure none j

abbrev pub runs : String → List Task → Bool
runs id tasks = any (λ (t : Task). t.job_id == id) tasks

abbrev pub end_running : String → Output → JobManager → JobManager
end_running id output j = if runs id j.tasks then end_task id output j else j

unfoldable pub step : UuidCrate → Event → Exec Serving (Option Timestamp)
unfolding handle issue end_task
step u Event.joins = on_jobs join_branch
step u (Event.takes incoming) = handle u incoming
step u (Event.ends id output) = on_jobs (λ j. (ok none, end_running id output j))
step u (Event.requests trace payload) =
    on_jobs (λ j. (ok none, record j { host = (issue trace payload j.host).1 }))
step u (Event.says trace payload) = on_jobs (λ j. (ok none, (send_out none trace payload j).1))
step u (Event.drops_request trace) =
    on_jobs (λ j. (ok none, record j { host = drop_sending trace j.host }))
step u Event.drops_message =
    on_jobs
      (λ j. (ok none, record j { host = record j.host { sender = drop_send true j.host.sender } }))

abbrev pub resume :
    Exec Serving (Option Timestamp) → Option Timestamp → Exec Serving (Option Timestamp)
resume rest none = rest
resume rest (some deadline) = pure (some deadline)

-- `none`: the events are used up and the loop goes on.
unfoldable pub serve : UuidCrate → List Event → Exec Serving (Option Timestamp)
unfolding step
serve u [] = pure none
serve u (e ∷ es) = step u e >>= resume (serve u es)
