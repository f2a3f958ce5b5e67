-- ===== src/Session/Jobs/Defs.antt =====
-- The state of `JobManager`, and the messages it sends.
use rust_plugin_sdk.Prelude.{ℕ, String, Bool, Option, some, List, [], ◌∷◌, string_eq}
use rust_plugin_sdk.Protocol.{TraceContext, Payload, PluginJobId, Timestamp}
use rust_plugin_sdk.Error.{Result}
use rust_plugin_sdk.Exec.{Exec, ◌>>◌, pure}
use rust_plugin_sdk.Sender.{SessionSender, send}
use rust_plugin_sdk.Cancellation.{Cancellation}
use rust_plugin_sdk.Host.Client.{HostClient}
use rust_plugin_sdk.Plugin.{RegisteredAction, Output}

pub record PendingCancellation : Type 0 where
  pub reply_to : ℕ
  pub trace : TraceContext
  pub job_id : PluginJobId

-- The controller is the byte that the job's task and context share.
pub record ActiveJob : Type 0 where
  pub controller : Cancellation
  pub trace : TraceContext
  pub cancellations : List PendingCancellation

-- What a spawned task owns of its action and its `ActionContext`.
pub record Task : Type 0 where
  pub job_id : String
  pub action : RegisteredAction
  pub arguments : List String
  pub deadline : Option Timestamp
  pub trace : TraceContext
  pub parent_call_id : ℕ

pub record FinishedAction : Type 0 where
  pub job_id : String
  pub output : Output

-- `tasks` are the unfinished tasks of the `JoinSet`, `ended` the finished ones that were not joined yet.
pub record JobManager : Type 0 where
  pub actions : List (String × RegisteredAction)
  pub maximum_concurrent_jobs : ℕ
  pub host : HostClient
  pub active : List (String × ActiveJob)
  pub tasks : List Task
  pub ended : List FinishedAction

unfoldable pub new_manager : List (String × RegisteredAction) → ℕ → HostClient → JobManager
new_manager actions maximum host = record {
  actions = actions;
  maximum_concurrent_jobs = maximum;
  host = host;
  active = [];
  tasks = [];
  ended = [];
}

unfoldable pub has_active_jobs : JobManager → Bool
has_active_jobs j = elim j.active [ [] ↦ Bool.false | job ∷ jobs ↦ Bool.true ]

-- `self.host.sender().send(…).await?`.
abbrev pub sending : JobManager → Result ℕ × SessionSender → Result ℕ × JobManager
sending j (r, s) = (r, record j { host = record j.host { sender = s } })

abbrev pub send_out : Option ℕ → TraceContext → Payload → Exec JobManager ℕ
send_out reply_to trace payload j = sending j (send reply_to trace payload j.host.sender)

unfoldable pub send_cancellation_acknowledgement : PendingCancellation → Exec JobManager (Unit {0})
send_cancellation_acknowledgement c = do
  send_out (some c.reply_to) c.trace (Payload.cancel_job_acknowledged (some c.job_id))
  pure tt

unfoldable pub send_all : List PendingCancellation → Exec JobManager (Unit {0})
unfolding send_cancellation_acknowledgement
send_all [] = pure tt
send_all (c ∷ cs) = do send_cancellation_acknowledgement c; send_all cs
