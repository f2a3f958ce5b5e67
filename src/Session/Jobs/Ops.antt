-- ===== src/Session/Jobs/Ops.antt =====
-- The operations of `JobManager`.
use Prim.Native.String.{◌++◌ as concat}
use rust_plugin_sdk.Prelude.{
  ℕ, String, not, Option, none, some, List, [], ◌∷◌, ◌++◌, leb, length, string_eq, if◌then◌else◌,
  ◌==◌,
}
use rust_plugin_sdk.Prelude.Map.{lookup, insert, remove, values, contains_key}
use rust_plugin_sdk.Protocol.{TraceContext, Payload, StartJobRequest, CancelJobRequest}
use rust_plugin_sdk.Error.{SdkError, Result, ok, panic, ok_or, ensure, expect}
use rust_plugin_sdk.Exec.{Exec, ◌>>=◌, ◌>>◌, pure, lift, gets, modify}
use rust_plugin_sdk.Validation
use rust_plugin_sdk.Validation.{UuidCrate}
use rust_plugin_sdk.Cancellation
use rust_plugin_sdk.Cancellation.{Cancellation, new_cancellation}
use rust_plugin_sdk.Plugin.{Output}
use rust_plugin_sdk.Session.Jobs.Errors.{capacity_error, terminal_update}
use rust_plugin_sdk.Session.Jobs.Defs.{
  PendingCancellation, ActiveJob, Task, FinishedAction, JobManager, send_out, send_all,
  send_cancellation_acknowledgement,
}

-- Beyond the bound the request is answered with an error, and no task is made.
unfoldable pub reject : ℕ → TraceContext → Exec JobManager (Unit {0})
reject message_id trace j =
    (do
      send_out (some message_id) trace
          (Payload.protocol_error (capacity_error j.maximum_concurrent_jobs))
      pure tt)
      j

abbrev pub spawn : Task → JobManager → JobManager
spawn task j = record j { tasks = j.tasks ++ task ∷ [] }

abbrev pub new_job : TraceContext → ActiveJob
new_job trace = record { controller = new_cancellation; trace = trace; cancellations = [] }

abbrev pub activate : String → TraceContext → JobManager → JobManager
activate id trace j = record j { active = insert id (new_job trace) j.active }

-- The acceptance goes out first; the job is active once it is sent.
unfoldable pub admit : Task → Exec JobManager (Unit {0})
admit task = do
  send_out (some task.parent_call_id) task.trace
      (Payload.job_accepted (some (record { value = task.job_id })))
  modify (spawn task)
  modify (activate task.job_id task.trace)

unfoldable pub start : UuidCrate → ℕ → TraceContext → StartJobRequest → Exec JobManager (Unit {0})
unfolding reject admit
start u message_id trace request = do
  job_id ← lift (Validation.job_id u request.job_id)
  lift (Validation.optional_timestamp request.deadline "StartJobRequest deadline")
  known ← gets (λ j. contains_key job_id j.active)
  lift (ensure (not known) (SdkError.protocol "duplicate active job ID"))
  invocation ← lift (ok_or request.invocation (SdkError.protocol "unsupported job invocation"))
  found ← gets (λ j. lookup invocation.action j.actions)
  action ←
      lift
        (ok_or found (SdkError.protocol (concat "unknown action `" (concat invocation.action "`"))))
  full ← gets (λ j. leb j.maximum_concurrent_jobs (length j.active))
  if full
      then reject message_id trace
      else admit (record {
        job_id = job_id;
        action = action;
        arguments = invocation.arguments;
        deadline = request.deadline;
        trace = trace;
        parent_call_id = message_id;
      })

-- The request is kept with its job until the job settles; with no such job it is answered at once.
abbrev pub cancel_found : PendingCancellation → Option ActiveJob → Exec JobManager (Unit {0})
cancel_found c none = send_cancellation_acknowledgement c
cancel_found c (some job) = modify (λ j. record j {
  active =
      insert c.job_id.value
        (record job {
          controller = (Cancellation.cancel job.controller).0;
          cancellations = job.cancellations ++ c ∷ [];
        })
        j.active;
})

unfoldable pub cancel : UuidCrate → ℕ → TraceContext → CancelJobRequest → Exec JobManager (Unit {0})
unfolding send_cancellation_acknowledgement Cancellation.cancel
cancel u message_id trace request = do
  job_id ← lift (Validation.job_id u request.job_id)
  lift (Validation.cancellation_reason request.reason)
  found ← gets (λ j. lookup job_id j.active)
  cancel_found (record { reply_to = message_id; trace = trace; job_id = record { value = job_id } })
      found

-- The task of a job comes to its end: its guard finishes the controller, its output waits in the set.
abbrev pub without_task : String → List Task → List Task
without_task id [] = []
without_task id (t ∷ ts) = if t.job_id == id then ts else t ∷ without_task id ts

abbrev pub finish_controller : String → List (String × ActiveJob) → List (String × ActiveJob)
finish_controller id [] = []
finish_controller id ((k, job) ∷ jobs) =
    if k == id
    then (k, record job { controller = (Cancellation.finish job.controller).0 }) ∷ jobs
    else (k, job) ∷ finish_controller id jobs

unfoldable pub end_task : String → Output → JobManager → JobManager
unfolding Cancellation.finish
end_task id output j = record j {
  active = finish_controller id j.active;
  tasks = without_task id j.tasks;
  ended = j.ended ++ record { job_id = id; output = output } ∷ [];
}

-- `join_next`; `none` while no task has ended. An empty set is the panic of its `expect`.
abbrev pub join_from :
    List FinishedAction → List Task → JobManager → Option (Result FinishedAction × JobManager)
join_from (f ∷ fs) tasks j = some (ok f, record j { ended = fs })
join_from [] (t ∷ ts) j = none
join_from [] [] j = some (panic "active job count matches JoinSet tasks", j)

unfoldable pub join_next : JobManager → Option (Result FinishedAction × JobManager)
join_next j = join_from j.ended j.tasks j

-- The two ways a job settles: its terminal update, or the acknowledgements that were asked for.
abbrev pub settle_output :
    FinishedAction → TraceContext → List PendingCancellation → Exec JobManager (Unit {0})
settle_output finished trace [] = do
  update ← lift (terminal_update finished.job_id finished.output)
  send_out none trace (Payload.job_update update)
  pure tt
settle_output finished trace (c ∷ cs) = send_all (c ∷ cs)

abbrev pub take_cancellations : String → ActiveJob → JobManager → JobManager
take_cancellations id job j = record j {
  active = insert id (record job { cancellations = [] }) j.active;
}

-- The end of `settle`: the job leaves the table.
abbrev pub leave : FinishedAction → Exec JobManager (Unit {0})
leave finished = do
  left ← gets (λ j. lookup finished.job_id j.active)
  lift (expect left "settled action remained active until its output was queued")
  modify (λ j. record j { active = remove finished.job_id j.active })

unfoldable pub settle : FinishedAction → Exec JobManager (Unit {0})
unfolding terminal_update send_all
settle finished = do
  found ← gets (λ j. lookup finished.job_id j.active)
  job ← lift (expect found "completed action belongs to an active job")
  modify (take_cancellations finished.job_id job)
  settle_output finished job.trace job.cancellations
  leave finished

abbrev pub all_cancellations : List ActiveJob → List PendingCancellation
all_cancellations [] = []
all_cancellations (job ∷ jobs) = job.cancellations ++ all_cancellations jobs

-- Controllers cancelled and pending cancellations taken, with all tasks aborted and joined.
abbrev pub shut_job : ActiveJob → ActiveJob
shut_job job = record job {
  controller = (Cancellation.cancel job.controller).0;
  cancellations = [];
}

abbrev pub shut_jobs : List (String × ActiveJob) → List (String × ActiveJob)
shut_jobs [] = []
shut_jobs ((k, job) ∷ jobs) = (k, shut_job job) ∷ shut_jobs jobs

unfoldable pub shutdown : Exec JobManager (Unit {0})
unfolding send_all Cancellation.cancel
shutdown = do
  pending ← gets (λ j. all_cancellations (values j.active))
  modify (λ j. record j { active = shut_jobs j.active; tasks = []; ended = [] })
  send_all pending
  modify (λ j. record j { active = [] })
