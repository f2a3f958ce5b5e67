-- ===== src/Session/Jobs/Admission.antt =====
-- Admission seen from outside: the one answer to each request to start a job.
use rust_plugin_sdk.Prelude.{
  ℕ, ◌≡◌, refl, sym, ap, ◌∙◌, none, some, [], ◌∷◌, ◌++◌, arith, ◌≤◌, ◌<◌, length, string_eq,
}
use rust_plugin_sdk.Prelude.Map.{lookup, insert}
use rust_plugin_sdk.Protocol.{TraceContext, Payload, StartJobRequest}
use rust_plugin_sdk.Error.{Result, ok, err, panic}
use rust_plugin_sdk.Exec.{proceed, modify, ◌>>◌}
use rust_plugin_sdk.Sender.Effect.{Message, message}
use rust_plugin_sdk.Validation
use rust_plugin_sdk.Validation.{UuidCrate}
use rust_plugin_sdk.Sender.{SessionSender}
use rust_plugin_sdk.Session.Jobs.Errors.{capacity_error}
use rust_plugin_sdk.Session.Jobs.Defs.{Task, JobManager}
use rust_plugin_sdk.Session.Jobs.Ops.{spawn, activate, start, admit, reject, new_job}
use rust_plugin_sdk.Session.Jobs.Frames.{SameJobs, Frames-reject}
use rust_plugin_sdk.Session.Jobs.Starting.{Started, refused, rejected, admitted, start-Started}
use rust_plugin_sdk.Session.Jobs.Says.{said, Sends-send_out, Sends-pure, Sends-bind}

abbrev pub accepted_message : Task → Message
accepted_message task =
    message (some task.parent_call_id) task.trace
      (Payload.job_accepted (some (record { value = task.job_id })))

abbrev pub capacity_message : ℕ → TraceContext → JobManager → Message
capacity_message message_id trace j =
    message (some message_id) trace
      (Payload.protocol_error (capacity_error j.maximum_concurrent_jobs))

reject_says :
    (message_id : ℕ) (trace : TraceContext) (j : JobManager)
    → (reject message_id trace j).0 ≡ ok tt
    → said (reject message_id trace j).1 ≡ said j ++ capacity_message message_id trace j ∷ []
unfolding reject
reject_says message_id trace j e =
    (Sends-bind (capacity_message message_id trace j ∷ []) [] _ _ (Sends-send_out _ _ _)
        (λ _. Sends-pure tt)).at
      j tt e

-- The job is in the table with a fresh state, and its task is the newest.
pub record Added (task : Task) (j k : JobManager) : Type 0 where
  pub told : said k ≡ said j ++ accepted_message task ∷ []
  pub listed : k.active ≡ insert task.job_id (new_job task.trace) j.active
  pub spawned : k.tasks ≡ j.tasks ++ task ∷ []
  pub waits : k.ended ≡ j.ended

pub admit-Added :
    (task : Task) (j : JobManager) → (admit task j).0 ≡ ok tt → Added task j (admit task j).1
unfolding admit
admit-Added task j e = added _ _ ((Sends-send_out _ _ _).at j) e
  where
    added :
        (r : Result ℕ) (s : SessionSender)
        → let k : JobManager = record j { host = record j.host { sender = s } } in
          ((id : ℕ) → r ≡ ok id → said k ≡ said j ++ accepted_message task ∷ [])
          → (proceed r (λ _. modify (spawn task) >> modify (activate task.job_id task.trace)) k).0
            ≡ ok tt
          → Added task j
              (proceed r (λ _. modify (spawn task) >> modify (activate task.job_id task.trace)) k).1
    added (ok id) s h done = record {
      told = h id refl;
      listed = refl;
      spawned = refl;
      waits = refl;
    }
    added (err x) s h done = ground arith
    added (panic x) s h done = ground arith

module _ (u : UuidCrate) (message_id : ℕ) (trace : TraceContext) (request : StartJobRequest)
    (j : JobManager) where
  -- The two answers that a request can have: no room, or a new job that was not in the table.
  pub data Answered (k : JobManager) : Type 0 where
    no_room :
        j.maximum_concurrent_jobs ≤ length j.active
        → said k ≡ said j ++ capacity_message message_id trace j ∷ []
        → SameJobs j k
        → Answered k
    new_task :
        (task : Task)
        → Validation.job_id u request.job_id ≡ ok task.job_id
        → task.parent_call_id ≡ message_id
        → task.trace ≡ trace
        → lookup task.job_id j.active ≡ none
        → length j.active < j.maximum_concurrent_jobs
        → Added task j k
        → Answered k

  -- If `start` returns without an error, the host has been sent one message more, the acceptance or the
  -- capacity error, in reply to the request; the job was added in the first case, below the bound and
  -- under an ID that was free, and the table and the tasks are as before in the second.
  pub start_answers :
      (start u message_id trace request j).0 ≡ ok tt
      → Answered (start u message_id trace request j).1
  start_answers = branches (start-Started u message_id trace request j)
    where
      branches :
          {r : Result (Unit {0}) × JobManager}
          → Started u message_id trace request j r
          → r.0 ≡ ok tt
          → Answered r.1
      branches (refused e same) done = ground (arith, same)
      branches (rejected full same) done = rw same (
          no_room full (reject_says message_id trace j (sym (ap (λ x. x.0) same) ∙ done))
            ((Frames-reject message_id trace).at j))
      branches (admitted task valid call traced free room same) done = rw same (
          new_task task valid call traced free room
            (admit-Added task j (sym (ap (λ x. x.0) same) ∙ done)))
