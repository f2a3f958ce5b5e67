-- ===== src/Session/Jobs/Consistency.antt =====
-- The invariant of the job manager: its table and its tasks name the same jobs, each once, within the
-- bound, so that none of its `expect`s can fire.
use rust_plugin_sdk.Prelude.{
  ℕ, ◌+◌, ◌≤◌, ◌<◌, String, ◌≡◌, refl, ap, none, List, [], ◌∷◌, ◌++◌, arith, string_eq, length, All,
  count, count-append, if◌then◌else◌,
}
use rust_plugin_sdk.Prelude.Map.{keys, lookup, count-insert, count-lookup-none, length-insert_new}
use rust_plugin_sdk.Protocol.{TraceContext, StartJobRequest}
use rust_plugin_sdk.Error.{Result, ok, err, panic}
use rust_plugin_sdk.Validation.{UuidCrate}
use rust_plugin_sdk.Exec.{proceed, modify, ◌>>◌}
use rust_plugin_sdk.Sender.{SessionSender}
use rust_plugin_sdk.Host.Client.{HostClient}
use rust_plugin_sdk.Session.Jobs.Defs.{Task, FinishedAction, JobManager}
use rust_plugin_sdk.Session.Jobs.Ops.{spawn, new_job, activate, start, admit}
use rust_plugin_sdk.Session.Jobs.Updates.{WellStored}
use rust_plugin_sdk.Session.Jobs.Frames.{SameJobs, Frames-reject}
use rust_plugin_sdk.Session.Jobs.Starting.{Started, refused, rejected, admitted, start-Started}

abbrev pub task_ids : List Task → List String
task_ids [] = []
task_ids (t ∷ ts) = t.job_id ∷ task_ids ts

abbrev pub ended_ids : List FinishedAction → List String
ended_ids [] = []
ended_ids (f ∷ fs) = f.job_id ∷ ended_ids fs

abbrev pub IsStored : FinishedAction → Type 0
IsStored f = WellStored f.output

pub record IsConsistent (j : JobManager) : Type 0 where
  -- a job is active exactly as often as it has a task that runs or waits to be joined
  pub balanced :
      (id : String)
      → count id (keys j.active) ≡ count id (task_ids j.tasks) + count id (ended_ids j.ended)
  pub once : (id : String) → count id (keys j.active) ≤ 1
  pub bounded : length j.active ≤ j.maximum_concurrent_jobs
  pub stored : All IsStored j.ended

pub SameJobs-IsConsistent : {j k : JobManager} → SameJobs j k → IsConsistent j → IsConsistent k
SameJobs-IsConsistent s v = record {
  balanced = λ id. rw (s.active, s.tasks, s.ended) (v.balanced id);
  once = λ id. rw s.active (v.once id);
  bounded = rw (s.active, s.maximum) v.bounded;
  stored = rw s.ended v.stored;
}

hosted : (j : JobManager) (h : HostClient) → SameJobs j (record j { host = h })
hosted j h = record { active = refl; tasks = refl; ended = refl; maximum = refl; actions = refl }

task_ids-snoc : (ts : List Task) (t : Task) → task_ids (ts ++ t ∷ []) ≡ task_ids ts ++ t.job_id ∷ []
task_ids-snoc [] t = refl
task_ids-snoc (x ∷ ts) t = ap (◌∷◌ x.job_id) (task_ids-snoc ts t)

ended_ids-snoc :
    (fs : List FinishedAction) (f : FinishedAction)
    → ended_ids (fs ++ f ∷ []) ≡ ended_ids fs ++ f.job_id ∷ []
ended_ids-snoc [] t = refl
ended_ids-snoc (x ∷ ts) t = ap (◌∷◌ x.job_id) (ended_ids-snoc ts t)

count-task_snoc :
    (id : String) (ts : List Task) (t : Task)
    → count id (task_ids (ts ++ t ∷ []))
      ≡ count id (task_ids ts) + (if string_eq.beq t.job_id id then 1 else 0)
count-task_snoc id ts t =
    ground (arith, task_ids-snoc ts t, count-append id (task_ids ts) (t.job_id ∷ []))

pub count-ended_snoc :
    (id : String) (ts : List FinishedAction) (t : FinishedAction)
    → count id (ended_ids (ts ++ t ∷ []))
      ≡ count id (ended_ids ts) + (if string_eq.beq t.job_id id then 1 else 0)
count-ended_snoc id ts t =
    ground (arith, ended_ids-snoc ts t, count-append id (ended_ids ts) (t.job_id ∷ []))

added-IsConsistent :
    (task : Task) (j : JobManager)
    → IsConsistent j
    → lookup task.job_id j.active ≡ none
    → length j.active < j.maximum_concurrent_jobs
    → IsConsistent (activate task.job_id task.trace (spawn task j))
added-IsConsistent task j v free room = record {
  balanced = λ id. omega (
    arith,
    v.balanced id,
    count-insert task.job_id id (new_job task.trace) j.active free,
    count-task_snoc id j.tasks task,
  );
  once = λ id. ground (
    arith,
    v.once id,
    count-insert task.job_id id (new_job task.trace) j.active free,
    count-lookup-none task.job_id j.active free,
    string_eq.beq_iff task.job_id id,
  );
  bounded = omega (arith, length-insert_new task.job_id (new_job task.trace) j.active free);
  stored = v.stored;
}

admit-IsConsistent :
    (task : Task) (j : JobManager)
    → IsConsistent j
    → lookup task.job_id j.active ≡ none
    → length j.active < j.maximum_concurrent_jobs
    → IsConsistent (admit task j).1
unfolding admit
admit-IsConsistent task j v free room = accepted _ _
  where
    accepted :
        (r : Result ℕ) (s : SessionSender)
        → IsConsistent
            (proceed r
              (λ _. modify (spawn task) >> modify (activate task.job_id task.trace))
              (record j { host = record j.host { sender = s } })).1
    accepted (ok id) s =
        added-IsConsistent task (record j { host = record j.host { sender = s } })
          (SameJobs-IsConsistent (hosted j _) v) free room
    accepted (err e) s = SameJobs-IsConsistent (hosted j _) v
    accepted (panic m) s = SameJobs-IsConsistent (hosted j _) v

pub start-IsConsistent :
    (u : UuidCrate) (message_id : ℕ) (trace : TraceContext) (request : StartJobRequest)
    (j : JobManager)
    → IsConsistent j
    → IsConsistent (start u message_id trace request j).1
start-IsConsistent u message_id trace request j v =
    branches (start-Started u message_id trace request j)
  where
    branches :
        {r : Result (Unit {0}) × JobManager}
        → Started u message_id trace request j r
        → IsConsistent r.1
    branches (refused e same) = rw same v
    branches (rejected full same) =
        rw same (SameJobs-IsConsistent ((Frames-reject message_id trace).at j) v)
    branches (admitted task valid call traced free room same) =
        rw same (admit-IsConsistent task j v free room)
