-- ===== src/Session/Jobs/Reached.antt =====
-- All histories of a job manager: requests, ends of tasks and settlements in any order.
use rust_plugin_sdk.Prelude.{
  ℕ, ◌≤◌, String, ◌≡◌, refl, sym, ap, ◌∙◌, ◌⊎◌, inl, inr, true, false, none, some, List, [], ◌∷◌,
  ◌++◌, arith, string_eq, count, subst,
}
use rust_plugin_sdk.Prelude.Map.{keys, lookup, lookup-count_pos}
use rust_plugin_sdk.Protocol.{TraceContext, StartJobRequest, CancelJobRequest}
use rust_plugin_sdk.Error.{Result, ok}
use rust_plugin_sdk.Validation.{UuidCrate}
use rust_plugin_sdk.Host.Client.{HostClient}
use rust_plugin_sdk.Plugin.{Output, RegisteredAction}
use rust_plugin_sdk.Session.Jobs.Defs.{
  ActiveJob, Task, FinishedAction, JobManager, new_manager, has_active_jobs,
}
use rust_plugin_sdk.Session.Jobs.Ops.{start, cancel, end_task, join_next, join_from, settle}
use rust_plugin_sdk.Session.Jobs.Updates.{WellStored}
use rust_plugin_sdk.Session.Jobs.Frames.{Checks}
use rust_plugin_sdk.Session.Jobs.Consistency.{
  IsConsistent, task_ids, start-IsConsistent, SameJobs-IsConsistent,
}
use rust_plugin_sdk.Sender.Effect.{Message, transcript}
use rust_plugin_sdk.Session.Jobs.Says.{said}
use rust_plugin_sdk.Session.Jobs.Contract.{AreApart}
use rust_plugin_sdk.Session.Jobs.Cancelling.{cancel-IsConsistent, end_task-IsConsistent}
use rust_plugin_sdk.Session.Jobs.Settling.{Settled, left, stays, settle-Settled, left-IsConsistent}

-- The states that the session's loop comes to while no operation fails. Between them tasks end by
-- themselves, with whatever output their action gives, and the host client changes, as it is used for
-- messages that are about no job.
module _ (u : UuidCrate) (actions : List (String × RegisteredAction)) (maximum : ℕ)
    (host : HostClient) where
  pub data Reached : JobManager → Type 0 where
    fresh : Reached (new_manager actions maximum host)
    starts :
        {j k : JobManager} (message_id : ℕ) (trace : TraceContext) (request : StartJobRequest)
        → Reached j
        → start u message_id trace request j ≡ (ok tt, k)
        → Reached k
    cancels :
        {j k : JobManager} (message_id : ℕ) (trace : TraceContext) (request : CancelJobRequest)
        → Reached j
        → cancel u message_id trace request j ≡ (ok tt, k)
        → Reached k
    ends :
        {j : JobManager} (id : String) (output : Output)
        → Reached j
        → 1 ≤ count id (task_ids j.tasks)
        → WellStored output
        → Reached (end_task id output j)
    settles :
        {j k l : JobManager} (f : FinishedAction)
        → Reached j
        → join_next j ≡ some (ok f, k)
        → settle f k ≡ (ok tt, l)
        → Reached l
    -- Answers to heartbeats, routed answers, and the requests, logs and chunks of the tasks.
    tells :
        {j : JobManager} (client : HostClient) (ms : List Message)
        → Reached j
        → transcript client.sender ≡ said j ++ ms
        → AreApart ms
        → Reached (record j { host = client })

  pub new_manager-IsConsistent : IsConsistent (new_manager actions maximum host)
  unfolding new_manager
  new_manager-IsConsistent = record {
    balanced = λ id. omega arith;
    once = λ id. omega arith;
    bounded = omega arith;
    stored = tt;
  }

-- What is joined is the oldest of the tasks that have ended.
pub join_next_ok :
    (j k : JobManager) (f : FinishedAction)
    → join_next j ≡ some (ok f, k)
    → record k { ended = f ∷ k.ended } ≡ j
unfolding join_next
join_next_ok j k f e = from j.ended j.tasks refl e
  where
    from :
        (fs : List FinishedAction) (ts : List Task)
        → fs ≡ j.ended
        → join_from fs ts j ≡ some (ok f, k)
        → record k { ended = f ∷ k.ended } ≡ j
    from (g ∷ fs) ts same h = ground arith
    from [] (t ∷ ts) same h = ground arith
    from [] [] same h = ground arith

-- A joined job is active.
pub joined_active :
    (f : FinishedAction) (j : JobManager)
    → IsConsistent (record j { ended = f ∷ j.ended })
    → (job : ActiveJob) × (lookup f.job_id j.active ≡ some job)
joined_active f j v =
    lookup-count_pos f.job_id j.active
      (ground (arith, v.balanced f.job_id, string_eq.beq_iff f.job_id f.job_id))

pub settle-Checks :
    (f : FinishedAction) (j : JobManager)
    → IsConsistent (record j { ended = f ∷ j.ended })
    → Checks (settle f j).0
settle-Checks f j v =
    let (job, found) = joined_active f j v in branches job (settle-Settled f j job found v.stored.0)
  where
    branches : (job : ActiveJob) → Settled f j job (settle f j) → Checks (settle f j).0
    branches job (left queued same) = rw same (inl (tt, refl))
    branches job (stays x failed same) = rw same (inr (x, refl))

join_cases :
    (j : JobManager) (fs : List FinishedAction) (ts : List Task)
    → fs ≡ j.ended
    → ts ≡ j.tasks
    → (join_next j ≡ none)
      ⊎ (((f : FinishedAction) × (k : JobManager) × (join_next j ≡ some (ok f, k)))
          ⊎ ((j.ended ≡ []) × (j.tasks ≡ [])))
unfolding join_next
join_cases j (f ∷ fs) ts e h = inr (inl (f, record j { ended = fs }, rw (← e, join_next) refl))
join_cases j [] (t ∷ ts) e h = inl (rw (← e, ← h, join_next) refl)
join_cases j [] [] e h = inr (inr (sym e, sym h))

busy_count :
    (j : JobManager) → has_active_jobs j ≡ true → (id : String) × (1 ≤ count id (keys j.active))
unfolding has_active_jobs
busy_count j busy = first j.active busy
  where
    first :
        (active : List (String × ActiveJob))
        → elim active [ [] ↦ false | job ∷ jobs ↦ true ] ≡ true
        → (id : String) × (1 ≤ count id (keys active))
    first [] h = ground arith
    first ((id, job) ∷ active) h = (id, ground (arith, string_eq.beq_iff id id))

pub settle-IsConsistent :
    (f : FinishedAction) (j k : JobManager)
    → IsConsistent (record j { ended = f ∷ j.ended })
    → settle f j ≡ (ok tt, k)
    → IsConsistent k
settle-IsConsistent f j k v e =
    let (job, found) = joined_active f j v in
    branches job found (settle-Settled f j job found v.stored.0)
  where
    branches :
        (job : ActiveJob)
        → lookup f.job_id j.active ≡ some job
        → Settled f j job (settle f j)
        → IsConsistent k
    branches job found (left queued same) =
        subst IsConsistent (ap (λ (r : Result (Unit {0}) × JobManager). r.1) (sym same ∙ e))
          (left-IsConsistent f j job found v)
    branches job found (stays x failed same) = ground (arith, same, e)

-- Where a job is active, the loop waits or joins, and what it joins settles without a panic.
pub joins_safely :
    (j : JobManager)
    → IsConsistent j
    → has_active_jobs j ≡ true
    → (join_next j ≡ none)
      ⊎ ((f : FinishedAction) × (k : JobManager) × (join_next j ≡ some (ok f, k))
          × Checks (settle f k).0)
joins_safely j v busy = elim (join_cases j j.ended j.tasks refl refl) [
  | inl waits ↦ inl waits
  | inr joins ↦ elim joins [
    | inl (f, k, e) ↦
        inr (f, k, e, settle-Checks f k (subst IsConsistent (sym (join_next_ok j k f e)) v))
    | inr (noended, notasks) ↦
        let (id, some_job) = busy_count j busy in
        absurd (ground (arith, v.balanced id, noended, notasks, some_job))
  ]
]

module _ (u : UuidCrate) (actions : List (String × RegisteredAction)) (maximum : ℕ)
    (host : HostClient) where
  -- In every state that a session comes to, each active job has exactly one task that runs or waits to
  -- be joined, job IDs are unique, the number of jobs is within the bound, and every unjoined output can
  -- be sent.
  pub Reached-IsConsistent : {j : JobManager} → Reached u actions maximum host j → IsConsistent j
  Reached-IsConsistent fresh = new_manager-IsConsistent u actions maximum host
  Reached-IsConsistent (starts {j} {k} message_id trace request r e) =
      subst IsConsistent (ap (λ (p : Result (Unit {0}) × JobManager). p.1) e)
        (start-IsConsistent u message_id trace request j (Reached-IsConsistent r))
  Reached-IsConsistent (cancels {j} {k} message_id trace request r e) =
      subst IsConsistent (ap (λ (p : Result (Unit {0}) × JobManager). p.1) e)
        (cancel-IsConsistent u message_id trace request j (Reached-IsConsistent r))
  Reached-IsConsistent (ends {j} id output r runs stored) =
      end_task-IsConsistent id output j runs stored (Reached-IsConsistent r)
  Reached-IsConsistent (tells {j} client ms r told apart) =
      SameJobs-IsConsistent
        (record { active = refl; tasks = refl; ended = refl; maximum = refl; actions = refl })
        (Reached-IsConsistent r)
  Reached-IsConsistent (settles {j} {k} {l} f r joined e) =
      settle-IsConsistent f k l
        (subst IsConsistent (sym (join_next_ok j k f joined)) (Reached-IsConsistent r)) e

  -- In every state that a session comes to with a job active, the loop may join: it waits, or it
  -- gets an action whose settlement returns or reports that sending failed. None of the `expect`s of
  -- `join_next` and `settle` can fire.
  pub joining_never_panics :
      (j : JobManager)
      → Reached u actions maximum host j
      → has_active_jobs j ≡ true
      → (join_next j ≡ none)
        ⊎ ((f : FinishedAction) × (k : JobManager) × (join_next j ≡ some (ok f, k))
            × Checks (settle f k).0)
  joining_never_panics j r busy = joins_safely j (Reached-IsConsistent r) busy
