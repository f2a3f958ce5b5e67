-- ===== src/Session/Jobs/Cancelling.antt =====
-- The branches of `cancel`, and the end of a task.
use rust_plugin_sdk.Prelude.{
  ℕ, ◌-◌, ◌≤◌, String, ◌≡◌, ◌≢◌, ◌⊎◌, refl, inl, inr, Option, none, some, List, [], ◌∷◌, ◌++◌,
  arith, Bool-cases, length, All, string_eq, count, ◌==◌, if◌then◌else◌,
}
use rust_plugin_sdk.Prelude.Int.{ℤ, pos, int_eq}
use rust_plugin_sdk.Prelude.Map.{keys, lookup, insert, keys-insert, length-insert_old}
use rust_plugin_sdk.Protocol.{TraceContext, CancelJobRequest}
use rust_plugin_sdk.Error.{SdkError, Result, ok, err}
use rust_plugin_sdk.Exec.{Exec, proceed}
use rust_plugin_sdk.Validation
use rust_plugin_sdk.Validation.{UuidCrate}
use rust_plugin_sdk.Cancellation
use rust_plugin_sdk.Plugin.{Output}
use rust_plugin_sdk.Session.Jobs.Defs.{
  PendingCancellation, ActiveJob, Task, FinishedAction, JobManager,
  send_cancellation_acknowledgement,
}
use rust_plugin_sdk.Session.Jobs.Ops.{
  cancel, cancel_found, end_task, without_task, finish_controller,
}
use rust_plugin_sdk.Session.Jobs.Frames.{Checks, job_id-Checks, Frames-ack}
use rust_plugin_sdk.Session.Jobs.Updates.{WellStored}
use rust_plugin_sdk.Session.Jobs.Consistency.{
  IsConsistent, IsStored, SameJobs-IsConsistent, task_ids, count-ended_snoc,
}

reason-Checks : (reason : ℤ) → Checks (Validation.cancellation_reason reason)
unfolding Validation.cancellation_reason
reason-Checks reason = elim (Bool-cases (reason == pos 0)) [
  | inl unspecified ↦
      inr (SdkError.protocol "CancelJobRequest reason must not be unspecified", rw unspecified)
  | inr given ↦ inl (tt, rw given)
]

unreasoned :
    (reason : ℤ) (e : SdkError)
    → Validation.cancellation_reason reason ≡ err e
    → (reason ≡ pos 0) × (e ≡ SdkError.protocol "CancelJobRequest reason must not be unspecified")
unfolding Validation.cancellation_reason
unreasoned reason e h = ground (arith, h, int_eq.beq_iff reason (pos 0))

reasoned : (reason : ℤ) → Validation.cancellation_reason reason ≡ ok tt → reason ≢ pos 0
unfolding Validation.cancellation_reason
reasoned reason h = ground (arith, h, int_eq.beq_iff reason (pos 0))

-- `proceed_cases`, with the cause of a stop.
reasoned_cases :
    {S A B : Type 0} (P : Result B × S → Type 0) (r : Result A) (f : A → Exec S B) (s : S)
    → Checks r
    → ((e : SdkError) → r ≡ err e → P (err e, s))
    → ((a : A) → r ≡ ok a → P (f a s))
    → P (proceed r f s)
reasoned_cases P r f s (inl (a, e)) stop go = rw e (go a e)
reasoned_cases P r f s (inr (x, e)) stop go = rw e (stop x e)

-- Writing to a job that is active.
pub rewritten-IsConsistent :
    (id : String) (new old : ActiveJob) (j : JobManager)
    → lookup id j.active ≡ some old
    → IsConsistent j
    → IsConsistent (record j { active = insert id new j.active })
rewritten-IsConsistent id new old j found v = record {
  balanced = λ k. rw (keys-insert id new old j.active found) (v.balanced k);
  once = λ k. rw (keys-insert id new old j.active found) (v.once k);
  bounded = rw (length-insert_old id new old j.active found) v.bounded;
  stored = v.stored;
}

abbrev pub acknowledgement : ℕ → TraceContext → String → PendingCancellation
acknowledgement message_id trace id = record {
  reply_to = message_id;
  trace = trace;
  job_id = record { value = id };
}

-- A job whose cancellation was asked for, once more.
abbrev pub with_request : PendingCancellation → ActiveJob → ActiveJob
with_request c job = record job {
  controller = (Cancellation.cancel job.controller).0;
  cancellations = job.cancellations ++ c ∷ [];
}

module _ (u : UuidCrate) (message_id : ℕ) (trace : TraceContext) (request : CancelJobRequest)
    (j : JobManager) where
  -- Why a request is refused: its job ID is not valid, or it gives no reason.
  abbrev pub Refuses : SdkError → Type 0
  Refuses e =
      (Validation.job_id u request.job_id ≡ err e)
      ⊎ ((request.reason ≡ pos 0)
          × (e ≡ SdkError.protocol "CancelJobRequest reason must not be unspecified"))

  -- The request is refused, or kept with its active job, or answered at once where no such job is
  -- active.
  pub data Cancelled (r : Result (Unit {0}) × JobManager) : Type 0 where
    refused : (e : SdkError) → Refuses e → r ≡ (err e, j) → Cancelled r
    kept :
        (id : String) (job : ActiveJob)
        → Validation.job_id u request.job_id ≡ ok id
        → request.reason ≢ pos 0
        → lookup id j.active ≡ some job
        → r ≡ (
          ok tt,
          record j {
            active = insert id (with_request (acknowledgement message_id trace id) job) j.active;
          },
        )
        → Cancelled r
    answered :
        (id : String)
        → Validation.job_id u request.job_id ≡ ok id
        → request.reason ≢ pos 0
        → lookup id j.active ≡ none
        → r ≡ send_cancellation_acknowledgement (acknowledgement message_id trace id) j
        → Cancelled r

  found_cases :
      (id : String) (o : Option ActiveJob)
      → Validation.job_id u request.job_id ≡ ok id
      → request.reason ≢ pos 0
      → lookup id j.active ≡ o
      → Cancelled (cancel_found (acknowledgement message_id trace id) o j)
  found_cases id none valid given e = answered id valid given e refl
  found_cases id (some job) valid given e = kept id job valid given e refl

  -- A cancellation request without a valid job ID or without a reason is refused, with nothing changed.
  -- Any other one is appended to those of its active job, whose controller is cancelled, or, where no such
  -- job is active, acknowledged at once.
  pub cancel-Cancelled : Cancelled (cancel u message_id trace request j)
  unfolding cancel
  cancel-Cancelled =
      reasoned_cases Cancelled _ _ j (job_id-Checks u request.job_id)
        (λ e bad. refused e (inl bad) refl)
        λ id valid.
          reasoned_cases Cancelled _ _ j (reason-Checks request.reason)
            (λ e bad. refused e (inr (unreasoned request.reason e bad)) refl)
            λ _ given.
              found_cases id (lookup id j.active) valid (reasoned request.reason given) refl

pub cancel-IsConsistent :
    (u : UuidCrate) (message_id : ℕ) (trace : TraceContext) (request : CancelJobRequest)
    (j : JobManager)
    → IsConsistent j
    → IsConsistent (cancel u message_id trace request j).1
cancel-IsConsistent u message_id trace request j v =
    branches (cancel-Cancelled u message_id trace request j)
  where
    branches :
        {r : Result (Unit {0}) × JobManager}
        → Cancelled u message_id trace request j r
        → IsConsistent r.1
    branches (refused e why same) = rw same v
    branches (answered id valid given free same) =
        rw same (SameJobs-IsConsistent ((Frames-ack (acknowledgement message_id trace id)).at j) v)
    branches (kept id job valid given found same) = rw same (
        rewritten-IsConsistent id (with_request (acknowledgement message_id trace id) job) job j
          found v)

keys-finish_controller :
    (id : String) (active : List (String × ActiveJob))
    → keys (finish_controller id active) ≡ keys active
keys-finish_controller id [] = refl
keys-finish_controller id ((k, job) ∷ active) = ground (arith, keys-finish_controller id active)

length-finish_controller :
    (id : String) (active : List (String × ActiveJob))
    → length (finish_controller id active) ≡ length active
length-finish_controller id [] = refl
length-finish_controller id ((k, job) ∷ active) = ground (arith, length-finish_controller id active)

count-without_task :
    (id k : String) (ts : List Task)
    → count k (task_ids (without_task id ts))
      ≡ count k (task_ids ts) - (if string_eq.beq id k then 1 else 0)
count-without_task id k [] = ground arith
count-without_task id k (t ∷ ts) = ground (
  arith,
  count-without_task id k ts,
  string_eq.beq_iff t.job_id id,
  string_eq.beq_iff t.job_id k,
  string_eq.beq_iff id k,
)

All-ended_snoc :
    (fs : List FinishedAction) (f : FinishedAction)
    → All IsStored fs
    → IsStored f
    → All IsStored (fs ++ f ∷ [])
All-ended_snoc [] f h p = (p, tt)
All-ended_snoc (x ∷ fs) f h p = (h.0, All-ended_snoc fs f h.1 p)

-- The end of a task that runs.
pub end_task-IsConsistent :
    (id : String) (output : Output) (j : JobManager)
    → 1 ≤ count id (task_ids j.tasks)
    → WellStored output
    → IsConsistent j
    → IsConsistent (end_task id output j)
unfolding end_task
end_task-IsConsistent id output j runs stored v =
    let f : FinishedAction = record { job_id = id; output = output } in
    record {
      balanced = λ k. rw (keys-finish_controller id j.active) (
          ground (
            arith,
            v.balanced k,
            count-without_task id k j.tasks,
            count-ended_snoc k j.ended f,
            string_eq.beq_iff id k,
          ));
      once = λ k. rw (keys-finish_controller id j.active) (v.once k);
      bounded = rw (length-finish_controller id j.active) v.bounded;
      stored = All-ended_snoc j.ended f v.stored stored;
    }
