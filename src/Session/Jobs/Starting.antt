-- ===== src/Session/Jobs/Starting.antt =====
-- The branches of `start`.
use rust_plugin_sdk.Prelude.{
  ℕ, ◌≤◌, ◌<◌, ◌≡◌, refl, inl, inr, Bool, true, false, Option, none, some, arith, Bool-cases,
  length, not, is_some, leb, string_eq, if◌then◌else◌,
}
use rust_plugin_sdk.Prelude.Map.{lookup, contains_key}
use rust_plugin_sdk.Protocol.{TraceContext, StartJobRequest}
use rust_plugin_sdk.Error.{SdkError, Result, ok, err, ok_or, ensure}
use rust_plugin_sdk.Exec.{Exec, proceed}
use rust_plugin_sdk.Validation
use rust_plugin_sdk.Validation.{UuidCrate}
use rust_plugin_sdk.Session.Jobs.Defs.{ActiveJob, Task, JobManager}
use rust_plugin_sdk.Session.Jobs.Ops.{start, reject, admit}
use rust_plugin_sdk.Session.Jobs.Frames.{Checks, job_id-Checks, optional_timestamp-Checks}

-- Where a check ends, what follows a call of it goes on or stops.
pub proceed_cases :
    {S A B : Type 0} (P : Result B × S → Type 0) (r : Result A) (f : A → Exec S B) (s : S)
    → Checks r
    → ((e : SdkError) → P (err e, s))
    → ((a : A) → r ≡ ok a → P (f a s))
    → P (proceed r f s)
proceed_cases P r f s (inl (a, e)) stop go = rw e (go a e)
proceed_cases P r f s (inr (x, e)) stop go = rw e (stop x)

pub ok_or-Checks {ℓ} : {A : Type ℓ} (o : Option A) (e : SdkError) → Checks (ok_or o e)
ok_or-Checks none e = inr (e, refl)
ok_or-Checks (some a) e = inl (a, refl)

ensure-Checks : (b : Bool) (e : SdkError) → Checks (ensure b e)
ensure-Checks true e = inl (tt, refl)
ensure-Checks false e = inr (e, refl)

not_known : (o : Option ActiveJob) (e : SdkError) → ensure (not (is_some o)) e ≡ ok tt → o ≡ none
not_known none e h = refl
not_known (some job) e h = cc

module _ (u : UuidCrate) (message_id : ℕ) (trace : TraceContext) (request : StartJobRequest)
    (j : JobManager) where
  -- The request is refused with nothing sent or changed, or is answered that there is no room, or a new
  -- task is admitted below the bound under a job ID that was free.
  pub data Started (r : Result (Unit {0}) × JobManager) : Type 0 where
    refused : (e : SdkError) → r ≡ (err e, j) → Started r
    rejected :
        j.maximum_concurrent_jobs ≤ length j.active → r ≡ reject message_id trace j → Started r
    admitted :
        (task : Task)
        → Validation.job_id u request.job_id ≡ ok task.job_id
        → task.parent_call_id ≡ message_id
        → task.trace ≡ trace
        → lookup task.job_id j.active ≡ none
        → length j.active < j.maximum_concurrent_jobs
        → r ≡ admit task j
        → Started r

  capacity :
      (task : Task)
      → Validation.job_id u request.job_id ≡ ok task.job_id
      → task.parent_call_id ≡ message_id
      → task.trace ≡ trace
      → lookup task.job_id j.active ≡ none
      → Started (
          (if leb j.maximum_concurrent_jobs (length j.active)
              then reject message_id trace
              else admit task)
            j)
  capacity task valid call traced free =
      elim (Bool-cases (leb j.maximum_concurrent_jobs (length j.active))) [
        | inl full ↦ rw full (rejected (ground arith) refl)
        | inr room ↦ rw room (admitted task valid call traced free (ground arith) refl)
      ]

  -- Whatever the request, `start` refuses it with nothing sent or changed, or answers that there is no
  -- room, or admits a new task, below the bound and under a job ID that was free.
  pub start-Started : Started (start u message_id trace request j)
  unfolding start
  start-Started = proceed_cases Started _ _ j (job_id-Checks u request.job_id) stop λ id valid.
      proceed_cases Started _ _ j (optional_timestamp-Checks request.deadline _) stop λ _ _.
        proceed_cases Started _ _ j (ensure-Checks (not (contains_key id j.active)) _) stop
          λ _ free.
            proceed_cases Started _ _ j (ok_or-Checks request.invocation _) stop λ invocation _.
              proceed_cases Started _ _ j (ok_or-Checks (lookup invocation.action j.actions) _) stop
                λ action _.
                  capacity
                    (record {
                      job_id = id;
                      action = action;
                      arguments = invocation.arguments;
                      deadline = request.deadline;
                      trace = trace;
                      parent_call_id = message_id;
                    })
                    valid refl refl (not_known (lookup id j.active) _ free)
    where
      stop : (e : SdkError) → Started (err e, j)
      stop e = refused e refl
