-- ===== src/Session/Jobs/Closings.antt =====
-- Each operation seen from outside: what it sends and what it leaves in the table.
use rust_plugin_sdk.Prelude.{
  String, ◌≡◌, ◌≢◌, refl, ◌∙◌, false, none, some, List, [], ◌++◌, arith, ◌≤◌, string_eq, count,
}
use rust_plugin_sdk.Prelude.Map.{
  keys, values, lookup, lookup-insert, lookup-remove_self, lookup-remove_ne,
}
use rust_plugin_sdk.Error.{Result, ok, err, panic}
use rust_plugin_sdk.Exec.{proceed, modify}
use rust_plugin_sdk.Sender.Effect.{Message}
use rust_plugin_sdk.Session.Jobs.Defs.{ActiveJob, FinishedAction, JobManager, send_all}
use rust_plugin_sdk.Session.Jobs.Ops.{settle, shutdown, all_cancellations, shut_jobs}
use rust_plugin_sdk.Session.Jobs.Frames.{SameJobs, Frames-settle_output, Frames-send_all}
use rust_plugin_sdk.Session.Jobs.Updates.{WellStored}
use rust_plugin_sdk.Session.Jobs.Settling.{
  Settled, settled, output_step, left, stays, settle-Settled, keys-output_step,
}
use rust_plugin_sdk.Session.Jobs.Says.{
  said, ack_messages, closing, Sends-send_all, Sends-settle_output,
}

module _ (f : FinishedAction) (j : JobManager) (job : ActiveJob) where
  pub closes_from :
      {r : Result (Unit {0}) × JobManager}
      → Settled f j job r
      → r.0 ≡ ok tt
      → said r.1 ≡ said j ++ closing f job.trace job.cancellations
  closes_from (left queued same) e =
      rw same ((Sends-settle_output f job.trace job.cancellations).at _ tt queued)
  closes_from (stays x failed same) e = ground (arith, same, e)

  pub leaves_from :
      {r : Result (Unit {0}) × JobManager}
      → Settled f j job r
      → r.0 ≡ ok tt
      → lookup f.job_id j.active ≡ some job
      → count f.job_id (keys j.active) ≤ 1
      → lookup f.job_id r.1.active ≡ none
  leaves_from (left queued same) e found once = rw same (
      lookup-remove_self f.job_id (output_step f j job).1.active
        (rw (keys-output_step f j job found) once))
  leaves_from (stays x failed same) e found once = ground (arith, same, e)

  pub others_from :
      {r : Result (Unit {0}) × JobManager} (other : String)
      → Settled f j job r
      → r.0 ≡ ok tt
      → f.job_id ≢ other
      → lookup other r.1.active ≡ lookup other j.active
  others_from other (left queued same) e ne =
      let different : string_eq.beq f.job_id other ≡ false =
        ground (arith, string_eq.beq_iff f.job_id other) in
      rw same (
        lookup-remove_ne f.job_id other (output_step f j job).1.active different
        ∙ rw ((Frames-settle_output f job.trace job.cancellations).at _).active
            (lookup-insert f.job_id other (settled job) j.active ∙ rw different))
  others_from other (stays x failed same) e ne = ground (arith, same, e)

  -- If the settlement of an active job, listed once, returns, and the artifacts of its output have
  -- IDs, it has closed the job in exactly one way: by one terminal update, if no cancellation is
  -- pending, and otherwise by acknowledging each pending cancellation, in order, under the number
  -- and trace of its own request. The job has left the table, and no other job is touched.
  pub settle_closes :
      (other : String)
      → lookup f.job_id j.active ≡ some job
      → count f.job_id (keys j.active) ≤ 1
      → WellStored f.output
      → f.job_id ≢ other
      → (settle f j).0 ≡ ok tt
      → (said (settle f j).1 ≡ said j ++ closing f job.trace job.cancellations)
        × (lookup f.job_id (settle f j).1.active ≡ none)
        × (lookup other (settle f j).1.active ≡ lookup other j.active)
  settle_closes other found once stored ne e =
      let s = settle-Settled f j job found stored in
      (closes_from s e, leaves_from s e found once, others_from other s e ne)

-- The end of `shutdown`, after the acknowledgements.
emptied :
    (ms : List Message) (r : Result (Unit {0})) (j k : JobManager)
    → (r ≡ ok tt → said k ≡ ms)
    → SameJobs j k
    → j.tasks ≡ []
    → j.ended ≡ []
    → let end = proceed r (λ _. modify (λ (m : JobManager). record m { active = [] })) k in
      end.0 ≡ ok tt
      → (said end.1 ≡ ms) × (end.1.active ≡ []) × (end.1.tasks ≡ []) × (end.1.ended ≡ [])
emptied ms (ok a) j k h s t e done = (h refl, refl, s.tasks ∙ t, s.ended ∙ e)
emptied ms (err x) j k h s t e done = ground arith
emptied ms (panic x) j k h s t e done = ground arith

-- A shutdown that returns has acknowledged every cancellation that was pending in any job, and sent
-- nothing else; no job, running task or unjoined output is left.
pub shutdown_closes :
    (j : JobManager)
    → (shutdown j).0 ≡ ok tt
    → (said (shutdown j).1 ≡ said j ++ ack_messages (all_cancellations (values j.active)))
      × ((shutdown j).1.active ≡ [])
      × ((shutdown j).1.tasks ≡ [])
      × ((shutdown j).1.ended ≡ [])
unfolding shutdown
shutdown_closes j e =
    let pending = all_cancellations (values j.active) in
    let k : JobManager = record j { active = shut_jobs j.active; tasks = []; ended = [] } in
    emptied (said j ++ ack_messages pending) (send_all pending k).0 k (send_all pending k).1
      (λ sent. (Sends-send_all pending).at k tt sent) ((Frames-send_all pending).at k) refl refl e
