-- ===== src/Session/Jobs/Settling.antt =====
-- How a finished action settles.
use rust_plugin_sdk.Prelude.{
  String, ◌≡◌, ap, ◌∙◌, inl, inr, some, List, [], ◌∷◌, arith, length, string_eq, count,
}
use rust_plugin_sdk.Prelude.Map.{
  keys, lookup, remove, lookup-insert, count-remove, keys-insert, length-insert_old,
  length-remove_le,
}
use rust_plugin_sdk.Error.{SdkError, Result, ok, err}
use rust_plugin_sdk.Session.Jobs.Defs.{ActiveJob, FinishedAction, JobManager}
use rust_plugin_sdk.Session.Jobs.Ops.{settle, settle_output, take_cancellations}
use rust_plugin_sdk.Session.Jobs.Frames.{Frames-settle_output}
use rust_plugin_sdk.Session.Jobs.Sure.{Sure-settle_output}
use rust_plugin_sdk.Session.Jobs.Updates.{WellStored}
use rust_plugin_sdk.Session.Jobs.Consistency.{IsConsistent}

abbrev pub settled : ActiveJob → ActiveJob
settled job = record job { cancellations = [] }

module _ (f : FinishedAction) (j : JobManager) (job : ActiveJob) where
  abbrev pub taken : JobManager
  taken = take_cancellations f.job_id job j

  abbrev pub output_step : Result (Unit {0}) × JobManager
  output_step = settle_output f job.trace job.cancellations taken

  -- Either the output is queued and the job leaves, or queueing fails and the job stays.
  pub data Settled (r : Result (Unit {0}) × JobManager) : Type 0 where
    left :
        output_step.0 ≡ ok tt
        → r ≡ (ok tt, record output_step.1 { active = remove f.job_id output_step.1.active })
        → Settled r
    stays : (e : SdkError) → output_step.0 ≡ err e → r ≡ (err e, output_step.1) → Settled r

  still_active : lookup f.job_id output_step.1.active ≡ some (settled job)
  still_active = rw ((Frames-settle_output f job.trace job.cancellations).at taken).active (
      lookup-insert f.job_id f.job_id (settled job) j.active
      ∙ ground (arith, string_eq.beq_iff f.job_id f.job_id))

  pub settle-Settled :
      lookup f.job_id j.active ≡ some job → WellStored f.output → Settled (settle f j)
  unfolding settle
  settle-Settled found stored =
      elim ((Sure-settle_output f job.trace job.cancellations stored).at taken) [
        | inl (u, e) ↦ left e (rw (found, e, still_active))
        | inr (x, e) ↦ stays x e (rw (found, e))
      ]

  pub keys-output_step :
      lookup f.job_id j.active ≡ some job → keys output_step.1.active ≡ keys j.active
  keys-output_step found =
      rw ((Frames-settle_output f job.trace job.cancellations).at taken).active
        (keys-insert f.job_id (settled job) job j.active found)

  pub left-IsConsistent :
      lookup f.job_id j.active ≡ some job
      → IsConsistent (record j { ended = f ∷ j.ended })
      → IsConsistent (record output_step.1 { active = remove f.job_id output_step.1.active })
  left-IsConsistent found v =
      let s = (Frames-settle_output f job.trace job.cancellations).at taken in
      let same = keys-output_step found in
      record {
        balanced = λ id.
            rw (s.tasks, s.ended)
              (ground (
                arith,
                v.balanced id,
                count-remove f.job_id id output_step.1.active,
                ap (λ ks. count id ks) same,
              ));
        once = λ id. ground (
          arith,
          v.once id,
          count-remove f.job_id id output_step.1.active,
          ap (λ ks. count id ks) same,
        );
        bounded = omega (
          arith,
          v.bounded,
          s.maximum,
          length-remove_le f.job_id output_step.1.active,
          ap (λ (a : List (String × ActiveJob)). length a) s.active,
          length-insert_old f.job_id (settled job) job j.active found,
        );
        stored = rw s.ended v.stored.1;
      }
