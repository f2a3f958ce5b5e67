-- ===== src/Session/Jobs/Sure.antt =====
-- Actions that return or fail, and never panic.
use rust_plugin_sdk.Prelude.{ℕ, refl, inl, inr, Option, List, [], ◌∷◌}
use rust_plugin_sdk.Protocol.{TraceContext, Payload}
use rust_plugin_sdk.Error.{Result}
use rust_plugin_sdk.Exec.{Exec, ◌>>=◌, pure, proceed}
use rust_plugin_sdk.Sender.Effect.{send-Delivers}
use rust_plugin_sdk.Session.Jobs.Defs.{
  PendingCancellation, FinishedAction, JobManager, send_out, send_all,
  send_cancellation_acknowledgement,
}
use rust_plugin_sdk.Session.Jobs.Ops.{settle_output}
use rust_plugin_sdk.Session.Jobs.Updates.{WellStored, terminal_update-IsUpdateOf}
use rust_plugin_sdk.Session.Jobs.Frames.{Checks}

module _ {A : Type 0} where
  pub record Sure (m : Exec JobManager A) : Type 0 where
    pub at : (j : JobManager) → Checks (m j).0

  pub Sure-pure : (a : A) → Sure (pure a)
  Sure-pure a = record { at = λ j. inl (a, refl) }

module _ {A B : Type 0} where
  Sure-proceed :
      (r : Result A) (f : A → Exec JobManager B) (j : JobManager)
      → Checks r
      → ((a : A) → Sure (f a))
      → Checks (proceed r f j).0
  Sure-proceed r f j (inl (a, e)) k = rw e ((k a).at j)
  Sure-proceed r f j (inr (x, e)) k = rw e (inr (x, refl))

  pub Sure-bind :
      (m : Exec JobManager A) (f : A → Exec JobManager B)
      → Sure m
      → ((a : A) → Sure (f a))
      → Sure (m >>= f)
  Sure-bind m f a b = record { at = λ j. Sure-proceed (m j).0 f (m j).1 (a.at j) b }

pub Sure-send_out :
    (reply_to : Option ℕ) (trace : TraceContext) (payload : Payload)
    → Sure (send_out reply_to trace payload)
Sure-send_out reply_to trace payload = record {
  at = λ j. elim (send-Delivers reply_to trace payload j.host.sender) [
    | inl (e, _) ↦ inl (j.host.sender.next_message_id, e)
    | inr (x, e, _) ↦ inr (x, e)
  ];
}

pub Sure-ack : (c : PendingCancellation) → Sure (send_cancellation_acknowledgement c)
unfolding send_cancellation_acknowledgement
Sure-ack c = Sure-bind _ _ (Sure-send_out _ _ _) (λ _. Sure-pure tt)

pub Sure-send_all : (cs : List PendingCancellation) → Sure (send_all cs)
unfolding send_all
Sure-send_all [] = Sure-pure tt
Sure-send_all (c ∷ cs) = Sure-bind _ _ (Sure-ack c) (λ _. Sure-send_all cs)

pub Sure-settle_output :
    (f : FinishedAction) (trace : TraceContext) (cs : List PendingCancellation)
    → WellStored f.output
    → Sure (settle_output f trace cs)
Sure-settle_output f trace [] stored =
    let (u, e, _) = terminal_update-IsUpdateOf f.job_id f.output stored in
    Sure-bind _ _ (record { at = λ j. inl (u, e) })
      (λ v. Sure-bind _ _ (Sure-send_out _ _ _) (λ _. Sure-pure tt))
Sure-settle_output f trace (c ∷ cs) stored = Sure-send_all (c ∷ cs)
