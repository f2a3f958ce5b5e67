-- ===== src/Session/Safety.antt =====
-- No run of the session panics, and every run keeps the job manager consistent.
use rust_plugin_sdk.Prelude.{
  ℕ, ◌≤◌, String, ◌≡◌, refl, sym, ap, subst, inl, inr, true, Option, none, some, List, [], ◌∷◌,
  arith, All, Bool-cases, count, string_eq, nat_eq,
}
use rust_plugin_sdk.Protocol.{trace_eq, TraceContext, Timestamp}
use rust_plugin_sdk.Error.{Result, ok}
use rust_plugin_sdk.Exec.{Exec}
use rust_plugin_sdk.Prelude.Int.{int_eq}
use rust_plugin_sdk.Validation.{UuidCrate}
use rust_plugin_sdk.Plugin.{Output, RegisteredAction}
use rust_plugin_sdk.Host.Client.{HostClient}
use rust_plugin_sdk.Session.Jobs.{
  JobManager, FinishedAction, Task, new_manager, has_active_jobs, settle, join_next,
}
use rust_plugin_sdk.Session.Jobs.Frames.{Checks}
use rust_plugin_sdk.Session.Jobs.Updates.{WellStored}
use rust_plugin_sdk.Session.Jobs.Cancelling.{end_task-IsConsistent}
use rust_plugin_sdk.Session.Jobs.Consistency.{IsConsistent, task_ids}
use rust_plugin_sdk.Session.Jobs.Reached.{settle-IsConsistent}
use rust_plugin_sdk.Session.Serve.{Incoming, Serving, Event, handle, step, serve}
use rust_plugin_sdk.Session.Envelope.{SessionState, validate_envelope, verdict}
use rust_plugin_sdk.Session.Serve.{join_branch, end_running, runs, on_session, resume}
use rust_plugin_sdk.Session.Steady.{Safe, returns, fails, Safe-bind, Steady, hosted}
use rust_plugin_sdk.Session.Dispatching.{Steady-handle_payload}
use rust_plugin_sdk.Session.Jobs.Reached.{joins_safely, join_next_ok, new_manager-IsConsistent}
use rust_plugin_sdk.Session.Envelope.{Verdict}

abbrev pub IsServing : Serving → Type 0
IsServing s = IsConsistent s.jobs

-- What is known of the end of a task: its artifacts were stored.
abbrev pub IsPossible : Event → Type 0
IsPossible (Event.ends id output) = WellStored output
IsPossible _ = Unit

-- A job manager's operation as one of the loop's.
lifted :
    {A : Type 0} (session : SessionState) (r : Result A × JobManager)
    → Safe IsConsistent r
    → Safe IsServing (r.0, record { jobs = r.1; session = session })
lifted session r (returns a j e v) =
    returns a (record { jobs = j; session = session })
      (ap (λ x. (x.0, record { jobs = x.1; session = session })) e) v
lifted session r (fails x j e) =
    fails x (record { jobs = j; session = session })
      (ap (λ y. (y.0, record { jobs = y.1; session = session })) e)

judged :
    (s : Serving) (r : Result TraceContext × SessionState)
    → Verdict s.session r
    → IsServing s
    → Safe IsServing (r.0, record s { session = r.1 })
judged s r (inl (t, e)) v =
    returns t (record s { session = r.1 }) (ap (λ x. (x, record s { session = r.1 })) e) v
judged s r (inr (x, e)) v = fails x s (ap (λ y. (y.0, record s { session = y.1 })) e)

handle-Safe :
    (u : UuidCrate) (incoming : Incoming) (s : Serving)
    → IsServing s
    → Safe IsServing (handle u incoming s)
unfolding handle
handle-Safe u Incoming.closed s v = fails _ s refl
handle-Safe u (Incoming.broken error) s v = fails _ s refl
handle-Safe u (Incoming.received envelope) s v =
    Safe-bind IsServing (on_session (validate_envelope envelope)) _ s
      (judged s (validate_envelope envelope s.session) (verdict envelope s.session) v)
      λ trace t w.
        lifted t.session _ (Steady-handle_payload u envelope trace envelope.reply_to t.jobs w)

settled-Safe :
    (f : FinishedAction) (j k : JobManager)
    → IsConsistent j
    → join_next j ≡ some (ok f, k)
    → Checks (settle f k).0
    → Safe IsConsistent (settle f k)
settled-Safe f j k v e (inl (a, done)) =
    let whole : settle f k ≡ (ok a, (settle f k).1) = ap (λ x. (x, (settle f k).1)) done in
    returns a (settle f k).1 whole
      (settle-IsConsistent f k _ (subst IsConsistent (sym (join_next_ok j k f e)) v) whole)
settled-Safe f j k v e (inr (x, failed)) =
    fails x (settle f k).1 (ap (λ y. (y, (settle f k).1)) failed)

join_branch-Steady : Steady join_branch
join_branch-Steady j v = elim (Bool-cases (has_active_jobs j)) [
  | inr idle ↦ rw idle (returns none j refl v)
  | inl busy ↦ rw busy (elim (joins_safely j v busy) [
    | inl waits ↦ rw waits (returns none j refl v)
    | inr (f, k, e, c) ↦ rw e (
        Safe-bind IsConsistent (settle f) _ k (settled-Safe f j k v e c)
          (λ a t w. returns none t refl w))
  ])
]

pub runs-count :
    (id : String) (tasks : List Task) → runs id tasks ≡ true → 1 ≤ count id (task_ids tasks)
runs-count id [] h = ground arith
runs-count id (t ∷ ts) h = ground (arith, runs-count id ts)

end_running-IsConsistent :
    (id : String) (output : Output) (j : JobManager)
    → WellStored output
    → IsConsistent j
    → IsConsistent (end_running id output j)
end_running-IsConsistent id output j stored v = elim (Bool-cases (runs id j.tasks)) [
  | inl live ↦ rw live (end_task-IsConsistent id output j (runs-count id j.tasks live) stored v)
  | inr gone ↦ rw gone v
]

step-Safe :
    (u : UuidCrate) (e : Event) (s : Serving)
    → IsPossible e
    → IsServing s
    → Safe IsServing (step u e s)
unfolding step
step-Safe u Event.joins s p v = lifted s.session _ (join_branch-Steady s.jobs v)
step-Safe u (Event.takes incoming) s p v = handle-Safe u incoming s v
step-Safe u (Event.ends id output) s p v =
    returns none _ refl (end_running-IsConsistent id output s.jobs p v)
step-Safe u (Event.requests trace payload) s p v = returns none _ refl (hosted s.jobs _ v)
step-Safe u (Event.says trace payload) s p v = returns none _ refl (hosted s.jobs _ v)
step-Safe u (Event.drops_request trace) s p v = returns none _ refl (hosted s.jobs _ v)
step-Safe u Event.drops_message s p v = returns none _ refl (hosted s.jobs _ v)

resume-Safe :
    (rest : Exec Serving (Option Timestamp))
    → ((t : Serving) → IsServing t → Safe IsServing (rest t))
    → (o : Option Timestamp) (t : Serving) → IsServing t
    → Safe IsServing (resume rest o t)
resume-Safe rest h none t w = h t w
resume-Safe rest h (some deadline) t w = returns (some deadline) t refl w

serve-Safe :
    (u : UuidCrate) (events : List Event) (s : Serving)
    → All IsPossible events
    → IsServing s
    → Safe IsServing (serve u events s)
unfolding serve
serve-Safe u [] s p v = returns none s refl v
serve-Safe u (e ∷ es) s p v =
    Safe-bind IsServing (step u e) _ s (step-Safe u e s p.0 v)
      (resume-Safe (serve u es) λ t w. serve-Safe u es t p.1 w)

-- Whatever messages, ends of tasks, requests and settlements follow each other in a session, as long
-- as the artifacts that actions return have IDs, the loop of `serve` never panics: it goes on,
-- returns the deadline of a shutdown, or ends in an error; unless it fails, the job manager is
-- consistent at its end.
pub serve_never_panics :
    (u : UuidCrate) (actions : List (String × RegisteredAction)) (maximum : ℕ) (host : HostClient)
    (session : SessionState) (events : List Event)
    → All IsPossible events
    → Safe IsServing
        (serve u events (record { jobs = new_manager actions maximum host; session = session }))
serve_never_panics u actions maximum host session events p =
    serve-Safe u events _ p (new_manager-IsConsistent u actions maximum host)
