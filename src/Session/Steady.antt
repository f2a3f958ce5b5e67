-- ===== src/Session/Steady.antt =====
-- What each operation does to a consistent job manager: it returns in such a state, or ends in an error.
use rust_plugin_sdk.Prelude.{
  ℕ, ◌≡◌, refl, ap, inl, inr, true, Option, none, some, [], arith, Bool-cases, string_eq, ◌==◌,
  ◌!=◌, nat_eq,
}
use rust_plugin_sdk.Protocol.{trace_eq, TraceContext, Payload, StartJobRequest, CancelJobRequest}
use rust_plugin_sdk.Error.{SdkError, Result, ok, err, panic}
use rust_plugin_sdk.Exec.{Exec, ◌>>=◌, gets, modify}
use rust_plugin_sdk.Validation.{UuidCrate}
use rust_plugin_sdk.Sender.{
  u64_max, message_id_of, no_register, keep, enqueue, await_consumption, SessionSender,
  send_and_wait_for_consumption,
}
use rust_plugin_sdk.Host.Client.{HostClient, PendingResponse, route, deliver}
use rust_plugin_sdk.Session.Jobs
use rust_plugin_sdk.Session.Jobs.{
  JobManager, FinishedAction, Task, ActiveJob, new_manager, has_active_jobs, start, cancel, reject,
  admit, settle, join_next, send_out, send_cancellation_acknowledgement, spawn, activate, shut_jobs,
}
use rust_plugin_sdk.Session.Jobs.Frames.{Checks}
use rust_plugin_sdk.Session.Jobs.Sure.{
  Sure, Sure-pure, Sure-bind, Sure-send_out, Sure-ack, Sure-send_all,
}
use rust_plugin_sdk.Session.Jobs.Starting.{Started, refused, rejected, admitted, start-Started}
use rust_plugin_sdk.Session.Jobs.Cancelling.{
  Cancelled, kept, answered, cancel-Cancelled, cancel-IsConsistent,
}
use rust_plugin_sdk.Session.Jobs.Consistency.{IsConsistent, start-IsConsistent}
use rust_plugin_sdk.Session.Jobs.Closings.{shutdown_closes}
use rust_plugin_sdk.Session.Serve.{route_answer, acknowledge_shutdown}

-- A run that returns in a state with `P`, or ends in an error.
module _ {S : Type 0} (P : S → Type 0) {A : Type 0} where
  pub data Safe (r : Result A × S) : Type 0 where
    returns : (a : A) (s : S) → r ≡ (ok a, s) → P s → Safe r
    fails : (e : SdkError) (s : S) → r ≡ (err e, s) → Safe r

  pub Safe-Checks : (r : Result A) (s : S) → Checks r → P s → Safe (r, s)
  Safe-Checks r s (inl (a, e)) p = returns a s (ap (λ x. (x, s)) e) p
  Safe-Checks r s (inr (x, e)) p = fails x s (ap (λ y. (y, s)) e)

module _ {S : Type 0} (P : S → Type 0) {A B : Type 0} where
  pub Safe-bind :
      (m : Exec S A) (f : A → Exec S B) (s : S)
      → Safe P (m s)
      → ((a : A) (t : S) → P t → Safe P (f a t))
      → Safe P ((m >>= f) s)
  Safe-bind m f s (returns a t e p) next = rw e (next a t p)
  Safe-bind m f s (fails x t e) next = rw e (fails x t refl)

abbrev pub Steady : {A : Type 0} → Exec JobManager A → Type 0
Steady m = (j : JobManager) → IsConsistent j → Safe IsConsistent (m j)

Sure-modify : (f : JobManager → JobManager) → Sure (modify f)
Sure-modify f = record { at = λ j. inl (tt, refl) }

Sure-gets : {A : Type 0} (f : JobManager → A) → Sure (gets f)
Sure-gets f = record { at = λ j. inl (f j, refl) }

Sure-reject : (message_id : ℕ) (trace : TraceContext) → Sure (reject message_id trace)
unfolding reject
Sure-reject message_id trace = record {
  at = λ j. (Sure-bind _ _ (Sure-send_out _ _ _) (λ _. Sure-pure tt)).at j;
}

Sure-admit : (task : Task) → Sure (admit task)
unfolding admit
Sure-admit task = Sure-bind _ _ (Sure-send_out _ _ _) (λ _.
    Sure-bind _ _ (Sure-modify (spawn task)) (λ _. Sure-modify (activate task.job_id task.trace)))

Sure-start :
    (u : UuidCrate) (message_id : ℕ) (trace : TraceContext) (request : StartJobRequest)
    → Sure (start u message_id trace request)
Sure-start u message_id trace request = record {
  at = λ j. branches j (start-Started u message_id trace request j);
}
  where
    branches :
        (j : JobManager) {r : Result (Unit {0}) × JobManager}
        → Started u message_id trace request j r
        → Checks r.0
    branches j (refused e same) = rw same (inr (e, refl))
    branches j (rejected full same) = rw same ((Sure-reject message_id trace).at j)
    branches j (admitted task valid call traced free room same) = rw same ((Sure-admit task).at j)

Sure-cancel :
    (u : UuidCrate) (message_id : ℕ) (trace : TraceContext) (request : CancelJobRequest)
    → Sure (cancel u message_id trace request)
Sure-cancel u message_id trace request = record {
  at = λ j. branches j (cancel-Cancelled u message_id trace request j);
}
  where
    branches :
        (j : JobManager) {r : Result (Unit {0}) × JobManager}
        → Cancelled u message_id trace request j r
        → Checks r.0
    branches j (Cancelled.refused e why same) = rw same (inr (e, refl))
    branches j (kept id job valid given found same) = rw same (inl (tt, refl))
    branches j (answered id valid given free same) = rw same ((Sure-ack _).at j)

Sure-shutdown : Sure Jobs.shutdown
unfolding Jobs.shutdown
Sure-shutdown = Sure-bind _ _ (Sure-gets _) λ pending.
    Sure-bind _ _
      (Sure-modify (λ j. record j { active = shut_jobs j.active; tasks = []; ended = [] }))
      λ _. Sure-bind _ _ (Sure-send_all pending) (λ _. Sure-modify (λ j. record j { active = [] }))

pub Steady-start :
    (u : UuidCrate) (message_id : ℕ) (trace : TraceContext) (request : StartJobRequest)
    → Steady (start u message_id trace request)
Steady-start u message_id trace request j v =
    Safe-Checks IsConsistent _ _ ((Sure-start u message_id trace request).at j)
      (start-IsConsistent u message_id trace request j v)

pub Steady-cancel :
    (u : UuidCrate) (message_id : ℕ) (trace : TraceContext) (request : CancelJobRequest)
    → Steady (cancel u message_id trace request)
Steady-cancel u message_id trace request j v =
    Safe-Checks IsConsistent _ _ ((Sure-cancel u message_id trace request).at j)
      (cancel-IsConsistent u message_id trace request j v)

empty-IsConsistent : (j : JobManager) → j.active ≡ [] → j.tasks ≡ [] → j.ended ≡ [] → IsConsistent j
empty-IsConsistent j a t e = record {
  balanced = λ id. rw (a, t, e) refl;
  once = λ id. rw a (omega arith);
  bounded = rw a (omega arith);
  stored = rw e tt;
}

pub Steady-shutdown : Steady Jobs.shutdown
Steady-shutdown j v = elim (Sure-shutdown.at j) [
  | inl (done, e) ↦
      let (told, active, tasks, ended) = shutdown_closes j e in
      returns tt (Jobs.shutdown j).1 (ap (λ x. (x, (Jobs.shutdown j).1)) e)
        (empty-IsConsistent _ active tasks ended)
  | inr (x, e) ↦ fails x (Jobs.shutdown j).1 (ap (λ y. (y, (Jobs.shutdown j).1)) e)
]

pub hosted :
    (j : JobManager) (h : HostClient) → IsConsistent j → IsConsistent (record j { host = h })
hosted j h v = record {
  balanced = v.balanced;
  once = v.once;
  bounded = v.bounded;
  stored = v.stored;
}

pub Steady-send_out :
    (reply_to : Option ℕ) (trace : TraceContext) (payload : Payload)
    → Steady (send_out reply_to trace payload)
Steady-send_out reply_to trace payload j v =
    Safe-Checks IsConsistent _ _ ((Sure-send_out reply_to trace payload).at j) (hosted j _ v)

await-Checks : (r : Result ℕ) (s : SessionSender) → Checks r → Checks (await_consumption r s).0
await-Checks (err e) s c = inr (e, refl)
await-Checks (panic m) s c = c
await-Checks (ok id) s c = elim (Bool-cases (s.wire.consumes s.wire.sent)) [
  | inl yes' ↦ rw yes' (inl (id, refl))
  | inr no' ↦ rw no' (inr (_, refl))
]

enqueued-Checks :
    (reply_to : Option ℕ) (trace : TraceContext) (payload : Payload) (s : SessionSender)
    → Checks (message_id_of (enqueue no_register keep reply_to trace payload true (s, tt)).0)
unfolding enqueue
enqueued-Checks reply_to trace payload s = elim (Bool-cases (s.next_message_id == u64_max)) [
  | inl full ↦ rw full (inr (_, refl))
  | inr room ↦ elim (Bool-cases (s.wire.accepts s.wire.sent)) [
    | inl opened ↦ rw (room, opened) (inl (_, refl))
    | inr closed ↦ rw (room, closed) (inr (_, refl))
  ]
]

waited-Checks :
    (reply_to : Option ℕ) (trace : TraceContext) (payload : Payload) (s : SessionSender)
    → Checks (send_and_wait_for_consumption reply_to trace payload s).0
unfolding send_and_wait_for_consumption
waited-Checks reply_to trace payload s = await-Checks _ _ (enqueued-Checks reply_to trace payload s)

pub Steady-acknowledge_shutdown :
    (message_id : ℕ) (trace : TraceContext) → Steady (acknowledge_shutdown message_id trace)
Steady-acknowledge_shutdown message_id trace j v =
    Safe-Checks IsConsistent _ _
      (waited-Checks (some message_id) trace Payload.shutdown_acknowledged j.host.sender)
      (hosted j _ v)

deliver-Checks :
    (reply_to : ℕ) (trace : TraceContext) (payload : Payload) (o : Option PendingResponse)
    (h : HostClient)
    → Checks (deliver reply_to trace payload o h).0
deliver-Checks reply_to trace payload none h = inr (_, refl)
deliver-Checks reply_to trace payload (some waiter) h =
    elim (Bool-cases (waiter.expected_trace != trace)) [
      | inl foreign ↦ rw foreign (inr (_, refl))
      | inr same ↦ rw same (inl (tt, refl))
    ]

pub Steady-route_answer :
    (reply_to : ℕ) (trace : TraceContext) (payload : Payload)
    → Steady (route_answer reply_to trace payload)
unfolding route
Steady-route_answer reply_to trace payload j v =
    Safe-Checks IsConsistent _ _ (deliver-Checks reply_to trace payload _ j.host) (hosted j _ v)
