-- ===== src/Session/Ordering.antt =====
-- The order of the plugin's messages through a whole session.
use rust_plugin_sdk.Prelude.{
  ℕ, string_eq, nat_eq, ◌≡◌, refl, subst, sym, false, Bool-cases, inl, inr, Option, none, some,
  List, [], ◌∷◌, ◌!=◌,
}
use rust_plugin_sdk.Prelude.Map.{lookup, remove}
use rust_plugin_sdk.Protocol.{trace_eq, TraceContext, Payload, StartJobRequest, CancelJobRequest}
use rust_plugin_sdk.Error.{Result, ok, err, panic, expect}
use rust_plugin_sdk.Exec.{Exec, ◌>>=◌, lift, gets, modify, proceed}
use rust_plugin_sdk.Validation.{UuidCrate}
use rust_plugin_sdk.Sender.{SessionSender, send_registered}
use rust_plugin_sdk.Sender.Order.{
  IsOrdered, send-IsOrdered, enqueue-IsOrdered, send_and_wait_for_consumption-IsOrdered,
}
use rust_plugin_sdk.Host.Client.{
  HostClient, Routing, PendingResponse, route, deliver, issue, routed, register, drop_guard,
}
use rust_plugin_sdk.Session.Jobs
use rust_plugin_sdk.Session.Jobs.{
  JobManager, FinishedAction, Task, PendingCancellation, start, cancel, reject, admit, settle,
  settle_output, leave, send_out, send_all, send_cancellation_acknowledgement, take_cancellations,
  join_next, join_from,
}
use rust_plugin_sdk.Session.Jobs.Starting.{Started, refused, rejected, admitted, start-Started}
use rust_plugin_sdk.Session.Jobs.Cancelling.{Cancelled, kept, answered, cancel-Cancelled}
use rust_plugin_sdk.Session.Serve.{route_answer, acknowledge_shutdown}

abbrev pub sender_of : JobManager → SessionSender
sender_of j = j.host.sender

-- An operation that keeps the order, whether it returns or fails.
module _ {A : Type 0} where
  pub record Orders (m : Exec JobManager A) : Type 0 where
    pub at : (j : JobManager) → IsOrdered (sender_of j) → IsOrdered (sender_of (m j).1)

  pub Orders-lift : (r : Result A) → Orders (lift r)
  Orders-lift r = record { at = λ j v. v }

  Orders-gets : (f : JobManager → A) → Orders (gets f)
  Orders-gets f = record { at = λ j v. v }

module _ {A B : Type 0} where
  Orders-proceed :
      (r : Result A) (f : A → Exec JobManager B) (j : JobManager)
      → ((a : A) → Orders (f a))
      → IsOrdered (sender_of j)
      → IsOrdered (sender_of (proceed r f j).1)
  Orders-proceed (ok a) f j h v = (h a).at j v
  Orders-proceed (err e) f j h v = v
  Orders-proceed (panic m) f j h v = v

  pub Orders-bind :
      (m : Exec JobManager A) (f : A → Exec JobManager B)
      → Orders m
      → ((a : A) → Orders (f a))
      → Orders (m >>= f)
  Orders-bind m f a b = record { at = λ j v. Orders-proceed (m j).0 f (m j).1 b (a.at j v) }

Orders-modify :
    (f : JobManager → JobManager)
    → ((j : JobManager) → sender_of (f j) ≡ sender_of j)
    → Orders (modify f)
Orders-modify f same = record { at = λ j v. subst IsOrdered (sym (same j)) v }

pub Orders-send_out :
    (reply_to : Option ℕ) (trace : TraceContext) (payload : Payload)
    → Orders (send_out reply_to trace payload)
Orders-send_out reply_to trace payload = record {
  at = λ j v. send-IsOrdered reply_to trace payload j.host.sender v;
}

Orders-ack : (c : PendingCancellation) → Orders (send_cancellation_acknowledgement c)
unfolding send_cancellation_acknowledgement
Orders-ack c = Orders-bind _ _ (Orders-send_out _ _ _) (λ _. Orders-lift (ok tt))

Orders-send_all : (cs : List PendingCancellation) → Orders (send_all cs)
unfolding send_all
Orders-send_all [] = Orders-lift (ok tt)
Orders-send_all (c ∷ cs) = Orders-bind _ _ (Orders-ack c) (λ _. Orders-send_all cs)

Orders-reject : (message_id : ℕ) (trace : TraceContext) → Orders (reject message_id trace)
unfolding reject
Orders-reject message_id trace = record {
  at = λ j. (Orders-bind _ _ (Orders-send_out _ _ _) (λ _. Orders-lift (ok tt))).at j;
}

Orders-admit : (task : Task) → Orders (admit task)
unfolding admit
Orders-admit task = Orders-bind _ _ (Orders-send_out _ _ _) λ _.
    Orders-bind _ _ (Orders-modify (Jobs.spawn task) λ j. refl)
      (λ _. Orders-modify (Jobs.activate task.job_id task.trace) λ j. refl)

pub Orders-start :
    (u : UuidCrate) (message_id : ℕ) (trace : TraceContext) (request : StartJobRequest)
    → Orders (start u message_id trace request)
Orders-start u message_id trace request = record {
  at = λ j v. branches j v (start-Started u message_id trace request j);
}
  where
    branches :
        (j : JobManager) {r : Result (Unit {0}) × JobManager}
        → IsOrdered (sender_of j)
        → Started u message_id trace request j r
        → IsOrdered (sender_of r.1)
    branches j v (refused e same) = rw same v
    branches j v (rejected full same) = rw same ((Orders-reject message_id trace).at j v)
    branches j v (admitted task valid call traced free room same) =
        rw same ((Orders-admit task).at j v)

pub Orders-cancel :
    (u : UuidCrate) (message_id : ℕ) (trace : TraceContext) (request : CancelJobRequest)
    → Orders (cancel u message_id trace request)
Orders-cancel u message_id trace request = record {
  at = λ j v. branches j v (cancel-Cancelled u message_id trace request j);
}
  where
    branches :
        (j : JobManager) {r : Result (Unit {0}) × JobManager}
        → IsOrdered (sender_of j)
        → Cancelled u message_id trace request j r
        → IsOrdered (sender_of r.1)
    branches j v (Cancelled.refused e why same) = rw same v
    branches j v (kept id job valid given found same) = rw same v
    branches j v (answered id valid given free same) = rw same ((Orders-ack _).at j v)

Orders-settle_output :
    (f : FinishedAction) (trace : TraceContext) (cs : List PendingCancellation)
    → Orders (settle_output f trace cs)
Orders-settle_output f trace [] =
    Orders-bind _ _ (Orders-lift _)
      λ u. Orders-bind _ _ (Orders-send_out _ _ _) (λ _. Orders-lift (ok tt))
Orders-settle_output f trace (c ∷ cs) = Orders-send_all (c ∷ cs)

Orders-leave : (f : FinishedAction) → Orders (leave f)
Orders-leave f = Orders-bind _ _ (Orders-gets (λ j. lookup f.job_id j.active)) λ left.
    Orders-bind _ _
      (Orders-lift (expect left "settled action remained active until its output was queued"))
      λ _. Orders-modify (λ j. record j { active = remove f.job_id j.active }) λ j. refl

pub Orders-settle : (f : FinishedAction) → Orders (settle f)
unfolding settle
Orders-settle f = Orders-bind _ _ (Orders-gets (λ j. lookup f.job_id j.active)) λ found.
    Orders-bind _ _ (Orders-lift (expect found "completed action belongs to an active job")) λ job.
      Orders-bind _ _ (Orders-modify (take_cancellations f.job_id job) λ j. refl) λ _.
        Orders-bind _ _ (Orders-settle_output f job.trace job.cancellations) (λ _. Orders-leave f)

pub Orders-shutdown : Orders Jobs.shutdown
unfolding Jobs.shutdown
Orders-shutdown = Orders-bind _ _ (Orders-gets _) λ pending.
    Orders-bind _ _
      (Orders-modify (λ j. record j { active = Jobs.shut_jobs j.active; tasks = []; ended = [] })
        λ j. refl)
      λ _.
        Orders-bind _ _ (Orders-send_all pending)
          λ _. Orders-modify (λ j. record j { active = [] }) λ j. refl

pub Orders-acknowledge_shutdown :
    (message_id : ℕ) (trace : TraceContext) → Orders (acknowledge_shutdown message_id trace)
Orders-acknowledge_shutdown message_id trace = record {
  at = λ j v.
      send_and_wait_for_consumption-IsOrdered (some message_id) trace Payload.shutdown_acknowledged
        j.host.sender v;
}

deliver-sender :
    (reply_to : ℕ) (trace : TraceContext) (payload : Payload) (o : Option PendingResponse)
    (h : HostClient)
    → (deliver reply_to trace payload o h).1.sender ≡ h.sender
deliver-sender reply_to trace payload none h = refl
deliver-sender reply_to trace payload (some waiter) h =
    elim (Bool-cases (waiter.expected_trace != trace)) [
      | inl foreign ↦ rw foreign refl
      | inr same ↦ rw same refl
    ]

pub Orders-route_answer :
    (reply_to : ℕ) (trace : TraceContext) (payload : Payload)
    → Orders (route_answer reply_to trace payload)
unfolding route
Orders-route_answer reply_to trace payload = record {
  at = λ j v.
      subst IsOrdered
        (sym
          (deliver-sender reply_to trace payload (lookup reply_to j.host.routing.pending) j.host))
        v;
}

routed-sender :
    (h : HostClient) (r : Result (ℕ × ℕ)) (s : SessionSender) (t : Routing)
    → (routed h (r, (s, t))).1.sender ≡ s
routed-sender h (ok x) s t = refl
routed-sender h (err e) s t = refl
routed-sender h (panic m) s t = refl

pub issue-IsOrdered :
    (trace : TraceContext) (payload : Payload) (h : HostClient)
    → IsOrdered h.sender
    → IsOrdered (issue trace payload h).1.sender
unfolding issue send_registered
issue-IsOrdered trace payload h v =
    subst IsOrdered (sym (routed-sender h _ _ _))
      (enqueue-IsOrdered (register trace) drop_guard none trace payload false h.sender h.routing v)
