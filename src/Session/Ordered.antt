-- ===== src/Session/Ordered.antt =====
-- The order of all that the plugin sends, through every run of the session.
use rust_plugin_sdk.Prelude.{
  String, ℕ, string_eq, nat_eq, ◌≡◌, refl, subst, sym, Bool-cases, inl, inr, Option, none, some,
  List, [], ◌∷◌,
}
use rust_plugin_sdk.Protocol.{trace_eq, TraceContext, Payload, PluginEnvelope, Timestamp}
use rust_plugin_sdk.Error.{SdkError, Result, ok, err, panic}
use rust_plugin_sdk.Exec.{Exec, pure, proceed}
use rust_plugin_sdk.Validation
use rust_plugin_sdk.Validation.{UuidCrate}
use rust_plugin_sdk.Sender.{no_register, keep}
use rust_plugin_sdk.Sender.Order.{IsOrdered, abandon-IsOrdered}
use rust_plugin_sdk.Host.Client.{register, drop_guard}
use rust_plugin_sdk.Session.Jobs.{JobManager, FinishedAction, Task, settle, join_next, join_from}
use rust_plugin_sdk.Session.Serve.{
  Incoming, Serving, Event, respond, dispatch, handle, handle_payload, step, serve, join_branch,
  join_ready, settle_joined, resume, runs,
}
use rust_plugin_sdk.Session.Envelope.{validate_envelope}
use rust_plugin_sdk.Plugin.{Output}
use rust_plugin_sdk.Session.Jobs.{end_task, has_active_jobs}
use rust_plugin_sdk.Session.Serve.{end_running, check_answer}
use rust_plugin_sdk.Session.Ordering.{
  sender_of, Orders, Orders-lift, Orders-bind, Orders-send_out, Orders-start, Orders-cancel,
  Orders-settle, Orders-shutdown, Orders-acknowledge_shutdown, Orders-route_answer, issue-IsOrdered,
}

Orders-respond :
    (reply_to : ℕ) (trace : TraceContext) (o : Option Payload) → Orders (respond reply_to trace o)
unfolding respond
Orders-respond reply_to trace none = Orders-lift _
Orders-respond reply_to trace (some payload) =
    Orders-bind _ _ (Orders-lift (check_answer payload))
      λ _. Orders-bind _ _ (Orders-route_answer reply_to trace payload) (λ _. Orders-lift (ok none))

Orders-dispatch :
    (u : UuidCrate) (message_id : ℕ) (trace : TraceContext) (o : Option Payload)
    → Orders (dispatch u message_id trace o)
unfolding dispatch
Orders-dispatch u message_id trace none = Orders-lift _
Orders-dispatch u message_id trace (some (Payload.host_hello h)) = Orders-lift _
Orders-dispatch u message_id trace (some (Payload.plugin_hello h)) = Orders-lift _
Orders-dispatch u message_id trace (some Payload.ready) = Orders-lift _
Orders-dispatch u message_id trace (some Payload.shutdown_acknowledged) = Orders-lift _
Orders-dispatch u message_id trace (some (Payload.start_job r)) =
    Orders-bind _ _ (Orders-start u message_id trace r) (λ _. Orders-lift (ok none))
Orders-dispatch u message_id trace (some (Payload.job_accepted i)) = Orders-lift _
Orders-dispatch u message_id trace (some (Payload.cancel_job_acknowledged i)) = Orders-lift _
Orders-dispatch u message_id trace (some (Payload.job_update x)) = Orders-lift _
Orders-dispatch u message_id trace (some (Payload.host_call c)) = Orders-lift _
Orders-dispatch u message_id trace (some (Payload.host_result c)) = Orders-lift _
Orders-dispatch u message_id trace (some (Payload.log l)) = Orders-lift _
Orders-dispatch u message_id trace (some (Payload.heartbeat n)) =
    Orders-bind _ _ (Orders-send_out (some message_id) trace (Payload.heartbeat n))
      (λ _. Orders-lift (ok none))
Orders-dispatch u message_id trace (some (Payload.shutdown r)) =
    Orders-bind _ _ (Orders-lift _) λ deadline. Orders-bind _ _ Orders-shutdown λ _.
      Orders-bind _ _ (Orders-acknowledge_shutdown message_id trace)
        (λ _. Orders-lift (ok (some deadline)))
Orders-dispatch u message_id trace (some (Payload.protocol_error e)) =
    Orders-bind _ _ (Orders-lift (Validation.protocol_error e))
      (λ _. Orders-lift (err (SdkError.host e)))
Orders-dispatch u message_id trace (some (Payload.artifact_start a)) = Orders-lift _
Orders-dispatch u message_id trace (some (Payload.artifact_accepted a)) = Orders-lift _
Orders-dispatch u message_id trace (some (Payload.artifact_complete a)) = Orders-lift _
Orders-dispatch u message_id trace (some (Payload.artifact_stored a)) = Orders-lift _
Orders-dispatch u message_id trace (some (Payload.artifact_chunk a)) = Orders-lift _
Orders-dispatch u message_id trace (some (Payload.cancel_job r)) =
    Orders-bind _ _ (Orders-cancel u message_id trace r) (λ _. Orders-lift (ok none))

Orders-handle_payload :
    (u : UuidCrate) (envelope : PluginEnvelope) (trace : TraceContext) (o : Option ℕ)
    → Orders (handle_payload u envelope trace o)
Orders-handle_payload u envelope trace (some reply_to) =
    Orders-respond reply_to trace envelope.payload
Orders-handle_payload u envelope trace none =
    Orders-dispatch u envelope.message_id trace envelope.payload

abbrev pub IsOrderly : Serving → Type 0
IsOrderly s = IsOrdered (sender_of s.jobs)

-- What follows a part that keeps the order.
proceed-IsOrderly :
    {A B : Type 0} (r : Result A) (f : A → Exec Serving B) (s : Serving)
    → ((a : A) (t : Serving) → IsOrderly t → IsOrderly (f a t).1)
    → IsOrderly s
    → IsOrderly (proceed r f s).1
proceed-IsOrderly (ok a) f s h v = h a s v
proceed-IsOrderly (err e) f s h v = v
proceed-IsOrderly (panic m) f s h v = v

handle-IsOrderly :
    (u : UuidCrate) (incoming : Incoming) (s : Serving)
    → IsOrderly s
    → IsOrderly (handle u incoming s).1
unfolding handle
handle-IsOrderly u Incoming.closed s v = v
handle-IsOrderly u (Incoming.broken error) s v = v
handle-IsOrderly u (Incoming.received envelope) s v =
    proceed-IsOrderly (validate_envelope envelope s.session).0 _ _
      (λ trace t w. (Orders-handle_payload u envelope trace envelope.reply_to).at t.jobs w) v

Orders-joined : (r : Result FinishedAction) → Orders (settle_joined r)
Orders-joined (ok f) = record {
  at = λ j v.
      (Orders-bind (settle f) (λ _. pure none) (Orders-settle f) (λ _. Orders-lift (ok none))).at j
        v;
}
Orders-joined (err e) = record { at = λ j v. v }
Orders-joined (panic m) = record { at = λ j v. v }

ready-IsOrdered :
    (fs : List FinishedAction) (ts : List Task) (j : JobManager)
    → IsOrdered (sender_of j)
    → IsOrdered (sender_of (join_ready (join_from fs ts j) j).1)
ready-IsOrdered (f ∷ fs) ts j v = (Orders-joined (ok f)).at (record j { ended = fs }) v
ready-IsOrdered [] (t ∷ ts) j v = v
ready-IsOrdered [] [] j v = v

branch-IsOrdered :
    (j : JobManager) → IsOrdered (sender_of j) → IsOrdered (sender_of (join_branch j).1)
unfolding join_next
branch-IsOrdered j v = elim (Bool-cases (has_active_jobs j)) [
  | inl busy ↦ rw busy (ready-IsOrdered j.ended j.tasks j v)
  | inr idle ↦ rw idle v
]

end_running-sender :
    (id : String) (output : Output) (j : JobManager)
    → sender_of (end_running id output j) ≡ sender_of j
unfolding end_task
end_running-sender id output j = elim (Bool-cases (runs id j.tasks)) [
  | inl live ↦ rw live refl
  | inr gone ↦ rw gone refl
]

step-IsOrderly : (u : UuidCrate) (e : Event) (s : Serving) → IsOrderly s → IsOrderly (step u e s).1
unfolding step
step-IsOrderly u Event.joins s v = branch-IsOrdered s.jobs v
step-IsOrderly u (Event.takes incoming) s v = handle-IsOrderly u incoming s v
step-IsOrderly u (Event.ends id output) s v =
    subst IsOrdered (sym (end_running-sender id output s.jobs)) v
step-IsOrderly u (Event.requests trace payload) s v = issue-IsOrdered trace payload s.jobs.host v
step-IsOrderly u (Event.says trace payload) s v = (Orders-send_out none trace payload).at s.jobs v
step-IsOrderly u (Event.drops_request trace) s v =
    abandon-IsOrdered (register trace) drop_guard s.jobs.host.sender s.jobs.host.routing v
step-IsOrderly u Event.drops_message s v =
    abandon-IsOrdered no_register keep s.jobs.host.sender tt v

resume-IsOrderly :
    (rest : Exec Serving (Option Timestamp))
    → ((t : Serving) → IsOrderly t → IsOrderly (rest t).1)
    → (o : Option Timestamp) (t : Serving) → IsOrderly t
    → IsOrderly (resume rest o t).1
resume-IsOrderly rest h none t w = h t w
resume-IsOrderly rest h (some deadline) t w = w

-- From a sender whose messages are in order, whatever happens in a session, on success and on
-- failure, all that the plugin has sent is numbered by strictly increasing nonzero IDs that fit 64
-- bits, under the session's own identity.
pub serve_keeps_order :
    (u : UuidCrate) (events : List Event) (s : Serving)
    → IsOrdered s.jobs.host.sender
    → IsOrdered (serve u events s).1.jobs.host.sender
unfolding serve
serve_keeps_order u [] s v = v
serve_keeps_order u (e ∷ es) s v =
    proceed-IsOrderly (step u e s).0 (resume (serve u es)) (step u e s).1
      (resume-IsOrderly (serve u es) λ t w. serve_keeps_order u es t w) (step-IsOrderly u e s v)
