-- ===== src/Session/Ending.antt =====
-- How the loop of `serve` comes to its end.
use rust_plugin_sdk.Prelude.{
  ℕ, ◌≡◌, refl, sym, ap, subst, ◌∙◌, inl, inr, Option, none, some, List, [], ◌∷◌, ◌++◌, arith,
  Bool-cases,
}
use rust_plugin_sdk.Protocol.{TraceContext, Payload, PluginEnvelope, ShutdownRequest, Timestamp}
use rust_plugin_sdk.Error.{Result, ok, err, panic}
use rust_plugin_sdk.Exec.{proceed, proceed-ok}
use rust_plugin_sdk.Validation
use rust_plugin_sdk.Validation.{UuidCrate}
use rust_plugin_sdk.Session.Jobs.{JobManager, FinishedAction, settle, join_next, has_active_jobs}
use rust_plugin_sdk.Session.Envelope.{validate_envelope}
use rust_plugin_sdk.Session.Serve.{
  Incoming, Serving, Event, respond, check_answer, route_answer, handle_payload, handle, join_ready,
  join_branch, step, resume, serve, on_session,
}
use rust_plugin_sdk.Session.Farewell.{IsClosed, goes_on, ends_with_shutdown}

-- A turn that gives the deadline: it takes a shutdown request, and leaves no job.
pub record ShutsDown (e : Event) (d : Timestamp) (s t : Serving) : Type 0 where
  pub envelope : PluginEnvelope
  pub trace : TraceContext
  pub request : ShutdownRequest
  pub taken : e ≡ Event.takes (Incoming.received envelope)
  pub asked : envelope.payload ≡ some (Payload.shutdown request)
  pub unprompted : envelope.reply_to ≡ none
  pub valid : Validation.shutdown request ≡ ok d
  pub closed : IsClosed envelope.message_id trace s.jobs t.jobs

no_deadline :
    (r : Option (Result FinishedAction × JobManager)) (j : JobManager) (d : Timestamp)
    → ¬ ((join_ready r j).0 ≡ ok (some d))
no_deadline none j d h = ground (arith, h)
no_deadline (some (ok f, k)) j d h = goes_on (settle f k).0 (settle f k).1 d h
no_deadline (some (err e, k)) j d h = ground (arith, h)
no_deadline (some (panic m, k)) j d h = ground (arith, h)

joining_goes_on : (j : JobManager) (d : Timestamp) → ¬ ((join_branch j).0 ≡ ok (some d))
joining_goes_on j d h = elim (Bool-cases (has_active_jobs j)) [
  | inl busy ↦ no_deadline (join_next j) j d (ground (arith, h, busy))
  | inr idle ↦ ground (arith, h, idle)
]

replying_goes_on :
    (reply_to : ℕ) (trace : TraceContext) (o : Option Payload) (j : JobManager) (d : Timestamp)
    → ¬ ((respond reply_to trace o j).0 ≡ ok (some d))
unfolding respond
replying_goes_on reply_to trace none j d h = ground (arith, h)
replying_goes_on reply_to trace (some payload) j d h =
    let (_, fine, e) = proceed-ok (check_answer payload) _ j h in
    let routed = route_answer reply_to trace payload j in
    goes_on routed.0 routed.1 d (sym (ap (λ r. r.0) e) ∙ h)

payload_ends :
    (u : UuidCrate) (envelope : PluginEnvelope) (trace : TraceContext) (o : Option ℕ)
    (s : JobManager) (d : Timestamp)
    → envelope.reply_to ≡ o
    → (handle_payload u envelope trace o s).0 ≡ ok (some d)
    → (envelope.reply_to ≡ none)
      × ((request : ShutdownRequest) × (envelope.payload ≡ some (Payload.shutdown request))
          × (Validation.shutdown request ≡ ok d)
          × IsClosed envelope.message_id trace s (handle_payload u envelope trace o s).1)
payload_ends u envelope trace (some reply_to) s d e h =
    absurd (replying_goes_on reply_to trace envelope.payload s d h)
payload_ends u envelope trace none s d e h =
    (e, ends_with_shutdown u envelope.message_id trace envelope.payload s d h)

step_ends :
    (u : UuidCrate) (e : Event) (s : Serving) (d : Timestamp)
    → (step u e s).0 ≡ ok (some d)
    → ShutsDown e d s (step u e s).1
unfolding step handle
step_ends u Event.joins s d h = absurd (joining_goes_on s.jobs d h)
step_ends u (Event.takes Incoming.closed) s d h = ground (arith, h)
step_ends u (Event.takes (Incoming.broken error)) s d h = ground (arith, h)
step_ends u (Event.takes (Incoming.received envelope)) s d h =
    let judged = on_session (validate_envelope envelope) s in
    let (trace, passed, e) = proceed-ok judged.0 _ judged.1 h in
    let (unprompted, (request, asked, valid, closed)) =
      payload_ends u envelope trace envelope.reply_to s.jobs d refl (sym (ap (λ r. r.0) e) ∙ h) in
    record {
      envelope = envelope;
      trace = trace;
      request = request;
      taken = refl;
      asked = asked;
      unprompted = unprompted;
      valid = valid;
      closed =
          subst
            (λ (r : Result (Option Timestamp) × Serving).
              IsClosed envelope.message_id trace s.jobs r.1.jobs)
            (sym e) closed;
    }
step_ends u (Event.ends id output) s d h = ground (arith, h)
step_ends u (Event.requests trace payload) s d h = ground (arith, h)
step_ends u (Event.says trace payload) s d h = ground (arith, h)
step_ends u (Event.drops_request trace) s d h = ground (arith, h)
step_ends u Event.drops_message s d h = ground (arith, h)

-- The run up to its last turn, and that turn.
pub record EndsBy (u : UuidCrate) (events : List Event) (d : Timestamp) (s t : Serving)
    : Type 0 where
  pub before : List Event
  pub last : Event
  pub after : List Event
  pub middle : Serving
  pub split : events ≡ before ++ last ∷ after
  pub went_on : serve u before s ≡ (ok none, middle)
  pub ended : ShutsDown last d middle t

resumed :
    (u : UuidCrate) (e : Event) (es : List Event) (s t : Serving) (d : Timestamp)
    → step u e s ≡ (ok none, t)
    → EndsBy u es d t (serve u es t).1
    → EndsBy u (e ∷ es) d s (serve u (e ∷ es) s).1
unfolding serve
resumed u e es s t d on v = record {
  before = e ∷ v.before;
  last = v.last;
  after = v.after;
  middle = v.middle;
  split = ap (◌∷◌ e) v.split;
  went_on = rw on v.went_on;
  ended = rw on v.ended;
}

turned :
    (u : UuidCrate) (e : Event) (es : List Event) (s : Serving) (d : Timestamp)
    (r : Result (Option Timestamp) × Serving)
    → step u e s ≡ r
    → ((t : Serving) → (serve u es t).0 ≡ ok (some d) → EndsBy u es d t (serve u es t).1)
    → (proceed r.0 (resume (serve u es)) r.1).0 ≡ ok (some d)
    → EndsBy u (e ∷ es) d s (serve u (e ∷ es) s).1
unfolding serve
turned u e es s d (ok none, t) now later h = resumed u e es s t d now (later t h)
turned u e es s d (ok (some x), t) now later h =
    let same : x ≡ d = ground (arith, h) in
    let last = step_ends u e s d (ap (λ r. r.0) now ∙ ap (λ y. ok (some y)) same) in
    record {
      before = [];
      last = e;
      after = es;
      middle = s;
      split = refl;
      went_on = refl;
      ended =
          subst
            (λ (r : Result (Option Timestamp) × Serving).
              ShutsDown e d s (proceed r.0 (resume (serve u es)) r.1).1)
            (sym now)
            (subst (λ (r : Result (Option Timestamp) × Serving). ShutsDown e d s r.1) now last);
    }
turned u e es s d (err x, t) now later h = ground (arith, h)
turned u e es s d (panic m, t) now later h = ground (arith, h)

-- The loop gives a deadline only by a shutdown request of the host: the events before it made the loop
-- go on, the request is its own message, valid and with this deadline, and when the loop returns, no job
-- is left, every cancellation that was pending is acknowledged, and the last message is the
-- acknowledgement of the shutdown, which the stream has consumed. What comes after it is not read.
pub serve-EndsBy :
    (u : UuidCrate) (events : List Event) (s : Serving) (d : Timestamp)
    → (serve u events s).0 ≡ ok (some d)
    → EndsBy u events d s (serve u events s).1
unfolding serve
serve-EndsBy u [] s d h = ground (arith, h)
serve-EndsBy u (e ∷ es) s d h = turned u e es s d (step u e s) refl (λ t. serve-EndsBy u es t d) h
