-- ===== src/Host/Request/Asked.antt =====
-- What a request that returned has done.
use rust_plugin_sdk.Prelude.{
  ℕ, ◌≡◌, sym, ap, subst, inl, inr, false, none, some, ◌++◌, ◌∷◌, [], arith, ◌==◌, nat_eq,
  Bool-cases,
}
use rust_plugin_sdk.Protocol.{TraceContext, Payload}
use rust_plugin_sdk.Error.{ok}
use rust_plugin_sdk.Async.{lift, at_once, returned, come_to}
use rust_plugin_sdk.Cancellation.{active, ensure_active}
use rust_plugin_sdk.Sender.{outbound, send_registered}
use rust_plugin_sdk.Sender.Effect.{message, transcript, transcript-snoc}
use rust_plugin_sdk.Host.Client.{HostClient, register, issue, receive}
use rust_plugin_sdk.Host.Context.{ActionContext}
use rust_plugin_sdk.Host.Context.Calls.{live_active}
use rust_plugin_sdk.Host.Request.Defs.{RequestTurn, request_host, select_request, request}

-- The request went out at the end of what was sent.
pub issue-transcript :
    (trace : TraceContext) (payload : Payload) (h : HostClient) (id : ℕ)
    → (issue trace payload h).0 ≡ ok id
    → transcript (issue trace payload h).1.sender
      ≡ transcript h.sender ++ message none trace payload ∷ []
unfolding issue send_registered register transcript
issue-transcript trace payload h id e =
    ground
      (arith, e, transcript-snoc h.sender.wire.sent (outbound h.sender none trace payload false))

pub record Asked (c : ActionContext) (payload : Payload) (turn : RequestTurn) (h : HostClient)
    (answer : Payload) (t : HostClient) : Type 0 where
  pub begun : turn.begun ≡ active
  pub ended : turn.ended ≡ active
  pub id : ℕ
  pub issued : (issue c.trace payload h).0 ≡ ok id
  pub sent :
      transcript (issue c.trace payload h).1.sender
      ≡ transcript h.sender ++ message none c.trace payload ∷ []
  pub others : t ≡ turn.others (issue c.trace payload h).1
  pub answered : receive id t ≡ some (ok answer)

Asked-host :
    (c : ActionContext) (payload : Payload) (turn : RequestTurn) (h t : HostClient)
    (answer : Payload)
    → turn.begun ≡ active
    → turn.ended ≡ active
    → request_host c.trace payload turn.others h ≡ (some (ok answer), t)
    → Asked c payload turn h answer t
unfolding request_host
Asked-host c payload turn h t answer begun ended e =
    let (id, issued, e1) = returned (at_once (issue c.trace payload)) _ h e in
    let arrived = turn.others (issue c.trace payload h).1 in
    let came : receive id arrived ≡ some (ok answer) = ap (λ x. x.0) e1 in
    let same : arrived ≡ t = ap (λ x. x.1) e1 in
    record {
      begun = begun;
      ended = ended;
      id = id;
      issued = come_to issued;
      sent = issue-transcript c.trace payload h id (ground (arith, issued));
      others = sym same;
      answered = subst (λ x. receive id x ≡ some (ok answer)) same came;
    }

pub select_request-Asked :
    (c : ActionContext) (payload : Payload) (turn : RequestTurn) (h t : HostClient)
    (answer : Payload)
    → turn.begun ≡ active
    → select_request c.trace payload turn h ≡ (some (ok answer), t)
    → Asked c payload turn h answer t
select_request-Asked c payload turn h t answer begun e = elim (Bool-cases (turn.ended == active)) [
  | inl still ↦
      let whole : request_host c.trace payload turn.others h ≡ (some (ok answer), t) =
        ground (arith, e, still) in
      Asked-host c payload turn h t answer begun (ground (arith, still)) whole
  | inr over ↦ ground (arith, e, over)
]

-- A request that returned was made and answered while its action was active; it went out, and what it
-- returned is the answer that was routed to the ID under which it went out.
pub request-Asked :
    (c : ActionContext) (payload : Payload) (turn : RequestTurn) (h t : HostClient)
    (answer : Payload)
    → request c payload turn h ≡ (some (ok answer), t)
    → Asked c payload turn h answer t
unfolding request
request-Asked c payload turn h t answer e =
    let (u, live, e1) = returned (lift (ensure_active turn.begun)) _ h e in
    select_request-Asked c payload turn h t answer (live_active turn.begun (ground (arith, live)))
      e1
