-- ===== src/Host/Context/Calls.antt =====
-- What a host call asks, and what its answer is.
use rust_plugin_sdk.Prelude.{ℕ, ◌+◌, ◌≤◌, String, ◌≡◌, subst, some, arith, nat_eq}
use rust_plugin_sdk.Protocol.{TraceContext, Payload, Call, HostCallResponse}
use rust_plugin_sdk.Error.{Result, ok, >>=-ok}
use rust_plugin_sdk.Cancellation.{Cancellation, active, ensure_active}
use rust_plugin_sdk.Host.Client.{HostClient, call_result}
use rust_plugin_sdk.Host.Call.{HostCallKind, validate, validate_response}
use rust_plugin_sdk.Host.Context.Defs.{ActionContext, call_trace, prepare_call, checked_answer}

pub trace_nested :
    (c : ActionContext) (limit : ℕ) (trace : TraceContext)
    → call_trace c limit ≡ ok trace
    → (c.trace.call_depth + 1 ≤ limit)
      × (trace ≡ record c.trace {
        parent_call_id = some c.parent_call_id;
        call_depth = c.trace.call_depth + 1;
      })
unfolding call_trace
trace_nested c limit trace e = (ground arith, ground arith)

pub prepared :
    (c : ActionContext) (begun : Cancellation) (host : HostClient) (call : Call)
    (kind : HostCallKind) (trace : TraceContext)
    → prepare_call c begun host call ≡ ok (kind, trace)
    → (ensure_active begun ≡ ok tt)
      × (validate call host.session_id ≡ ok kind)
      × (call_trace c host.maximum_call_depth ≡ ok trace)
unfolding prepare_call
prepared c begun host call kind trace e =
    let (t, live, e1) = >>=-ok (ensure_active begun) _ e in
    let (k, valid, e2) = >>=-ok (validate call host.session_id) _ e1 in
    let (t', nested, e3) = >>=-ok (call_trace c host.maximum_call_depth) _ e2 in
    (live, ground (arith, e3, valid), ground (arith, e3, nested))

pub checked :
    (kind : HostCallKind) (session_id : String) (received : Result Payload)
    (response : HostCallResponse)
    → checked_answer kind session_id received ≡ ok response
    → validate_response kind response session_id ≡ ok tt
checked kind session_id received response e =
    let (payload, got, e1) = >>=-ok received _ e in
    let (answer, read, e2) = >>=-ok (call_result payload) _ e1 in
    let (t, good, e3) = >>=-ok (validate_response kind answer session_id) _ e2 in
    let same : answer ≡ response = ground arith in
    subst (λ x. validate_response kind x session_id ≡ ok tt) same good

pub live_active : (c : Cancellation) → ensure_active c ≡ ok tt → c ≡ active
unfolding ensure_active
live_active c e = ground (arith, e)
