-- ===== src/Host/Calls/Answered.antt =====
-- What a host call that returned has done.
use rust_plugin_sdk.Prelude.{
  ◌+◌, ◌≤◌, String, ◌≡◌, ◌≢◌, sym, subst, ap, ◌∙◌, Option, none, some, arith,
}
use rust_plugin_sdk.Protocol.{
  ProtocolError, TraceContext, Payload, Call, CallResult, HostCallResponse,
}
use rust_plugin_sdk.Error.{SdkError, ok, err, >>=-ok}
use rust_plugin_sdk.Async.{lift, lift-ok, ended, returned, come_to}
use rust_plugin_sdk.Validation.{protocol_error}
use rust_plugin_sdk.Host.Client.{HostClient, call_result, host_result}
use rust_plugin_sdk.Host.Call.{HostCallKind, validate_response}
use rust_plugin_sdk.Host.Call.Answers.{kind_of, Answers, accepted-Answers}
use rust_plugin_sdk.Host.Context.{ActionContext, prepare_call, checked_answer}
use rust_plugin_sdk.Host.Context.Calls.{trace_nested, prepared, checked, live_active}
use rust_plugin_sdk.Host.Request.{RequestTurn, select_request}
use rust_plugin_sdk.Host.Request.Asked.{Asked, select_request-Asked}
use rust_plugin_sdk.Host.Calls.Defs.{asking, host_call}

-- The trace of a nested call, and the context of a request under it.
abbrev pub nested : ActionContext → TraceContext
nested c = record c.trace {
  parent_call_id = some c.parent_call_id;
  call_depth = c.trace.call_depth + 1;
}

abbrev pub under : ActionContext → TraceContext → ActionContext
under c trace = record c { trace = trace }

pub record Called (c : ActionContext) (call : Call) (turn : RequestTurn) (h : HostClient)
    (response : HostCallResponse) (t : HostClient) : Type 0 where
  pub depth : c.trace.call_depth + 1 ≤ h.maximum_call_depth
  pub answer : Payload
  pub asked : Asked (under c (nested c)) (asking call) turn h answer t
  pub carried : answer ≡ Payload.host_result response
  pub result : CallResult
  pub present : response.result ≡ some result
  pub answers : Answers (kind_of call) result h.session_id
  pub fine : (error : ProtocolError) → result ≢ CallResult.error error

result_given :
    (response : HostCallResponse) (o : Option CallResult) (r : HostCallResponse)
    → host_result response o ≡ ok r
    → response ≡ r
result_given response (some (CallResult.error error)) r e =
    let (u, fine, refused) = >>=-ok (protocol_error error) _ e in ground (arith, refused)
result_given response none r e = ground (arith, e)
result_given response (some _) r e = ground (arith, e)

carried :
    (payload : Payload) (response : HostCallResponse)
    → call_result payload ≡ ok response
    → payload ≡ Payload.host_result response
unfolding call_result
carried (Payload.host_result r) response e =
    ap Payload.host_result (result_given r r.result response e)
carried _ response e = ground (arith, e)

answer_carried :
    (kind : HostCallKind) (session_id : String) (payload : Payload) (response : HostCallResponse)
    → checked_answer kind session_id (ok payload) ≡ ok response
    → payload ≡ Payload.host_result response
answer_carried kind session_id payload response e =
    let (read, reads, e1) = >>=-ok (call_result payload) _ e in
    let (u, valid, same) = >>=-ok (validate_response kind read session_id) _ e1 in
    carried payload response (reads ∙ same)

refused_error :
    (response : HostCallResponse) (o : Option CallResult) (r : HostCallResponse)
    → host_result response o ≡ ok r
    → (error : ProtocolError) → ¬ (o ≡ some (CallResult.error error))
refused_error response none r e error is_error = ground (arith, is_error)
refused_error response (some result) r e error is_error =
    let (u, fine, refused) =
      >>=-ok (protocol_error error) (λ _. err (SdkError.host error))
        (sym (ap (host_result response) is_error) ∙ e) in
    ground (arith, refused)

no_error :
    (kind : HostCallKind) (session_id : String) (payload : Payload) (response : HostCallResponse)
    → checked_answer kind session_id (ok payload) ≡ ok response
    → (error : ProtocolError) → ¬ (response.result ≡ some (CallResult.error error))
unfolding call_result
no_error kind session_id payload response e error is_error =
    let (read, reads, e1) = >>=-ok (call_result payload) _ e in
    let (u, valid, same) = >>=-ok (validate_response kind read session_id) _ e1 in
    let whole : call_result payload ≡ ok response = reads ∙ same in
    let from = carried payload response whole in
    refused_error response response.result response (sym (ap call_result from) ∙ whole) error
      is_error

-- A host call that returns a response was begun and has ended while its action was active; the request went
-- out one level below the job's own depth and within the negotiated depth, in the name of the message that
-- started the job; and the response is what was routed to the ID of that request, and a valid one to its call.
pub host_call-Answers :
    (c : ActionContext) (call : Call) (turn : RequestTurn) (h t : HostClient)
    (response : HostCallResponse)
    → host_call c call turn h ≡ (some (ok response), t)
    → Called c call turn h response t
unfolding host_call
host_call-Answers c call turn h t response e =
    let ((kind, trace), prepares, e1) = returned (lift (prepare_call c turn.begun h call)) _ h e in
    let (live, valid, traced) = prepared c turn.begun h call kind trace (come_to prepares) in
    let (payload, asks, e2) = returned (select_request trace (asking call) turn) _ h e1 in
    let (checks, same) = lift-ok (checked_answer kind h.session_id (ok payload)) _ t e2 in
    let (depth, nests) = trace_nested c h.maximum_call_depth trace traced in
    let (result, present, answers) =
      accepted-Answers call response h.session_id kind valid
        (checked kind h.session_id (ok payload) response checks) in
    let asked : Asked (under c trace) (asking call) turn h payload t =
      select_request-Asked (under c trace) (asking call) turn h t payload
        (live_active turn.begun live)
        (ended (select_request trace (asking call) turn) h asks
          ∙ ap (λ x. (some (ok payload), x)) same) in
    record {
      depth = depth;
      answer = payload;
      asked = subst (λ x. Asked (under c x) (asking call) turn h payload t) nests asked;
      carried = answer_carried kind h.session_id payload response checks;
      result = result;
      present = present;
      answers = answers;
      fine = λ error is_error.
          no_error kind h.session_id payload response checks error (present ∙ ap some is_error);
    }
