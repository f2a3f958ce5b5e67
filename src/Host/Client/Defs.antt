-- ===== src/Host/Client/Defs.antt =====
-- `HostClient`. Its clones share one table of pending requests and one sender, so there is one of it.
use rust_plugin_sdk.Prelude.{
  ℕ, String, Option, none, some, List, [], ◌∷◌, ◌==◌, ◌!=◌, nat_eq, if◌then◌else◌, any,
}
use rust_plugin_sdk.Prelude.Map.{lookup, insert, remove, contains_key}
use rust_plugin_sdk.Protocol.{TraceContext, Payload, HostCallResponse, CallResult, trace_eq}
use rust_plugin_sdk.Error.{SdkError, Result, ok, err, panic, ◌>>=◌}
use rust_plugin_sdk.Exec.{Exec}
use rust_plugin_sdk.Sender.{SessionSender, send_registered}
use rust_plugin_sdk.Validation.{protocol_error}

-- The one-shot channel of a waiting request is named by the request's message ID.
pub record PendingResponse : Type 0 where
  pub expected_trace : TraceContext
  pub response : ℕ

-- The table, what has come out of the one-shot channels, and those whose sending half was dropped. An
-- answer whose receiver is gone stays unread.
pub record Routing : Type 0 where
  pub pending : List (ℕ × PendingResponse)
  pub delivered : List (ℕ × Payload)
  pub dropped : List ℕ

pub record HostClient : Type 0 where
  pub sender : SessionSender
  pub routing : Routing
  pub session_id : String
  pub maximum_artifact_chunk_bytes : ℕ
  pub maximum_call_depth : ℕ

abbrev pub reused_id : SdkError
reused_id = SdkError.protocol "plugin reused a pending request message ID"

-- The closure that `request` hands to `send_registered`; it returns the guard of its entry.
unfoldable pub register : TraceContext → ℕ → Exec Routing ℕ
register expected_trace message_id r =
    if contains_key message_id r.pending then (err reused_id, r) else (
      ok message_id,
      record r {
        pending =
            insert message_id (record { expected_trace = expected_trace; response = message_id })
              r.pending;
      },
    )

-- `PendingGuard::drop` before the request was sent.
unfoldable pub drop_guard : ℕ → Routing → Routing
drop_guard message_id r = record r { pending = remove message_id r.pending }

abbrev pub routed : HostClient → Result (ℕ × ℕ) × (SessionSender × Routing) → Result ℕ × HostClient
routed h (ok (id, _), (s, r)) = (ok id, record h { sender = s; routing = r })
routed h (err e, (s, r)) = (err e, record h { sender = s; routing = r })
routed h (panic m, (s, r)) = (panic m, record h { sender = s; routing = r })

unfoldable pub new_client : SessionSender → String → ℕ → ℕ → HostClient
new_client sender session_id maximum_artifact_chunk_bytes maximum_call_depth = record {
  sender = sender;
  routing = record { pending = []; delivered = []; dropped = [] };
  session_id = session_id;
  maximum_artifact_chunk_bytes = maximum_artifact_chunk_bytes;
  maximum_call_depth = maximum_call_depth;
}

-- `request` up to its wait: the ID by which the answer will come.
unfoldable pub issue : TraceContext → Payload → Exec HostClient ℕ
unfolding register drop_guard send_registered
issue trace payload h =
    routed h (send_registered none trace payload (register trace) drop_guard (h.sender, h.routing))

-- The rest of `request`, once its one-shot channel has an answer.
unfoldable pub answer : Payload → Result Payload
answer (Payload.protocol_error error) = err (SdkError.host error)
answer payload = ok payload

-- `None`: the request still waits.
unfoldable pub receive : ℕ → HostClient → Option (Result Payload)
receive id h = elim (lookup id h.routing.delivered) [
  | none ↦
      if any (λ dropped. dropped == id) h.routing.dropped
      then some (err (SdkError.runtime "wait for host response" "channel closed"))
      else none
  | some payload ↦ some (answer payload)
]

abbrev pub host_result : HostCallResponse → Option CallResult → Result HostCallResponse
host_result response none = err (SdkError.protocol "HostCallResponse result is required")
host_result response (some (CallResult.error error)) =
    protocol_error error >>= λ _. err (SdkError.host error)
host_result response (some _) = ok response

-- The rest of `call`, over the answer of its request.
unfoldable pub call_result : Payload → Result HostCallResponse
call_result (Payload.host_result response) = host_result response response.result
call_result _ = err (SdkError.protocol "host call received another response kind")

-- The entry is gone before its trace is compared.
abbrev pub deliver :
    ℕ → TraceContext → Payload → Option PendingResponse → Exec HostClient (Unit {0})
deliver reply_to trace payload none h =
    (err (SdkError.protocol "response names no pending plugin request"), h)
deliver reply_to trace payload (some waiter) h =
    let left = remove reply_to h.routing.pending in
    if waiter.expected_trace != trace
    then (
      err (SdkError.protocol "response trace context differs from its plugin request"),
      record h {
        routing = record h.routing {
          pending = left;
          dropped = waiter.response ∷ h.routing.dropped;
        };
      },
    )
    else (
      ok tt,
      record h {
        routing = record {
          pending = left;
          delivered = (waiter.response, payload) ∷ h.routing.delivered;
          dropped = h.routing.dropped;
        };
      },
    )

unfoldable pub route : ℕ → TraceContext → Payload → Exec HostClient (Unit {0})
route reply_to trace payload h =
    deliver reply_to trace payload (lookup reply_to h.routing.pending) h
