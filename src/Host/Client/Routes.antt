-- ===== src/Host/Client/Routes.antt =====
-- A request and the answer that is routed to it.
use rust_plugin_sdk.Prelude.{
  String, ℕ, ap, ◌∙◌, ◌≤◌, ◌≡◌, ◌≢◌, refl, Bool-cases, inl, inr, ◌⊎◌, Option, none, some, List,
  arith, string_eq, nat_eq, ◌==◌, ◌!=◌,
}
use rust_plugin_sdk.Prelude.Map.{
  lookup, insert, remove, lookup-count_zero, lookup-insert, count-insert, count-remove,
  lookup-remove_self, count-lookup-none,
}
use rust_plugin_sdk.Protocol.{trace_eq, TraceContext, Payload}
use rust_plugin_sdk.Error.{SdkError, Result, ok, err}
use rust_plugin_sdk.Sender.{SessionSender, u64_max, exhausted, enqueue, send_registered}
use rust_plugin_sdk.Host.Client.Defs.{
  PendingResponse, Routing, HostClient, register, drop_guard, new_client, issue, receive, answer,
  route, deliver, reused_id,
}

-- No request waits under the next message ID or a later one.
pub record IsRouting (h : HostClient) : Type 0 where
  pub fresh : (id : ℕ) → h.sender.next_message_id ≤ id → lookup id h.routing.pending ≡ none

abbrev entry : TraceContext → ℕ → PendingResponse
entry trace id = record { expected_trace = trace; response = id }

abbrev pub waiting : TraceContext → ℕ → Routing → Routing
waiting trace id r = record r { pending = insert id (entry trace id) r.pending }

-- What `issue` comes to where its ID is new: the request waits, or nothing does and sending has failed.
abbrev Issued : TraceContext → HostClient → Result ℕ × HostClient → Type 0
Issued trace h r =
    ((r.0 ≡ ok h.sender.next_message_id)
      × (r.1.routing ≡ waiting trace h.sender.next_message_id h.routing))
    ⊎ ((e : SdkError) × (r.0 ≡ err e) × (e ≢ reused_id))

exhausted_not_reused : exhausted ≢ reused_id
exhausted_not_reused same = ground (
  arith,
  same,
  (string_eq.beq_iff "plugin exhausted message IDs" "plugin reused a pending request message ID").1,
)

issue-Issued :
    (trace : TraceContext) (payload : Payload) (h : HostClient)
    → lookup h.sender.next_message_id h.routing.pending ≡ none
    → Issued trace h (issue trace payload h)
unfolding issue send_registered register enqueue
issue-Issued trace payload h new = elim (Bool-cases (h.sender.next_message_id == u64_max)) [
  | inl full ↦ rw full (inr (_, refl, exhausted_not_reused))
  | inr room ↦ elim (Bool-cases (h.sender.wire.accepts h.sender.wire.sent)) [
    | inl opened ↦ rw (room, new, opened) (inl (refl, refl))
    | inr closed ↦ rw (room, new, closed) (inr (_, refl, λ h. ground (arith, h)))
  ]
]

deliver_waiting :
    (id : ℕ) (trace : TraceContext) (reply : Payload) (h : HostClient)
    → lookup id h.routing.pending ≡ some (entry trace id)
    → ((route id trace reply h).0 ≡ ok tt)
      × (receive id (route id trace reply h).1 ≡ some (answer reply))
      × ((route id trace reply h).1.routing.pending ≡ remove id h.routing.pending)
unfolding route receive
deliver_waiting id trace reply h e = ground (arith, e, trace_eq.beq_iff trace trace)

unknown :
    (id : ℕ) (trace : TraceContext) (reply : Payload) (h : HostClient)
    → lookup id h.routing.pending ≡ none
    → (e : SdkError) × (route id trace reply h ≡ (err e, h))
unfolding route
unknown id trace reply h e =
    rw e (SdkError.protocol "response names no pending plugin request", refl)

-- The table with one more entry.
waits_found :
    (trace : TraceContext) (id : ℕ) (r : Routing)
    → lookup id (waiting trace id r).pending ≡ some (entry trace id)
waits_found trace id r = ground (arith, lookup-insert id id (entry trace id) r.pending)

pub waits_once :
    (trace : TraceContext) (id : ℕ) (r : Routing)
    → lookup id r.pending ≡ none
    → lookup id (remove id (waiting trace id r).pending) ≡ none
waits_once trace id r new = lookup-remove_self id (insert id (entry trace id) r.pending) (
    ground (
      arith,
      count-insert id id (entry trace id) r.pending new,
      count-lookup-none id r.pending new,
    ))

-- With no entry at the next message ID or beyond, a request that was sent waits under its message
-- ID; the answer that names that ID with the request's trace is accepted and is what the request
-- receives, and a second answer is refused.
pub request_is_answered :
    (trace : TraceContext) (payload reply again : Payload) (other : TraceContext) (h : HostClient)
    (id : ℕ)
    → IsRouting h
    → (issue trace payload h).0 ≡ ok id
    → let sent = (issue trace payload h).1 in
      let routed = route id trace reply sent in
      (routed.0 ≡ ok tt)
      × (receive id routed.1 ≡ some (answer reply))
      × ((e : SdkError) × (route id other again routed.1 ≡ (err e, routed.1)))
request_is_answered trace payload reply again other h id v e =
    answered (issue trace payload h) e (issue-Issued trace payload h (v.fresh _ (omega arith)))
  where
    answered :
        (r : Result ℕ × HostClient)
        → r.0 ≡ ok id
        → Issued trace h r
        → let routed = route id trace reply r.1 in
          (routed.0 ≡ ok tt)
          × (receive id routed.1 ≡ some (answer reply))
          × ((e : SdkError) × (route id other again routed.1 ≡ (err e, routed.1)))
    answered r e (inr (x, failed, _)) = ground (arith, e, failed)
    answered r e (inl (same, waits)) =
        let named : h.sender.next_message_id ≡ id = ground (arith, e, same) in
        let table : r.1.routing ≡ waiting trace id h.routing = rw (← named) waits in
        let (fine, received, left) =
          deliver_waiting id trace reply r.1
            (ap (λ t. lookup id t.pending) table ∙ waits_found trace id h.routing) in
        (
          fine,
          received,
          unknown id other again _ (
              ap (λ p. lookup id p) left
              ∙ (ap (λ t. lookup id (remove id t.pending)) table
                  ∙ waits_once trace id h.routing (v.fresh id (omega arith)))),
        )

-- A table without an entry for an ID has none after other entries have come and gone.
absent-insert :
    (k j : ℕ) (v : PendingResponse) (m : List (ℕ × PendingResponse))
    → k ≢ j
    → lookup j m ≡ none
    → lookup j (insert k v m) ≡ none
absent-insert k j v m ne h = ground (arith, lookup-insert k j v m)

absent-remove :
    (k j : ℕ) (m : List (ℕ × PendingResponse)) → lookup j m ≡ none → lookup j (remove k m) ≡ none
absent-remove k j m h =
    lookup-count_zero j (remove k m) (ground (arith, count-remove k j m, count-lookup-none j m h))

pub new_client-IsRouting :
    (s : SessionSender) (session_id : String) (bytes depth : ℕ)
    → IsRouting (new_client s session_id bytes depth)
unfolding new_client
new_client-IsRouting s session_id bytes depth = record { fresh = λ id h. refl }

-- Sending a request, whether it succeeds or not, keeps the table of waiting requests without an
-- entry at the next message ID or beyond.
pub issue-IsRouting :
    (trace : TraceContext) (payload : Payload) (h : HostClient)
    → IsRouting h
    → IsRouting (issue trace payload h).1
unfolding issue send_registered register drop_guard enqueue
issue-IsRouting trace payload h v = elim (Bool-cases (h.sender.next_message_id == u64_max)) [
  | inl full ↦ rw full v
  | inr room ↦
      let new = v.fresh h.sender.next_message_id (omega arith) in
      elim (Bool-cases (h.sender.wire.accepts h.sender.wire.sent)) [
        | inl opened ↦
            rw (room, new, opened)
              (record {
                fresh = λ id le.
                    absent-insert h.sender.next_message_id id _ h.routing.pending (omega arith)
                      (v.fresh id (omega arith));
              })
        | inr closed ↦
            rw (room, new, closed)
              (record {
                fresh = λ id le. absent-remove h.sender.next_message_id id _ (
                    absent-insert h.sender.next_message_id id _ h.routing.pending (omega arith)
                      (v.fresh id (omega arith)));
              })
      ]
]

-- An answer, accepted or refused, keeps the table of waiting requests without an entry at the next
-- message ID or beyond.
pub route-IsRouting :
    (reply_to : ℕ) (trace : TraceContext) (reply : Payload) (h : HostClient)
    → IsRouting h
    → IsRouting (route reply_to trace reply h).1
unfolding route
route-IsRouting reply_to trace reply h v = delivered (lookup reply_to h.routing.pending)
  where
    delivered : (o : Option PendingResponse) → IsRouting (deliver reply_to trace reply o h).1
    delivered none = v
    delivered (some waiter) = elim (Bool-cases (waiter.expected_trace != trace)) [
      | inl foreign ↦
          rw foreign (record {
            fresh = λ id le. absent-remove reply_to id h.routing.pending (v.fresh id le);
          })
      | inr same ↦
          rw same (record {
            fresh = λ id le. absent-remove reply_to id h.routing.pending (v.fresh id le);
          })
    ]
