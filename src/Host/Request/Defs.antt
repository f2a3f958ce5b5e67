-- ===== src/Host/Request/Defs.antt =====
-- A request of an action, in a select with the end of the action.
use rust_plugin_sdk.Prelude.{◌==◌, nat_eq, some, if◌then◌else◌}
use rust_plugin_sdk.Protocol.{TraceContext, Payload}
use rust_plugin_sdk.Error
use rust_plugin_sdk.Error.{SdkError}
use rust_plugin_sdk.Exec.{modify}
use rust_plugin_sdk.Async.{Async, ◌>>=◌, ◌>>◌, lift, at_once, awaits}
use rust_plugin_sdk.Cancellation.{Cancellation, active, ensure_active}
use rust_plugin_sdk.Sender.{abandon}
use rust_plugin_sdk.Host.Client.{HostClient, register, drop_guard, issue, receive}
use rust_plugin_sdk.Host.Context.{ActionContext}

-- How far a request has come when its action ends: not polled, waiting for room in the channel, or
-- waiting for its answer.
pub data Progress : Type 0 where
  unpolled sending waiting : Progress

-- The controller as it is read before the select and when it ends, and what the other tasks do while the
-- answer is on its way.
pub record RequestTurn : Type 0 where
  pub begun : Cancellation
  pub ended : Cancellation
  pub progress : Progress
  pub others : HostClient → HostClient

abbrev pub drop_sending : TraceContext → HostClient → HostClient
drop_sending trace h =
    let (s, r) = abandon (register trace) drop_guard (h.sender, h.routing) in
    record h { sender = s; routing = r }

-- The request is dropped; one that was sent keeps its entry in the table.
abbrev pub drop_request : Progress → TraceContext → Payload → HostClient → HostClient
drop_request Progress.unpolled trace payload h = h
drop_request Progress.sending trace payload h = drop_sending trace h
drop_request Progress.waiting trace payload h = let (r, h') = issue trace payload h in h'

-- `HostClient::request`.
unfoldable pub request_host :
    TraceContext → Payload → (HostClient → HostClient) → Async HostClient Payload
unfolding issue receive
request_host trace payload others = do
  id ← at_once (issue trace payload)
  at_once (modify others)
  awaits (receive id)

abbrev pub select_request : TraceContext → Payload → RequestTurn → Async HostClient Payload
select_request trace payload turn h =
    if turn.ended == active
    then request_host trace payload turn.others h
    else (some (Error.err SdkError.cancelled), drop_request turn.progress trace payload h)

unfoldable pub request : ActionContext → Payload → RequestTurn → Async HostClient Payload
unfolding ensure_active request_host abandon register drop_guard issue
request c payload turn = do lift (ensure_active turn.begun); select_request c.trace payload turn
