-- ===== src/Tests/Jobs.antt =====
-- The job manager's theorems at one job.
use rust_plugin_sdk.Prelude.{
  ◌↔◌, ℕ, zero, suc, ◌≤◌, ◌++◌, ◌≡◌, ◌≢◌, refl, true, none, some, [], arith, string_eq, count,
}
use rust_plugin_sdk.Prelude.Map.{keys, values, lookup}
use rust_plugin_sdk.Cancellation
use rust_plugin_sdk.Protocol.{JobUpdate}
use rust_plugin_sdk.Host.Output.{into_wire, check_artifacts}
use rust_plugin_sdk.Error
use rust_plugin_sdk.Error.{Result, ok, err, SdkError}
use rust_plugin_sdk.Validation
use rust_plugin_sdk.Sender
use rust_plugin_sdk.Host.Client.{new_client}
use rust_plugin_sdk.Plugin.{Handled, Poll, RegisteredAction, text, failed}
use rust_plugin_sdk.Session.Jobs.{run_action, terminal_update, outbound_error, action_panic}
use rust_plugin_sdk.Session.Jobs.{
  JobManager, FinishedAction, ActiveJob, new_manager, has_active_jobs,
}
use rust_plugin_sdk.Session.Jobs.{
  start, cancel, end_task, settle, send_all, send_cancellation_acknowledgement, shutdown,
  all_cancellations, admit,
}
use rust_plugin_sdk.Session.Jobs.Updates.{
  IsUpdateOf, terminal_update-IsUpdateOf, outbound_error_valid,
}
use rust_plugin_sdk.Session.Jobs.Polling.{Answers, run_action_iff}
use rust_plugin_sdk.Session.Jobs.Reached.{Reached}
use rust_plugin_sdk.Session.Jobs.Cancelling.{Cancelled, cancel-Cancelled}
use rust_plugin_sdk.Session.Jobs.Closings.{settle_closes, shutdown_closes}
use rust_plugin_sdk.Session.Jobs.Admission.{Answered, start_answers}
use rust_plugin_sdk.Session.Jobs.Says.{said, ack_messages, closing}
use rust_plugin_sdk.Tests.Data.{
  first_id, second_id, two_uuids, root_trace, client, done, actions, start_request, cancel_request,
}

abbrev idle : JobManager
idle = new_manager actions 1 client

abbrev busy : JobManager
busy = (start two_uuids 5 root_trace (start_request first_id) idle).1

abbrev over : JobManager
over = end_task first_id done busy

abbrev asked : JobManager
asked = (cancel two_uuids 6 root_trace (cancel_request first_id) busy).1

over_busy : has_active_jobs over ≡ true
unfolding start new_manager new_client Validation.job_id Validation.canonical_uuid_v4
    Validation.optional_timestamp admit Sender.send Sender.enqueue Sender.new_sender end_task
    has_active_jobs
over_busy = refl

start_returned : (start two_uuids 5 root_trace (start_request first_id) idle).0 ≡ ok tt
unfolding start new_manager new_client Validation.job_id Validation.canonical_uuid_v4
    Validation.optional_timestamp admit Sender.send Sender.enqueue Sender.new_sender
start_returned = refl

start_answers_example :
    Answered two_uuids 5 root_trace
      (start_request first_id)
      idle
      (start two_uuids 5 root_trace (start_request first_id) idle).1
start_answers_example =
    start_answers two_uuids 5 root_trace (start_request first_id) idle start_returned

cancel-Cancelled_example :
    Cancelled two_uuids 6 root_trace
      (cancel_request first_id)
      busy
      (cancel two_uuids 6 root_trace (cancel_request first_id) busy)
cancel-Cancelled_example = cancel-Cancelled two_uuids 6 root_trace (cancel_request first_id) busy

abbrev job : ActiveJob
job = record { controller = 0; trace = root_trace; cancellations = [] }

abbrev finished : FinishedAction
finished = record { job_id = first_id; output = done }

job_found : lookup first_id busy.active ≡ some job
unfolding start new_manager new_client Validation.job_id Validation.canonical_uuid_v4
    Validation.optional_timestamp admit Sender.send Sender.enqueue Sender.new_sender
job_found = refl

job_once : count first_id (keys busy.active) ≤ 1
unfolding start new_manager new_client Validation.job_id Validation.canonical_uuid_v4
    Validation.optional_timestamp admit Sender.send Sender.enqueue Sender.new_sender
job_once = omega arith

ids_differ : first_id ≢ second_id
ids_differ same = ground (arith, (string_eq.beq_iff first_id second_id).1 same)

settle_returned : (settle finished busy).0 ≡ ok tt
unfolding start new_manager new_client Validation.job_id Validation.canonical_uuid_v4
    Validation.optional_timestamp admit Sender.send Sender.enqueue Sender.new_sender settle
    terminal_update into_wire check_artifacts
settle_returned = refl

settle_closes_example :
    (said (settle finished busy).1 ≡ said busy ++ closing finished root_trace [])
    × (lookup first_id (settle finished busy).1.active ≡ none)
    × (lookup second_id (settle finished busy).1.active ≡ lookup second_id busy.active)
settle_closes_example =
    settle_closes finished busy job second_id job_found job_once tt ids_differ settle_returned

shutdown_returned : (shutdown asked).0 ≡ ok tt
unfolding start new_manager new_client Validation.job_id Validation.canonical_uuid_v4
    Validation.optional_timestamp admit Sender.send Sender.enqueue Sender.new_sender cancel
    Validation.cancellation_reason Cancellation.cancel shutdown send_all
    send_cancellation_acknowledgement
shutdown_returned = refl

shutdown_closes_example :
    (said (shutdown asked).1 ≡ said asked ++ ack_messages (all_cancellations (values asked.active)))
    × ((shutdown asked).1.active ≡ [])
    × ((shutdown asked).1.tasks ≡ [])
    × ((shutdown asked).1.ended ≡ [])
shutdown_closes_example = shutdown_closes asked shutdown_returned

terminal_update-IsUpdateOf_example :
    (u : JobUpdate) × (terminal_update first_id done ≡ ok u) × IsUpdateOf first_id done u
terminal_update-IsUpdateOf_example = terminal_update-IsUpdateOf first_id done tt

outbound_error_valid_example :
    (Validation.protocol_error (outbound_error SdkError.cancelled) ≡ ok tt)
    × (Validation.protocol_error (Error.protocol_error SdkError.cancelled) ≡ ok tt
        → outbound_error SdkError.cancelled ≡ Error.protocol_error SdkError.cancelled)
outbound_error_valid_example = outbound_error_valid SdkError.cancelled

-- A future that panics in its second poll.
abbrev late_panic : ℕ → Poll
late_panic zero = Poll.pending
late_panic (suc n) = Poll.panics (text "boom")

abbrev panicking : RegisteredAction
panicking = record { description = "panics"; handler = λ arguments. Handled.future late_panic }

run_action_iff_example :
    (run_action 2 panicking [] ≡ some (failed (action_panic (text "boom"))))
    ↔ Answers 2 (panicking.handler []) (failed (action_panic (text "boom")))
run_action_iff_example = run_action_iff 2 panicking [] (failed (action_panic (text "boom")))
