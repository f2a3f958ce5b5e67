-- ===== src/Lib.antt =====
-- The onelastleaf Rust plugin SDK: the runtime that a plugin process runs to serve one host.
--
-- A plugin is assembled by its builder (src/runtime/plugin.rs) and then runs one session over one gRPC
-- stream. The session validates each host message (src/runtime/validation.rs) and hands it on: job requests
-- to the job manager (src/runtime/session/jobs.rs), answers to the host client (src/runtime/host/client.rs).
-- Whatever the plugin says goes through one sender (src/runtime/sender.rs), which numbers the messages and
-- puts them into a bounded channel under one lock. Every job has a task that runs the plugin author's
-- action, and a cancellation (src/runtime/cancellation.rs) that the job manager and the action share.
--
-- Which file models what (paths from the repository's root):
--   Prelude      shared names, Boolean tests, lists, signed integers, maps, UTF-8 texts
--   Protocol     proto/oll: the messages that the runtime reads and writes
--   Error        src/runtime/error.rs: SdkError, Display (to_string), protocol_error; results as values
--   Exec         methods that change a state and may fail; what was written before a failure stays
--   Value        src/runtime/value.rs: valid_timestamp, valid_duration, validate and its two callers
--   Validation   src/runtime/validation.rs: all checks; Validation.Endpoint is endpoint, and Validation.Address
--                the parser of the standard library's IpAddr that it uses
--   Sender       src/runtime/sender.rs: enqueue, send, send_and_wait_for_consumption, send_registered; abandon
--                is an enqueue whose future is dropped while it waits for room in the channel
--   Cancellation src/runtime/cancellation.rs: the shared byte (Defs), sequences of calls (Requests), and the
--                loop of cancelled() as a machine over tokio's Notify (Waiting, Wakeup)
--   Host.Output  src/runtime/host.rs: StoredArtifact, ActionResult, into_wire
--   Host.Client  src/runtime/host/client.rs: request is issue, up to its wait, and receive; call_result is
--                the rest of call; route delivers an answer
--   Plugin       src/runtime/plugin.rs: the builder (Plugin::run is in Session.Launch)
--   Session.Jobs src/runtime/session/jobs.rs: Errors (terminal_update, run_action and what they call), Defs
--                (the state), Ops (new, start, cancel, join_next, settle, shutdown, and end_task, the end of
--                a spawned task), the other files its theorems
--   Async        methods that may also wait for what another task does
--   Host.Call    src/runtime/host/call.rs: HostCallKind, validate, validate_response
--   Host.Context src/runtime/host.rs: ActionContext; host_call before its request (prepare_call) and after it
--                (checked_answer), the last steps of get_config and invoke_config_function
--   Host.Request src/runtime/host.rs: request; request_host is the whole of HostClient::request
--   Host.Calls   src/runtime/host.rs: host_call, get_config, invoke_config_function
--   Host.Log     src/runtime/host.rs: log, system_timestamp
--   Host.Artifact src/runtime/host/artifact.rs: validate_descriptor, artifact_plan
--   Host.Source  src/runtime/host/artifact.rs: validate_source
--   Host.Transfer src/runtime/host.rs: the loop of store_artifact that sends the chunks
--   Host.Store   src/runtime/host.rs: store_artifact; transfer is its exchange with the host
--   Session.Liveness src/runtime/session/liveness.rs: watch_descriptor and watch_stdin over the turns of the
--                loop (watch_blocking without poll), wait, drop (drop_parent;
--                its theorem in Dropping)
--   Session.Handshake src/runtime/session.rs: receive_initial, open_session (run_session up to its sender) and
--                plugin_hello; theorems in Session.Opening
--   Session.Greeting src/runtime/session.rs: receive, greet (run_session up to its host client), start_session
--   Session.Envelope src/runtime/session.rs: SessionState, validate_envelope
--   Session.Serve src/runtime/session.rs: serve, one event of its loop being a step; dispatch is the match on
--                the payload of a host-initiated message, respond the branch of replies. Its theorems are
--                in Session.Steady, Dispatching, Safety (no panic), Ordering, Ordered (message IDs),
--                Farewell (shutdown), Ending (how the loop ends) and
--                Reaching (the histories of its job manager)
--   Session.Closing src/runtime/session.rs: wait_for_host_close
--   Session.Run  src/runtime/session.rs: run_session, and the select of run
--   Session.Launch src/runtime/session.rs: run, with ParentLiveness::start; src/runtime/plugin.rs:
--                Plugin::run
--   Session.Jobs.Contract what a host may rely on of the job manager; Refines shows that it keeps it
--   Tests        the theorems at concrete inputs
--
-- State is passed explicitly: an operation of a component maps its state to a result and a new state. A
-- lock makes an operation atomic, so an operation is one step; the steps of several tasks interleave as
-- sequences of operations (Session.Jobs.Reached) or as a step relation (Cancellation.Waiting). A map is
-- an association list, its entries in an order that no theorem depends on but by the same list. An
-- expect that fails is the result panic.
--
-- Numbers: message IDs are 64-bit, with the failure of checked_add at the largest written out. Fuel: a
-- loop over calls of the system or of a source runs as long as the list of their answers; a run of an
-- action is followed for a given number of polls, and the answer comes as soon as the number exceeds
-- that of the idle polls; 20 decimal digits are enough for a 64-bit number in the text of the capacity
-- error.
--
-- Parameters: the bounded channel of tokio (accepts, consumes), Notify with its documented behaviour,
-- the uuid package, the http package's parse of a URI, the actions of the plugin author, the calls of
-- an artifact's source and its digest, the clock, the conversion of a Timestamp into a time of the
-- system, poll and read of the operating system, and the connections of the transport.
--
-- Not modelled: poisoned locks, the accessors that return a field, the debug assertion of start, the
-- error of a task that its set cannot join, the drop of the watcher at the end of run, which only
-- delays its return, the sends of other tasks between two chunks of one transfer, the contents of
-- documents, which the runtime passes on unread, the plugin of the tests, and the code that the
-- build generates.
mod Prelude
pub mod Protocol
pub mod Error
pub mod Exec
pub mod Async
pub mod Value
pub mod Validation
pub mod Sender
pub mod Cancellation
pub mod Host
pub mod Plugin
pub mod Session
mod Tests
