-- ===== src/Session/Jobs/Errors.antt =====
-- How an action's end is turned into a terminal update: `terminal_update`, `outbound_error`,
-- `capacity_error`, `run_action` and `action_panic`.
use Prim.Native.String.{◌++◌}
use rust_plugin_sdk.Prelude.{
  ℕ, zero, suc, ◌+◌, ◌/◌, ◌%◌, String, true, false, Option, none, some, List, [], ◌∷◌, ltb, ◌==◌,
  nat_eq, if◌then◌else◌,
}
use rust_plugin_sdk.Protocol.{
  ProtocolError, ErrorCode, error_code, JobUpdate, JobState, job_state, ConfigValue,
  ArtifactDescriptor,
}
use rust_plugin_sdk.Error
use rust_plugin_sdk.Error.{SdkError, Result, ok, err, panic, ◌>>=◌, is_ok}
use rust_plugin_sdk.Validation
use rust_plugin_sdk.Host.Output.{into_wire}
use rust_plugin_sdk.Plugin.{
  PanicPayload, Output, Poll, Handled, RegisteredAction, text, other, succeeded, failed,
}

unfoldable pub action_panic : PanicPayload → SdkError
action_panic (text message) = SdkError.action ("action task panicked: " ++ message)
action_panic other = SdkError.action "action task panicked: non-string panic payload"

-- One poll of the guarded future; `none` is `Poll::Pending`.
abbrev pub poll_guarded : Poll → Option Output
poll_guarded Poll.pending = none
poll_guarded (Poll.ready output) = some output
poll_guarded (Poll.panics payload) = some (failed (action_panic payload))

-- The first answer among `polls` polls, counted from `n`.
unfoldable pub poll_until : ℕ → ℕ → (ℕ → Poll) → Option Output
poll_until zero n poll = none
poll_until (suc polls) n poll = elim (poll_guarded (poll n)) [
  | none ↦ poll_until polls (n + 1) poll
  | some output ↦ some output
]

abbrev pub run_handled : ℕ → Handled → Option Output
run_handled polls (Handled.panics payload) = some (failed (action_panic payload))
run_handled polls (Handled.future poll) = poll_until polls 0 poll

-- `run_action` as far as it comes in a number of polls.
unfoldable pub run_action : ℕ → RegisteredAction → List String → Option Output
unfolding poll_until action_panic
run_action polls action arguments = run_handled polls (action.handler arguments)

abbrev pub invalid_error : ProtocolError
invalid_error = record {
  code = error_code ErrorCode.internal;
  message = "action returned an invalid protocol error";
  retryable = false;
  metadata = [];
  details = [];
}

unfoldable pub outbound_error : SdkError → ProtocolError
outbound_error e =
    let error = Error.protocol_error e in
    if is_ok (Validation.protocol_error error) then error else invalid_error

abbrev pub digit : ℕ → String
digit d =
    if d == 0
    then "0"
    else if d == 1
    then "1"
    else if d == 2
    then "2"
    else if d == 3
    then "3"
    else if d == 4
    then "4"
    else if d == 5
    then "5"
    else if d == 6
    then "6"
    else if d == 7
    then "7"
    else if d == 8
    then "8"
    else "9"

-- The decimal text of a number below 10 ^ fuel.
unfoldable pub decimal_digits : ℕ → ℕ → String
decimal_digits zero n = ""
decimal_digits (suc fuel) n =
    let rest = decimal_digits fuel (n / 10) in if ltb n 10 then digit n else rest ++ digit (n % 10)

-- `usize::to_string`: 20 digits are enough for 64 bits.
unfoldable pub decimal : ℕ → String
unfolding decimal_digits
decimal n = decimal_digits 20 n

unfoldable pub capacity_error : ℕ → ProtocolError
capacity_error maximum = record {
  code = error_code ErrorCode.unavailable;
  message = "plugin action capacity is currently exhausted";
  retryable = true;
  metadata = ("maximum_concurrent_jobs", decimal maximum) ∷ [];
  details = [];
}

-- `1.0`.
abbrev pub whole : ℕ
whole = 0x3ff0000000000000

abbrev pub failed_update : String → SdkError → JobUpdate
failed_update job_id e = record {
  job_id = some (record { value = job_id });
  state = job_state JobState.failed;
  progress = some whole;
  status_message = none;
  result = none;
  error = some (outbound_error e);
  artifacts = [];
}

abbrev pub succeeded_update : String → Option ConfigValue → List ArtifactDescriptor → JobUpdate
succeeded_update job_id result artifacts = record {
  job_id = some (record { value = job_id });
  state = job_state JobState.succeeded;
  progress = some whole;
  status_message = none;
  result = result;
  error = none;
  artifacts = artifacts;
}

abbrev pub wire_update :
    String → Result (Option ConfigValue × List ArtifactDescriptor) → Result JobUpdate
wire_update job_id (ok (result, artifacts)) = ok (succeeded_update job_id result artifacts)
wire_update job_id (err e) = ok (failed_update job_id e)
wire_update job_id (panic m) = panic m

unfoldable pub terminal_update : String → Output → Result JobUpdate
unfolding into_wire outbound_error
terminal_update job_id (succeeded result) = wire_update job_id (into_wire result job_id)
terminal_update job_id (failed e) = ok (failed_update job_id e)
