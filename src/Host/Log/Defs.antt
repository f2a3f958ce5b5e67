-- ===== src/Host/Log/Defs.antt =====
-- `log` and `system_timestamp`. The system's clock is an argument, already a Timestamp.
use rust_plugin_sdk.Prelude.{String, Bool, none, some, not, List, [], ◌∷◌, string_eq, if◌then◌else◌}
use rust_plugin_sdk.Prelude.Text.{is_empty}
use rust_plugin_sdk.Protocol.{ConfigValue, LogLevel, log_level, Payload, Timestamp}
use rust_plugin_sdk.Error
use rust_plugin_sdk.Error.{SdkError, Result, ok, err, panic, ensure}
use rust_plugin_sdk.Exec.{Exec, ◌>>=◌, ◌>>◌, pure, lift}
use rust_plugin_sdk.Value.{validate_serializable}
use rust_plugin_sdk.Value.Domain.{valid_timestamp}
use rust_plugin_sdk.Cancellation.{Cancellation, ensure_active}
use rust_plugin_sdk.Sender.{SessionSender}
use rust_plugin_sdk.Host.Client.{HostClient}
use rust_plugin_sdk.Host.Context.{ActionContext}
use rust_plugin_sdk.Host.Transfer.{select_send}

abbrev pub on_sender : {A : Type 0} → Exec SessionSender A → Exec HostClient A
on_sender m h = let (r, s) = m h.sender in (r, record h { sender = s })

unfoldable pub system_timestamp : Timestamp → Result Timestamp
unfolding valid_timestamp
system_timestamp timestamp =
    if valid_timestamp timestamp
    then ok timestamp
    else err (SdkError.environment "system clock is outside the protobuf Timestamp domain")

abbrev pub is_unspecified : LogLevel → Bool
is_unspecified LogLevel.unspecified = Bool.true
is_unspecified _ = Bool.false

-- The values of the fields, in the order in which the map gives them.
unfoldable pub check_fields : List (String × ConfigValue) → Result (Unit {0})
unfolding validate_serializable
check_fields [] = ok tt
check_fields ((_, value) ∷ fields) = Error.◌>>◌ (validate_serializable value) (check_fields fields)

-- The select between the end of the action and the send reads the controller as `ended`; `polled` tells
-- whether the send was polled before the action ended.
unfoldable pub log :
    ActionContext
    → Cancellation
    → Cancellation
    → Bool
    → Timestamp
    → LogLevel
    → String
    → String
    → List (String × ConfigValue)
    → Exec HostClient (Unit {0})
unfolding ensure_active check_fields system_timestamp select_send
log c begun ended polled clock level target message fields = do
  lift (ensure_active begun)
  lift (
      ensure (not (is_unspecified level))
        (SdkError.invalid_argument "log level must not be unspecified"))
  lift (ensure (not (is_empty target)) (SdkError.invalid_argument "log target must not be empty"))
  lift (check_fields fields)
  timestamp ← lift (system_timestamp clock)
  on_sender (
      select_send ended polled none c.trace (
        Payload.log (record {
          timestamp = some timestamp;
          level = log_level level;
          target = target;
          message = message;
          fields = fields;
        })))
  pure tt
