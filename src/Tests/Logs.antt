-- ===== src/Tests/Logs.antt =====
-- One log call of an active action.
use rust_plugin_sdk.Prelude.{◌≡◌, false, []}
use rust_plugin_sdk.Prelude.Int.{pos}
use rust_plugin_sdk.Protocol.{LogLevel, Timestamp}
use rust_plugin_sdk.Cancellation.{active}
use rust_plugin_sdk.Host.Log.{log}
use rust_plugin_sdk.Host.Log.Logged.{Outcome, IsLoggable, log_message, log-Outcome}
use rust_plugin_sdk.Tests.Data.{client, root_trace, context}

abbrev clock : Timestamp
clock = record { seconds = pos 1700000000; nanos = pos 0 }

log-Outcome_example :
    Outcome
      ((active ≡ active) × (active ≡ active) × IsLoggable LogLevel.info "sync" [] clock)
      (log_message root_trace clock LogLevel.info "sync" "started" [])
      client
      (log context active active false clock LogLevel.info "sync" "started" [] client)
log-Outcome_example =
    log-Outcome context active active false clock LogLevel.info "sync" "started" [] client
