-- ===== src/Session/Closing/Defs.antt =====
-- `wait_for_host_close`. A time of the system is counted in nanoseconds from the first that it has; the
-- conversion of a Timestamp into one is prost's, a parameter.
use Prim.Native.String.{◌++◌}
use rust_plugin_sdk.Prelude.{ℕ, ◌-◌, leb, Option, none, some, if◌then◌else◌}
use rust_plugin_sdk.Protocol.{Timestamp}
use rust_plugin_sdk.Error.{SdkError, Result, ok, err}
use rust_plugin_sdk.Host.Source.{IoCall, gives, breaks}
use rust_plugin_sdk.Session.Serve.{Incoming}

-- What the stream gives next, and after how long; or nothing, ever.
pub data Arrival : Type 0 where
  after : ℕ → Incoming → Arrival
  never : Arrival

-- `tokio::time::timeout`, which polls the stream before the clock; `none` is the timeout.
abbrev pub timeout : ℕ → Arrival → Option Incoming
timeout remaining never = none
timeout remaining (after delay incoming) = if leb delay remaining then some incoming else none

abbrev pub closed : Option Incoming → Result (Unit {0})
closed (some (Incoming.received envelope)) =
    err (SdkError.protocol "host sent a message after ShutdownRequest")
closed (some Incoming.closed) = ok tt
closed (some (Incoming.broken error)) = ok tt
closed none = ok tt

-- `duration_since` and its default, where the deadline has passed, are the subtraction that stops at 0.
abbrev pub wait_until : ℕ → Arrival → IoCall ℕ → Result (Unit {0})
wait_until now arrival (breaks error) =
    err (SdkError.protocol ("invalid shutdown deadline: " ++ error))
wait_until now arrival (gives deadline) = closed (timeout (deadline - now) arrival)

unfoldable pub wait_for_host_close :
    (Timestamp → IoCall ℕ) → Timestamp → ℕ → Arrival → Result (Unit {0})
wait_for_host_close system_time deadline now arrival = wait_until now arrival (system_time deadline)
