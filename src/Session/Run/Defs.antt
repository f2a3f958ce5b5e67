-- ===== src/Session/Run/Defs.antt =====
-- A whole session, from its connection on, and its race with the watch on the parent.
use rust_plugin_sdk.Prelude.{ℕ, Bool, Option, none, some, List, if◌then◌else◌}
use rust_plugin_sdk.Protocol.{Timestamp}
use rust_plugin_sdk.Error.{SdkError, Result, ok, err, panic}
use rust_plugin_sdk.Validation.{UuidCrate}
use rust_plugin_sdk.Sender.{Wire}
use rust_plugin_sdk.Plugin.{Plugin}
use rust_plugin_sdk.Host.Source.{IoCall, gives, breaks}
use rust_plugin_sdk.Session.Serve.{Incoming, Event, Serving, serve}
use rust_plugin_sdk.Session.Greeting.{start_session}
use rust_plugin_sdk.Session.Closing.{Arrival, wait_for_host_close}

-- What comes to a session: the first two messages of the host, the events of the loop, and, once that
-- has ended, the time and what the stream gives next.
pub record Script : Type 0 where
  pub first : Incoming
  pub second : Incoming
  pub events : List Event
  pub now : ℕ
  pub arrival : Arrival

-- `connect` of the transport, and of the runtime's stream; `None` of an error is success.
pub record Connection : Type 0 where
  pub channel : IoCall (Unit {0})
  pub stream : IoCall Wire

abbrev pub after_loop :
    (Timestamp → IoCall ℕ) → Script → Result (Option Timestamp) → Option (Result (Unit {0}))
after_loop system_time script (ok none) = none
after_loop system_time script (ok (some deadline)) =
    some (wait_for_host_close system_time deadline script.now script.arrival)
after_loop system_time script (err e) = some (err e)
after_loop system_time script (panic m) = some (panic m)

abbrev pub from_start :
    UuidCrate → (Timestamp → IoCall ℕ) → Script → Result Serving → Option (Result (Unit {0}))
from_start u system_time script (ok s) =
    let (r, t) = serve u script.events s in after_loop system_time script r
from_start u system_time script (err e) = some (err e)
from_start u system_time script (panic m) = some (panic m)

module _ (u : UuidCrate) (system_time : Timestamp → IoCall ℕ) (plugin : Plugin) where
  abbrev pub on_stream : Script → IoCall Wire → Option (Result (Unit {0}))
  on_stream script (gives wire) =
      from_start u system_time script (start_session u plugin wire script.first script.second)
  on_stream script (breaks e) = some (err (SdkError.runtime "open plugin runtime stream" e))

  abbrev pub on_channel : Connection → Script → IoCall (Unit {0}) → Option (Result (Unit {0}))
  on_channel connection script (gives _) = on_stream script connection.stream
  on_channel connection script (breaks e) =
      some (err (SdkError.runtime "connect to oll plugin endpoint" e))

  -- `none`: the events are used up and the session goes on.
  unfoldable pub run_session : Connection → Script → Option (Result (Unit {0}))
  unfolding start_session serve wait_for_host_close
  run_session connection script = on_channel connection script connection.channel

-- The select of `run`; `parent_first` is the branch that it polls first.
abbrev pub first_of :
    Option (Result (Unit {0})) → Option (Result (Unit {0})) → Option (Result (Unit {0}))
first_of none other = other
first_of (some r) other = some r

unfoldable pub select :
    Bool → Option (Result (Unit {0})) → Option (Result (Unit {0})) → Option (Result (Unit {0}))
select parent_first session parent =
    if parent_first then first_of parent session else first_of session parent
