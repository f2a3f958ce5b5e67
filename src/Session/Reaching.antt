-- ===== src/Session/Reaching.antt =====
-- The loop of `serve` keeps to the histories of the job manager.
use rust_plugin_sdk.Prelude.{ℕ, String, some, List, nat_eq}
use rust_plugin_sdk.Protocol.{trace_eq}
use rust_plugin_sdk.Validation
use rust_plugin_sdk.Validation.{UuidCrate}
use rust_plugin_sdk.Host.Client.{HostClient}
use rust_plugin_sdk.Plugin.{RegisteredAction}
use rust_plugin_sdk.Session.Jobs
use rust_plugin_sdk.Session.Jobs.{JobManager}
use rust_plugin_sdk.Session.Jobs.Updates.{WellStored}
use rust_plugin_sdk.Session.Jobs.Contract.{IsApart}
use rust_plugin_sdk.Session.Jobs.Reached.{Reached, ends}
use rust_plugin_sdk.Session.Serve.{Event}

-- What the tasks do: the artifacts of an output were stored, and no message is about a job. The calls of an
-- action's context send no other.
abbrev pub IsOrdinary : Event → Type 0
IsOrdinary (Event.ends id output) = WellStored output
IsOrdinary (Event.requests trace payload) = IsApart (some payload)
IsOrdinary (Event.says trace payload) = IsApart (some payload)
IsOrdinary _ = Unit

module _ (u : UuidCrate) (actions : List (String × RegisteredAction)) (maximum : ℕ)
    (host : HostClient) where
  abbrev Reaches : JobManager → Type 0
  Reaches = Reached u actions maximum host
