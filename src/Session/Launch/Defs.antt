-- ===== src/Session/Launch/Defs.antt =====
-- A plugin from its start on: the endpoint, the watch on its parent, and the session.
use rust_plugin_sdk.Prelude.{ℕ, String, Bool, true, false, Option, none, some, List}
use rust_plugin_sdk.Protocol.{Timestamp}
use rust_plugin_sdk.Error.{SdkError, Result, ok, err, panic}
use rust_plugin_sdk.Validation.{UuidCrate}
use rust_plugin_sdk.Validation.Endpoint.{Uri, Parsed, endpoint}
use rust_plugin_sdk.Plugin.{Plugin}
use rust_plugin_sdk.Host.Source.{IoCall, gives, breaks}
use rust_plugin_sdk.Session.Liveness.{ParentLiveness, Turn, Report, watch_stdin, wait}
use rust_plugin_sdk.Session.Run.{Script, Connection, run_session, select}

-- What is outside of the plugin: the packages, the clock, the host, and the parent's pipe. `thread` is the
-- start of the watcher, `turns` what comes to it, and `parent_first` the branch of the select that is
-- polled first.
pub record World : Type 0 where
  pub uuids : UuidCrate
  pub system_time : Timestamp → IoCall ℕ
  pub parse_uri : String → Parsed
  pub connect : Uri → Connection
  pub script : Script
  pub thread : IoCall (Unit {0})
  pub turns : List Turn
  pub parent_first : Bool

abbrev pub waited : Option Report → Option (Result (Unit {0}))
waited none = none
waited (some r) = some (wait r)

abbrev pub parent_waits : World → ParentLiveness → Option (Result (Unit {0}))
parent_waits w parent = waited (watch_stdin w.turns parent.stop)

-- `ParentLiveness::start`. The stop flag is set only when the watcher is dropped, after the select.
abbrev pub start_watcher : IoCall (Unit {0}) → Result ParentLiveness
start_watcher (gives t) = ok (record { stop = false; thread = true })
start_watcher (breaks e) = err (SdkError.runtime "start parent-liveness watcher" e)

-- `none`: neither the session nor the watch has ended.
module _ (w : World) (plugin : Plugin) where
  abbrev pub race : Uri → Result ParentLiveness → Option (Result (Unit {0}))
  race uri (ok parent) =
      select w.parent_first (run_session w.uuids w.system_time plugin (w.connect uri) w.script)
        (parent_waits w parent)
  race uri (err e) = some (err e)
  race uri (panic m) = some (panic m)

  abbrev pub on_endpoint : Result Uri → Option (Result (Unit {0}))
  on_endpoint (ok uri) = race uri (start_watcher w.thread)
  on_endpoint (err e) = some (err e)
  on_endpoint (panic m) = some (panic m)

  -- `run` of the session.
  unfoldable pub run : String → Option (Result (Unit {0}))
  unfolding endpoint run_session select watch_stdin wait
  run value = on_endpoint (endpoint w.parse_uri value)

  -- `Plugin::run`; the variable of the environment is read first.
  unfoldable pub run_plugin : IoCall String → Option (Result (Unit {0}))
  unfolding run
  run_plugin (gives value) = run value
  run_plugin (breaks e) = some (err (SdkError.runtime "read OLL_PLUGIN_ENDPOINT" e))
