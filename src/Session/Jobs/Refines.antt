-- ===== src/Session/Jobs/Refines.antt =====
-- The job manager keeps the contract.
use rust_plugin_sdk.Prelude.{ℕ, String, List}
use rust_plugin_sdk.Validation.{UuidCrate}
use rust_plugin_sdk.Host.Client.{HostClient}
use rust_plugin_sdk.Plugin.{RegisteredAction}
use rust_plugin_sdk.Session.Jobs.Defs.{new_manager}
use rust_plugin_sdk.Session.Jobs.Reached.{Reached}
use rust_plugin_sdk.Session.Jobs.Contract.{Outside, outside}

module _ (u : UuidCrate) (actions : List (String × RegisteredAction)) (maximum : ℕ)
    (host : HostClient) where
  abbrev pub at_first : Outside
  at_first = outside (new_manager actions maximum host)
