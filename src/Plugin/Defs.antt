-- ===== src/Plugin/Defs.antt =====
-- `RegisteredAction`, `Plugin` and `PluginBuilder`. An action's handler is the plugin author's code.
use rust_plugin_sdk.Prelude.{ℕ, String, List, [], ◌||◌, ◌==◌, nat_eq, string_eq, if◌then◌else◌}
use rust_plugin_sdk.Prelude.Map.{insert, contains_key}
use rust_plugin_sdk.Prelude.Text.{is_empty}
use rust_plugin_sdk.Error.{SdkError, Result, ok, err, ◌>>=◌}
use rust_plugin_sdk.Validation
use rust_plugin_sdk.Host.Output.{ActionResult}

-- What a panic carries: a text, or a value of another type.
pub data PanicPayload : Type 0 where
  text : String → PanicPayload
  other : PanicPayload

-- What an action's future comes to.
pub data Output : Type 0 where
  succeeded : ActionResult → Output
  failed : SdkError → Output

pub data Poll : Type 0 where
  pending : Poll
  ready : Output → Poll
  panics : PanicPayload → Poll

-- Calling the handler panics, or gives a future, known by what each of its polls does.
pub data Handled : Type 0 where
  panics : PanicPayload → Handled
  future : (ℕ → Poll) → Handled

pub record RegisteredAction : Type 0 where
  pub description : String
  pub handler : List String → Handled

pub record Plugin : Type 0 where
  pub plugin_id : String
  pub version : String
  pub actions : List (String × RegisteredAction)
  pub maximum_concurrent_jobs : ℕ

abbrev pub default_maximum_concurrent_jobs : ℕ
default_maximum_concurrent_jobs = 256

unfoldable pub builder : String → String → Plugin
builder plugin_id version = record {
  plugin_id = plugin_id;
  version = version;
  actions = [];
  maximum_concurrent_jobs = default_maximum_concurrent_jobs;
}

unfoldable pub maximum_concurrent_jobs : ℕ → Plugin → Result Plugin
maximum_concurrent_jobs maximum p =
    if maximum == 0
    then err (SdkError.invalid_argument "maximum concurrent jobs must be nonzero")
    else ok (record p { maximum_concurrent_jobs = maximum })

unfoldable pub action : String → String → (List String → Handled) → Plugin → Result Plugin
action name description handler p =
    if is_empty name || contains_key name p.actions
    then err (SdkError.invalid_argument "action names must be nonempty and unique")
    else ok (record p {
      actions = insert name (record { description = description; handler = handler }) p.actions;
    })

unfoldable pub build : Plugin → Result Plugin
build p = Validation.plugin_id p.plugin_id >>= λ _.
    if is_empty p.version
    then err (SdkError.invalid_argument "plugin version must not be empty")
    else ok p
